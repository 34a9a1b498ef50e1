-- ===== src/Prelude/Int.antt =====
-- Python's `int` over the native numbers, under the library's names.
use Prim.Native.Nat.{ℕ, suc, ◌+◌, ◌-◌, ◌≤◌}
use mathlib.Core.Path.{◌≡◌}
use mathlib.Core.Bool.{Bool}
use native.Mathlib.Decide.{ℕ_discrete}
use native.Mathlib.Omega.{arith}
use opencode_gateway.Prelude.Tests.{Eq, ltb, leb, if◌then◌else◌}

-- `negsuc n` is -(n + 1).
pub data ℤ : Type 0 where
  pos : ℕ → ℤ
  negsuc : ℕ → ℤ

unfoldable pub ℤ_discrete : Discrete ℤ
ℤ_discrete = hlevel ℕ_discrete

instance abbrev pub int_eq : Eq ℤ
int_eq = record { dec = ℤ_discrete }

abbrev pub pos_part : ℤ → ℕ
pos_part (pos n) = n
pos_part (negsuc n) = 0

abbrev pub neg_part : ℤ → ℕ
neg_part (pos n) = 0
neg_part (negsuc n) = suc n

-- a - b, as an integer.
abbrev pub sub_ℕ : ℕ → ℕ → ℤ
sub_ℕ a b = if leb b a then pos (a - b) else negsuc (b - a - 1)

infixl 65 ◌+ℤ◌ ◌-ℤ◌
infix 50 ◌≤ℤ◌
unfoldable pub ◌+ℤ◌ : ℤ → ℤ → ℤ
a +ℤ b = sub_ℕ (pos_part a + pos_part b) (neg_part a + neg_part b)

unfoldable pub ◌-ℤ◌ : ℤ → ℤ → ℤ
a -ℤ b = sub_ℕ (pos_part a + neg_part b) (neg_part a + pos_part b)

abbrev pub ◌≤ℤ◌ : ℤ → ℤ → Type 0
a ≤ℤ b = pos_part a + neg_part b ≤ pos_part b + neg_part a

-- `a < b`
abbrev pub ltb_ℤ : ℤ → ℤ → Bool
ltb_ℤ a b = ltb (pos_part a + neg_part b) (pos_part b + neg_part a)

-- One lemma for each operation lets `omega` work with the operations shut.
pub +ℤ_parts :
    (a b : ℤ)
    → pos_part (a +ℤ b) + neg_part a + neg_part b ≡ neg_part (a +ℤ b) + pos_part a + pos_part b
unfolding ◌+ℤ◌
+ℤ_parts a b = ground arith

pub -ℤ_parts :
    (a b : ℤ)
    → pos_part (a -ℤ b) + neg_part a + pos_part b ≡ neg_part (a -ℤ b) + pos_part a + neg_part b
unfolding ◌-ℤ◌
-ℤ_parts a b = ground arith

pub eq_of_parts : (a b : ℤ) → pos_part a + neg_part b ≡ pos_part b + neg_part a → a ≡ b
eq_of_parts a b h = ground arith

pub ruleset int_laws = (arith, +ℤ_parts, -ℤ_parts, eq_of_parts)

pub sub_self : (a : ℤ) → a -ℤ a ≡ pos 0
unfolding ◌-ℤ◌
sub_self a = ground arith

pub eq_of_sub : (a b : ℤ) → a -ℤ b ≡ pos 0 → a ≡ b
eq_of_sub a b h = ground (arith, -ℤ_parts a b, eq_of_parts a b)

pub add_sub : (a b : ℤ) → a +ℤ (b -ℤ a) ≡ b
add_sub a b = ground (arith, +ℤ_parts a (b -ℤ a), -ℤ_parts b a, eq_of_parts (a +ℤ (b -ℤ a)) b)

pub add_zero : (a : ℤ) → a +ℤ pos 0 ≡ a
add_zero a = ground (arith, +ℤ_parts a (pos 0), eq_of_parts (a +ℤ pos 0) a)

pub zero_add : (a : ℤ) → pos 0 +ℤ a ≡ a
zero_add a = ground (arith, +ℤ_parts (pos 0) a, eq_of_parts (pos 0 +ℤ a) a)

-- The increment of one summand is the increment of the sum.
pub add_right_comm : (a b c : ℤ) → (a +ℤ b) +ℤ c ≡ (a +ℤ c) +ℤ b
add_right_comm a b c = ground (
  arith,
  +ℤ_parts a b,
  +ℤ_parts (a +ℤ b) c,
  +ℤ_parts a c,
  +ℤ_parts (a +ℤ c) b,
  eq_of_parts ((a +ℤ b) +ℤ c) ((a +ℤ c) +ℤ b),
)

pub add_assoc : (a b c : ℤ) → (a +ℤ b) +ℤ c ≡ a +ℤ (b +ℤ c)
add_assoc a b c = ground (
  arith,
  +ℤ_parts a b,
  +ℤ_parts (a +ℤ b) c,
  +ℤ_parts b c,
  +ℤ_parts a (b +ℤ c),
  eq_of_parts ((a +ℤ b) +ℤ c) (a +ℤ (b +ℤ c)),
)
