-- ===== src/Prelude/Tests.antt =====
-- Python's `==`, `<`, `if` and `is None` as Boolean tests. `==` is decided by the instance of its
-- type, so that a branch knows the equation, or its negation.
use Prim.Native.Nat.{ℕ, compare, Ordering}
use Prim.Native.String.{String}
use mathlib.Core.Path.{◌≡◌, refl}
use mathlib.Core.Logic.{◌⊎◌, inl, inr}
use mathlib.Core.Bool.{Bool, true, false}
use mathlib.Core.Option.{Option, none, some}
use mathlib.Core.List.{List}
use native.Mathlib.Decide.{ℕ_discrete}
use text.Mathlib.Text.{◌==◌ as text_eq}
use text.Mathlib.TextEquality.{eq_iff}

of_test : (s t : String) (b : Bool) → text_eq s t ≡ b → Dec (s ≡ t)
of_test s t true h = yes ((eq_iff s t).0 h)
of_test s t false h = no (λ p. cc (h, (eq_iff s t).1 p))

unfoldable pub string_discrete : Discrete String
unfolding of_test
string_discrete s t = of_test s t (text_eq s t) refl

unfoldable pub option_discrete {ℓ} : {A : Type ℓ} → Discrete A → Discrete (Option A)
option_discrete d = hlevel d

unfoldable pub list_discrete {ℓ} : {A : Type ℓ} → Discrete A → Discrete (List A)
list_discrete d = hlevel d

pub record Eq {ℓ} (A : Type ℓ) : Type ℓ where
  pub dec : Discrete A

infix 50 ◌==◌ ◌/=◌
abbrev pub ◌==◌ {ℓ} : {A : Type ℓ} ⦃e : Eq A⦄ → A → A → Bool
◌==◌ ⦃e⦄ a b = elim (e.dec a b) [ yes _ ↦ true | no _ ↦ false ]

abbrev pub ◌/=◌ {ℓ} : {A : Type ℓ} ⦃e : Eq A⦄ → A → A → Bool
◌/=◌ ⦃e⦄ a b = elim (e.dec a b) [ yes _ ↦ false | no _ ↦ true ]

instance abbrev pub nat_eq : Eq ℕ
nat_eq = record { dec = ℕ_discrete }

instance abbrev pub string_eq : Eq String
string_eq = record { dec = string_discrete }

instance abbrev pub option_eq {ℓ} : {A : Type ℓ} ⦃e : Eq A⦄ → Eq (Option A)
option_eq ⦃e⦄ = record { dec = option_discrete e.dec }

instance abbrev pub list_eq {ℓ} : {A : Type ℓ} ⦃e : Eq A⦄ → Eq (List A)
list_eq ⦃e⦄ = record { dec = list_discrete e.dec }

-- These compute to `compare`, which the tactics read.
abbrev pub ltb : ℕ → ℕ → Bool
ltb a b = elim (compare a b) [ Ordering.lt ↦ true | _ ↦ false ]

abbrev pub leb : ℕ → ℕ → Bool
leb a b = elim (compare a b) [ Ordering.gt ↦ false | _ ↦ true ]

infix 1 if◌then◌else◌
abbrev pub if◌then◌else◌ {ℓ} : {A : Type ℓ} → Bool → A → A → A
if true then x else y = x
if false then x else y = y

-- One for a test that holds, and zero for one that does not.
abbrev pub indicator : Bool → ℕ
indicator b = if b then 1 else 0

abbrev pub is_none {ℓ} : {A : Type ℓ} → Option A → Bool
is_none none = true
is_none (some _) = false

abbrev pub is_some {ℓ} : {A : Type ℓ} → Option A → Bool
is_some none = false
is_some (some _) = true

-- `a if a is not None else b`, and SQL's COALESCE.
abbrev pub coalesce {ℓ} : {A : Type ℓ} → Option A → Option A → Option A
coalesce none b = b
coalesce (some a) _ = some a

-- To split on a computed value and keep the equation.
pub Bool-cases : (b : Bool) → (b ≡ true) ⊎ (b ≡ false)
Bool-cases true = inl refl
Bool-cases false = inr refl

pub Option-cases {ℓ} : {A : Type ℓ} (o : Option A) → (o ≡ none) ⊎ ((a : A) × (o ≡ some a))
Option-cases none = inl refl
Option-cases (some a) = inr (a, refl)
