-- ===== src/Prelude/Lists.antt =====
-- Lists as Python uses them: lengths over the native numbers, membership, quantifiers, and
-- `dict.fromkeys` as the removal of duplicates that keeps the first occurrences.
use Prim.Native.Nat.{ℕ, suc, ◌+◌, ◌≤◌}
use mathlib.Core.Path.{◌≡◌, refl, ap}
use mathlib.Core.Logic.{inl, inr}
use mathlib.Core.Bool.{Bool, true, false, ◌&&◌, ◌||◌}
use mathlib.Core.Option.{Option, none, some}
use mathlib.Core.List.{List, [], ◌∷◌, ◌++◌, map}
use native.Mathlib.Omega.{arith}
use opencode_gateway.Prelude.Tests.{Eq, ◌==◌, if◌then◌else◌, Bool-cases, is_some}

module _ {ℓ} {A : Type ℓ} where
  abbrev pub length : List A → ℕ
  length [] = 0
  length (x ∷ xs) = suc (length xs)

  pub length-append : (xs ys : List A) → length (xs ++ ys) ≡ length xs + length ys
  length-append [] ys = omega arith
  length-append (x ∷ xs) ys = omega (arith, length-append xs ys)

  -- `xs[0] if xs else None`
  abbrev pub head? : List A → Option A
  head? [] = none
  head? (x ∷ xs) = some x

  abbrev pub is_empty : List A → Bool
  is_empty [] = true
  is_empty (x ∷ xs) = false

  -- `next((x for x in xs if p(x)), None)`
  unfoldable pub find? : (A → Bool) → List A → Option A
  find? p [] = none
  find? p (x ∷ xs) = let rest = find? p xs in if p x then some x else rest

  unfoldable pub filter : (A → Bool) → List A → List A
  filter p [] = []
  filter p (x ∷ xs) = let rest = filter p xs in if p x then x ∷ rest else rest

  unfoldable pub any : (A → Bool) → List A → Bool
  any p [] = false
  any p (x ∷ xs) = p x || any p xs

  abbrev pub All {κ} : (A → Type κ) → List A → Type κ
  All P [] = Unit
  All P (x ∷ xs) = P x × All P xs

  pub All-append {κ} : (P : A → Type κ) (xs ys : List A) → All P xs → All P ys → All P (xs ++ ys)
  All-append P [] ys h k = k
  All-append P (x ∷ xs) ys h k = (h.0, All-append P xs ys h.1 k)

  pub All-imp {κ} : (P Q : A → Type κ) → ((x : A) → P x → Q x) → (xs : List A) → All P xs → All Q xs
  All-imp P Q f [] h = tt
  All-imp P Q f (x ∷ xs) h = (f x h.0, All-imp P Q f xs h.1)

  pub All-filter {κ} :
      (P : A → Type κ) (p : A → Bool) (xs : List A) → All P xs → All P (filter p xs)
  unfolding filter
  All-filter P p [] h = tt
  All-filter P p (x ∷ xs) h = elim (Bool-cases (p x)) [
    | inl e ↦ rw e (h.0, All-filter P p xs h.1)
    | inr e ↦ rw e (All-filter P p xs h.1)
  ]

pub All-map {ℓ κ μ} :
    {A : Type ℓ} {B : Type κ} (f : A → B) (P : B → Type μ) (xs : List A)
    → All (λ (x : A). P (f x)) xs
    → All P (map f xs)
All-map f P [] h = tt
All-map f P (x ∷ xs) h = (h.0, All-map f P xs h.1)

module _ {ℓ} {A : Type ℓ} ⦃e : Eq A⦄ where
  -- `a in xs`
  unfoldable pub contains : A → List A → Bool
  contains a [] = false
  contains a (x ∷ xs) = a == x || contains a xs

  -- `list(dict.fromkeys(xs))`, with the keys seen so far
  unfoldable pub dedupe_from : List A → List A → List A
  unfolding contains
  dedupe_from seen [] = []
  dedupe_from seen (x ∷ xs) =
      let rest = dedupe_from seen xs in
      let fresh = dedupe_from (x ∷ seen) xs in if contains x seen then rest else x ∷ fresh

  abbrev pub dedupe : List A → List A
  dedupe xs = dedupe_from [] xs

  -- No element is in `seen`, and none stands twice.
  abbrev pub DistinctFrom : List A → List A → Type 0
  DistinctFrom seen [] = Unit
  DistinctFrom seen (x ∷ xs) = (contains x seen ≡ false) × DistinctFrom (x ∷ seen) xs

  pub dedupe_from-DistinctFrom : (seen xs : List A) → DistinctFrom seen (dedupe_from seen xs)
  unfolding dedupe_from
  dedupe_from-DistinctFrom seen [] = tt
  dedupe_from-DistinctFrom seen (x ∷ xs) = elim (Bool-cases (contains x seen)) [
    | inl old ↦ rw old (dedupe_from-DistinctFrom seen xs)
    | inr new ↦ rw new (new, dedupe_from-DistinctFrom (x ∷ seen) xs)
  ]

  pub contains-append :
      (a : A) (xs ys : List A) → contains a (xs ++ ys) ≡ (contains a xs || contains a ys)
  unfolding contains
  contains-append a [] ys = refl
  contains-append a (x ∷ xs) ys = ground (arith, contains-append a xs ys)

  pub contains-filter :
      (p : A → Bool) (a : A) (xs : List A) → contains a (filter p xs) ≡ (contains a xs && p a)
  unfolding contains filter
  contains-filter p a [] = refl
  contains-filter p a (x ∷ xs) = ground (arith, contains-filter p a xs)

  pub contains-any : (a : A) (xs : List A) → contains a xs ≡ any (λ (x : A). a == x) xs
  unfolding contains any
  contains-any a [] = refl
  contains-any a (x ∷ xs) = ground (arith, contains-any a xs)

  -- What is among the elements survives the removal of duplicates, and nothing is added.
  pub contains-dedupe_from :
      (a : A) (seen xs : List A)
      → (contains a seen || contains a (dedupe_from seen xs)) ≡ (contains a seen || contains a xs)
  unfolding dedupe_from contains
  contains-dedupe_from a seen [] = refl
  contains-dedupe_from a seen (x ∷ xs) =
      ground (arith, contains-dedupe_from a seen xs, contains-dedupe_from a (x ∷ seen) xs)

pub length-filter_none {ℓ} :
    {A : Type ℓ} (p : A → Bool) (xs : List A) → any p xs ≡ false → length (filter p xs) ≡ 0
unfolding any filter
length-filter_none p [] h = refl
length-filter_none p (x ∷ xs) h = ground (arith, length-filter_none p xs)

pub filter-filter {ℓ} :
    {A : Type ℓ} (p q : A → Bool) (xs ys : List A) (x : A)
    → filter p xs ≡ x ∷ ys
    → q x ≡ true
    → 1 ≤ length (filter q xs)
unfolding filter
filter-filter p q [] ys x e h = cc
filter-filter p q (z ∷ zs) ys x e h = ground (arith, filter-filter p q zs ys x)

pub nil_of_length {ℓ} : {A : Type ℓ} (xs : List A) → length xs ≤ 0 → xs ≡ []
nil_of_length [] h = refl
nil_of_length (x ∷ xs) h = absurd (omega arith)

pub any-find {ℓ} : {A : Type ℓ} (p : A → Bool) (xs : List A) → is_some (find? p xs) ≡ any p xs
unfolding find? any
any-find p [] = refl
any-find p (x ∷ xs) = ground (arith, any-find p xs)

pub find-append {ℓ} :
    {A : Type ℓ} (p : A → Bool) (xs ys : List A)
    → any p xs ≡ false
    → find? p (xs ++ ys) ≡ find? p ys
unfolding find? any
find-append p [] ys h = refl
find-append p (x ∷ xs) ys h = ground (arith, find-append p xs ys)

pub length-filter-append {ℓ} :
    {A : Type ℓ} (p : A → Bool) (xs ys : List A)
    → length (filter p (xs ++ ys)) ≡ length (filter p xs) + length (filter p ys)
unfolding filter
length-filter-append p [] ys = omega arith
length-filter-append p (x ∷ xs) ys = ground (arith, length-filter-append p xs ys)

pub length-filter-ext {ℓ} :
    {A : Type ℓ} (p q : A → Bool) (xs : List A)
    → ((x : A) → p x ≡ q x)
    → length (filter p xs) ≡ length (filter q xs)
unfolding filter
length-filter-ext p q [] h = refl
length-filter-ext p q (x ∷ xs) h = ground (arith, h x, length-filter-ext p q xs h)

pub find-append_found {ℓ} :
    {A : Type ℓ} (p : A → Bool) (xs ys : List A) (x : A)
    → find? p xs ≡ some x
    → find? p (xs ++ ys) ≡ some x
unfolding find?
find-append_found p [] ys x h = cc
find-append_found p (y ∷ xs) ys x h = ground (arith, find-append_found p xs ys x)

pub find-holds {ℓ} :
    {A : Type ℓ} (p : A → Bool) (xs : List A) (x : A) → find? p xs ≡ some x → p x ≡ true
unfolding find?
find-holds p [] x h = cc
find-holds p (y ∷ xs) x h = ground (arith, find-holds p xs x)

pub filter-append_none {ℓ} :
    {A : Type ℓ} (p : A → Bool) (xs ys : List A)
    → filter p ys ≡ []
    → filter p (xs ++ ys) ≡ filter p xs
unfolding filter
filter-append_none p [] ys h = h
filter-append_none p (x ∷ xs) ys h = ground (arith, filter-append_none p xs ys h)

pub length-map {ℓ κ} :
    {A : Type ℓ} {B : Type κ} (f : A → B) (xs : List A) → length (map f xs) ≡ length xs
length-map f [] = refl
length-map f (x ∷ xs) = ap suc (length-map f xs)
