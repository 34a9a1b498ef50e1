-- ===== src/Associations/Sort.antt =====
-- Python's `sorted`: a stable sort by a Boolean order, and what it keeps.
use opencode_gateway.Prelude.{
  ◌≡◌, ◌+◌, refl, Bool, ◌||◌, List, [], ◌∷◌, arith, if◌then◌else◌, any, filter, length,
}

module _ {ℓ} {A : Type ℓ} (le : A → A → Bool) where
  unfoldable pub insert_by : A → List A → List A
  insert_by x [] = x ∷ []
  insert_by x (y ∷ ys) = let rest = insert_by x ys in if le x y then x ∷ y ∷ ys else y ∷ rest

  unfoldable pub sort_by : List A → List A
  unfolding insert_by
  sort_by [] = []
  sort_by (x ∷ xs) = insert_by x (sort_by xs)

  any-insert_by : (p : A → Bool) (x : A) (ys : List A) → any p (insert_by x ys) ≡ (p x || any p ys)
  unfolding any insert_by
  any-insert_by p x [] = refl
  any-insert_by p x (y ∷ ys) = ground (arith, any-insert_by p x ys)

  pub any-sort_by : (p : A → Bool) (xs : List A) → any p (sort_by xs) ≡ any p xs
  unfolding any sort_by
  any-sort_by p [] = refl
  any-sort_by p (x ∷ xs) = ground (arith, any-insert_by p x (sort_by xs), any-sort_by p xs)

  length-filter-insert_by :
      (p : A → Bool) (x : A) (ys : List A)
      → length (filter p (insert_by x ys)) ≡ length (filter p (x ∷ ys))
  unfolding filter insert_by
  length-filter-insert_by p x [] = refl
  length-filter-insert_by p x (y ∷ ys) = ground (arith, length-filter-insert_by p x ys)

  pub length-filter-sort_by :
      (p : A → Bool) (xs : List A) → length (filter p (sort_by xs)) ≡ length (filter p xs)
  unfolding filter sort_by
  length-filter-sort_by p [] = refl
  length-filter-sort_by p (x ∷ xs) =
      ground (arith, length-filter-insert_by p x (sort_by xs), length-filter-sort_by p xs)

  length-insert_by : (x : A) (ys : List A) → length (insert_by x ys) ≡ length ys + 1
  unfolding insert_by
  length-insert_by x [] = refl
  length-insert_by x (y ∷ ys) = ground (arith, length-insert_by x ys)

  pub length-sort_by : (xs : List A) → length (sort_by xs) ≡ length xs
  unfolding sort_by
  length-sort_by [] = refl
  length-sort_by (x ∷ xs) = omega (arith, length-insert_by x (sort_by xs), length-sort_by xs)
