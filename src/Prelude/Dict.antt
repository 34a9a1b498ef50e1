-- ===== src/Prelude/Dict.antt =====
-- A Python dict as the list of its items in the order of insertion.
use Prim.Native.Nat.{ℕ}
use mathlib.Core.Path.{◌≡◌, refl}
use mathlib.Core.Bool.{Bool, false, ◌&&◌, ◌||◌}
use mathlib.Core.Option.{Option, none, some}
use mathlib.Core.List.{List, [], ◌∷◌}
use native.Mathlib.Omega.{arith}
use opencode_gateway.Prelude.Tests.{Eq, ◌==◌, ltb, if◌then◌else◌}
use opencode_gateway.Prelude.Lists.{contains}

abbrev pub map_found {ℓ κ} : {A : Type ℓ} {B : Type κ} → (A → B) → Option A → Option B
map_found f none = none
map_found f (some v) = some (f v)

module _ {ℓ κ} {K : Type ℓ} {V : Type κ} ⦃e : Eq K⦄ where
  -- `d.get(k)`
  unfoldable pub get : K → List (K × V) → Option V
  get k [] = none
  get k (item ∷ d) = let rest = get k d in if item.0 == k then some item.1 else rest

  -- `d[k] = v`
  unfoldable pub put : K → V → List (K × V) → List (K × V)
  put k v [] = (k, v) ∷ []
  put k v (item ∷ d) = let rest = put k v d in if item.0 == k then (item.0, v) ∷ d else item ∷ rest

  -- `for k in ks: d[k] = v`
  unfoldable pub put_all : List K → V → List (K × V) → List (K × V)
  put_all [] v d = d
  put_all (k ∷ ks) v d = put_all ks v (put k v d)

  -- `for k, v in items: d[k] = v`
  unfoldable pub put_items : List (K × V) → List (K × V) → List (K × V)
  put_items [] d = d
  put_items (item ∷ items) d = put_items items (put item.0 item.1 d)

  -- `for k in list(d): d[k] = f(k, d[k])`
  unfoldable pub update_values : (K → V → V) → List (K × V) → List (K × V)
  update_values f [] = []
  update_values f (item ∷ d) = (item.0, f item.0 item.1) ∷ update_values f d

  pub get-put :
      (j k : K) (v : V) (d : List (K × V))
      → get k (put j v d) ≡ (if j == k then some v else get k d)
  unfolding get put
  get-put j k v [] = refl
  get-put j k v (item ∷ d) = ground (arith, get-put j k v d)

  pub get-put_all :
      (k : K) (ks : List K) (v : V) (d : List (K × V))
      → get k (put_all ks v d) ≡ (if contains k ks then some v else get k d)
  unfolding put_all contains
  get-put_all k [] v d = refl
  get-put_all k (j ∷ ks) v d = ground (arith, get-put_all k ks v (put j v d), get-put j k v d)

  pub get-update_values :
      (f : K → V → V) (k : K) (d : List (K × V))
      → get k (update_values f d) ≡ map_found (f k) (get k d)
  unfolding get update_values
  get-update_values f k [] = refl
  get-update_values f k (item ∷ d) = ground (arith, get-update_values f k d)

-- `if prev is None or n < prev: d[k] = n`, with `prev` the value of the key
unfoldable pub put_least {ℓ} : {K : Type ℓ} ⦃e : Eq K⦄ → K → ℕ → List (K × ℕ) → List (K × ℕ)
put_least k n d = elim (get k d) [
  | none ↦ put k n d
  | some prev ↦ if ltb n prev then put k n d else d
]

-- The key has a value less than `t`.
unfoldable pub has_less {ℓ} : {K : Type ℓ} ⦃e : Eq K⦄ → ℕ → K → List (K × ℕ) → Bool
has_less t k d = elim (get k d) [ none ↦ false | some n ↦ ltb n t ]

pub has_less-put_least {ℓ} :
    {K : Type ℓ} ⦃e : Eq K⦄ (t : ℕ) (j k : K) (n : ℕ) (d : List (K × ℕ))
    → has_less t k (put_least j n d) ≡ (has_less t k d || j == k && ltb n t)
unfolding put_least has_less
has_less-put_least t j k n d = ground (arith, get-put j k n d)
