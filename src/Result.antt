-- ===== src/Result.antt =====
-- A repository method that may raise. A raise rolls the transaction back, so it carries no state.
use opencode_gateway.Prelude.{◌≡◌, refl, ◌⊎◌, inl, inr}

pub data Error : Type 0 where
  value_error unique_violation : Error

pub data Result {ℓ} (A : Type ℓ) : Type ℓ where
  ok : A → Result A
  raise : Error → Result A

-- To split on a computed result and keep the equation.
pub Result-cases {ℓ} :
    {A : Type ℓ} (r : Result A) → ((e : Error) × (r ≡ raise e)) ⊎ ((a : A) × (r ≡ ok a))
Result-cases (raise e) = inl (e, refl)
Result-cases (ok a) = inr (a, refl)
