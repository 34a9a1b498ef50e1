-- ===== src/MergePolicy.antt =====
-- app/core/merge_policy.py: the delta of a usage event and a replay of it. A token count and a
-- cost (a Decimal, in a fixed small unit) are integers; `none` is None, or a missing key.
use opencode_gateway.Prelude.{
  Bool, true, false, String, Option, none, some, List, [], ◌∷◌, Eq, if◌then◌else◌,
}
use opencode_gateway.Prelude.Int.{ℤ, pos, ◌+ℤ◌, ◌-ℤ◌, ltb_ℤ}

-- The seven fields of an event that have a delta.
pub data Field : Type 0 where
  input_tokens output_tokens cached_tokens : Field
  cache_read_tokens cache_write_tokens reasoning_tokens : Field
  estimated_cost_usd : Field

unfoldable pub field_discrete : Discrete Field
field_discrete = hlevel

instance abbrev pub field_eq : Eq Field
field_eq = record { dec = field_discrete }

-- `DELTA_FIELDS`
abbrev pub delta_fields : List Field
delta_fields =
    input_tokens ∷ output_tokens ∷ cached_tokens ∷ cache_read_tokens ∷ cache_write_tokens
    ∷ reasoning_tokens ∷ estimated_cost_usd ∷ []

-- `ROLLUP_FIELDS`
unfoldable pub is_rollup_field : Field → Bool
is_rollup_field input_tokens = true
is_rollup_field output_tokens = true
is_rollup_field cached_tokens = false
is_rollup_field cache_read_tokens = true
is_rollup_field cache_write_tokens = true
is_rollup_field reasoning_tokens = false
is_rollup_field estimated_cost_usd = true

-- `SESSION_TOKEN_FIELDS`
unfoldable pub is_session_token_field : Field → Bool
is_session_token_field input_tokens = true
is_session_token_field output_tokens = true
is_session_token_field cached_tokens = true
is_session_token_field cache_read_tokens = true
is_session_token_field cache_write_tokens = true
is_session_token_field reasoning_tokens = false
is_session_token_field estimated_cost_usd = false

-- The keys of `SESSION_FIELD_MAP`
unfoldable pub is_session_field : Field → Bool
is_session_field reasoning_tokens = false
is_session_field _ = true

-- `IngestOutcome`
pub data IngestOutcome : Type 0 where
  accepted duplicate updated quarantined conflict rejected : IngestOutcome

abbrev pub Values : Type 0
Values = Field → Option ℤ

-- `DeltaResult`
pub record DeltaResult : Type 0 where
  pub old_values : Values
  pub new_values : Values
  pub deltas : Field → ℤ
  pub token_adjustment : ℤ
  pub cost_adjustment : ℤ

abbrev pub or_zero : Option ℤ → ℤ
or_zero none = pos 0
or_zero (some v) = v

unfoldable pub delta_of : Option ℤ → Option ℤ → ℤ
delta_of old none = pos 0
delta_of old (some v) = v -ℤ or_zero old

abbrev pub effective : Option ℤ → Option ℤ → Option ℤ
effective old none = old
effective old (some v) = some v

-- The running sum of the loop over the fields.
unfoldable pub sum_tokens : (Field → ℤ) → List Field → ℤ
sum_tokens d [] = pos 0
sum_tokens d (f ∷ fs) =
    let rest = sum_tokens d fs in if is_session_token_field f then d f +ℤ rest else rest

-- `compute_delta`
unfoldable pub compute_delta : Values → Values → DeltaResult
compute_delta old incoming =
    let deltas = λ (f : Field). delta_of (old f) (incoming f) in
    record {
      old_values = old;
      new_values = λ f. effective (old f) (incoming f);
      deltas = deltas;
      token_adjustment = sum_tokens deltas delta_fields;
      cost_adjustment = deltas estimated_cost_usd;
    }

unfoldable pub clamp : ℤ → ℤ
clamp v = if ltb_ℤ v (pos 0) then pos 0 else v

abbrev pub clamp_value : Option ℤ → Option ℤ
clamp_value none = none
clamp_value (some v) = some (clamp v)

-- `validate_no_negative_totals`: the answer, and the dict after it
unfoldable pub validate_no_negative_totals : Option String → Values → Bool × Values
validate_no_negative_totals none adjusted = (false, adjusted)
validate_no_negative_totals (some session) adjusted = (true, λ f. clamp_value (adjusted f))
