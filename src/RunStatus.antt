-- ===== src/RunStatus.antt =====
-- afk_outcomes/run_status.py: the status of an AFK Run, projected from the outcomes of its
-- execution bindings. An argument is one of the shapes that the coercion tells apart.
pub mod Precedence
use opencode_gateway.Prelude.{
  Bool, true, false, ◌||◌, String, List, [], ◌∷◌, string_eq, ◌==◌, if◌then◌else◌, contains,
}
use opencode_gateway.Domain.{ExecutionOutcome, outcome_value}
use opencode_gateway.Result.{Result, ok, raise, value_error}

-- An outcome without its wrapper: a member of the enumeration, a text, an object with a `value`
-- that prints as the text, or any other object that prints as the text.
pub data Outcome : Type 0 where
  member : ExecutionOutcome → Outcome
  text : String → Outcome
  valued : String → Outcome
  printed : String → Outcome

-- An item: a plain outcome, or an object with the attribute `outcome`.
pub data Item : Type 0 where
  plain : Outcome → Item
  carrying : Outcome → Item

abbrev pub outcome_text : Outcome → String
unfolding outcome_value
outcome_text (member o) = outcome_value o
outcome_text (text s) = s
outcome_text (valued s) = s
outcome_text (printed s) = s

-- `_coerce_outcome_value`
unfoldable pub coerce_outcome_value : Item → String
coerce_outcome_value (plain o) = outcome_text o
coerce_outcome_value (carrying o) = outcome_text o

-- `PROVISIONAL_RUN_STATUS`
abbrev pub provisional_run_status : String
provisional_run_status = "pending"

-- `_VALID_OUTCOMES`
unfoldable pub is_valid_outcome : String → Bool
is_valid_outcome s = s == "running" || (s == "completed" || (s == "failed" || s == "cancelled"))

-- `normalized.add(value)`
unfoldable pub add_value : String → List String → List String
add_value s seen = if contains s seen then seen else s ∷ seen

-- The loop that fills `normalized`.
unfoldable pub normalize : List Item → List String → Result (List String)
normalize [] seen = ok seen
normalize (x ∷ xs) seen =
    let rest = normalize xs (add_value (coerce_outcome_value x) seen) in
    if is_valid_outcome (coerce_outcome_value x) then rest else raise value_error

-- The precedence on the set.
unfoldable pub precedence : List String → String
precedence seen =
    if contains "running" seen
    then "running"
    else if contains "completed" seen
    then "completed"
    else if contains "failed" seen
    then "failed"
    else "cancelled"

abbrev pub status_of : Result (List String) → Result String
unfolding precedence
status_of (ok seen) = ok (precedence seen)
status_of (raise e) = raise e

-- `resolve_afk_run_status`
unfoldable pub resolve_afk_run_status : List Item → Result String
unfolding normalize
resolve_afk_run_status [] = ok provisional_run_status
resolve_afk_run_status (x ∷ xs) = status_of (normalize (x ∷ xs) [])
