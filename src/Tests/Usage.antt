-- ===== src/Tests/Usage.antt =====
-- The replay merge and the run status at concrete inputs.
use opencode_gateway.Prelude.{
  false, any, String, none, some, List, [], ◌∷◌, ◌≡◌, ◌⊎◌, refl, filter, find?, string_discrete,
  ℕ_discrete, contains, string_eq, map, arith, option_discrete,
}
use opencode_gateway.Prelude.Int.{ℤ, pos, ◌+ℤ◌}
use opencode_gateway.Domain.{ExecutionOutcome, outcome_value}
use opencode_gateway.Result.{ok}
use opencode_gateway.RunStatus.{Item, Outcome, coerce_outcome_value, resolve_afk_run_status}
use opencode_gateway.RunStatus.Precedence.{same_set_same_status, status_is_prevailing, carried}
use opencode_gateway.MergePolicy.{Field, IngestOutcome, Values, effective, is_rollup_field}
use opencode_gateway.ReplayMerge.{
  SessionTotals, UsageEvent, Bucket, Usage, find_event, bucket_of, rollup_day, bucket_discrete,
  apply_replay_merge,
}
use opencode_gateway.ReplayMerge.Replay.{replay_again, merged_values}
use opencode_gateway.ReplayMerge.Totals.{is_negative, totals_stay_nonnegative}
use opencode_gateway.ReplayMerge.Rollups.{bucket_sum, rollup_amount, merge_keeps_rollup}

abbrev stored_values : Values
stored_values Field.input_tokens = some (pos 100)
stored_values _ = none

abbrev replayed_values : Values
replayed_values Field.input_tokens = some (pos 80)
replayed_values Field.output_tokens = some (pos 7)
replayed_values _ = none

abbrev event : UsageEvent
event = record {
  id = "ev";
  values = stored_values;
  session_id = some "s";
  client_id = "c";
  project_id = some "p";
  reported_at = 86400000001;
}

abbrev bucket : Bucket
bucket = record { client_id = "c"; project_id = "p"; day = 1 }

abbrev input_only : Field → ℤ
input_only Field.input_tokens = pos 100
input_only _ = pos 0

abbrev usage : Usage
usage = record {
  events = event ∷ [];
  sessions = record { id = "s"; totals = stored_values } ∷ [];
  rollups = record { bucket = bucket; amounts = input_only } ∷ [];
}

replay_again_example :
    apply_replay_merge "ev" replayed_values (apply_replay_merge "ev" replayed_values usage).0
    ≡ ((apply_replay_merge "ev" replayed_values usage).0, IngestOutcome.duplicate)
unfolding find_event find? string_discrete
replay_again_example = replay_again "ev" replayed_values usage

merged_values_example :
    (stored : Values) × (find_event "ev" (apply_replay_merge "ev" replayed_values usage).0.events
      ≡ some (record event { values = stored }))
    × ((f : Field)
        → (stored f ≡ effective (stored_values f) (replayed_values f))
          ⊎ ((stored_values f ≡ none) × (replayed_values f ≡ some (pos 0)) × (stored f ≡ none)))
unfolding find_event find? string_discrete
merged_values_example = merged_values "ev" replayed_values usage event refl

merge_keeps_rollup_example :
    rollup_amount Field.input_tokens bucket
      (apply_replay_merge "ev" replayed_values usage).0.rollups
    ≡ bucket_sum Field.input_tokens bucket (apply_replay_merge "ev" replayed_values usage).0.events
unfolding filter is_rollup_field rollup_amount bucket_sum bucket_of rollup_day bucket_discrete
    string_discrete ℕ_discrete option_discrete ◌+ℤ◌
merge_keeps_rollup_example =
    merge_keeps_rollup Field.input_tokens bucket "ev" replayed_values usage refl (omega arith) refl

abbrev outcomes : List ExecutionOutcome
outcomes = ExecutionOutcome.failed ∷ ExecutionOutcome.completed ∷ []

status_is_prevailing_example :
    resolve_afk_run_status (carried (ExecutionOutcome.cancelled ∷ outcomes))
    ≡ ok (outcome_value ExecutionOutcome.completed)
status_is_prevailing_example = status_is_prevailing ExecutionOutcome.cancelled outcomes

abbrev mixed : List Item
mixed =
    Item.plain (Outcome.text "failed") ∷ Item.carrying (Outcome.member ExecutionOutcome.failed) ∷ []

abbrev single_item : List Item
single_item = Item.plain (Outcome.member ExecutionOutcome.failed) ∷ []

same_members :
    (s : String)
    → contains s (map coerce_outcome_value mixed)
      ≡ contains s (map coerce_outcome_value single_item)
unfolding contains coerce_outcome_value outcome_value
same_members s = ground arith

same_set_same_status_example : resolve_afk_run_status mixed ≡ resolve_afk_run_status single_item
same_set_same_status_example = same_set_same_status mixed single_item same_members

totals_stay_nonnegative_example :
    any
      (λ (s : SessionTotals). is_negative (s.totals Field.input_tokens))
      (apply_replay_merge "ev" replayed_values usage).0.sessions
    ≡ false
unfolding any is_negative
totals_stay_nonnegative_example =
    totals_stay_nonnegative "ev" replayed_values Field.input_tokens usage refl
