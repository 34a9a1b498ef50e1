-- ===== src/Tests.antt =====
-- The properties at concrete inputs.
pub mod Data
mod Usage
mod Passes
mod Links
mod Issues
mod Kafka
mod Web
mod Runs
use opencode_gateway.Prelude.{
  ℕ, ◌≤◌, String, Option, none, some, List, [], ◌∷◌, true, false, not, ◌||◌, ◌==◌, ◌≡◌, refl,
  length, filter, is_some, find?, any, contains, dedupe_from, string_discrete, option_discrete,
  list_discrete, ℕ_discrete, ◌↔◌,
}
use opencode_gateway.Domain.{
  Provider, ExecutionOutcome, TriggerType, ChangeRequest, provider_discrete, entity_discrete,
  outcome_discrete, trigger_discrete, change_request_discrete, outcome_eq,
}
use opencode_gateway.Store.{Binding, Db, empty, has_job, find_run, find_binding, same_identity}
use opencode_gateway.Result.{Result, ok, raise}
use opencode_gateway.Lifecycle.{
  is_claimable, set_change_request, owns, claim_change_request, apply_change_request_binding,
  bind_change_request, owner_of, get_afk_run_by_change_request,
}
use opencode_gateway.Lifecycle.Lookup.{bind-conflict, lookup-owns}
use opencode_gateway.Provisioning.{
  Provision, ProvisionResult, provision_afk_run, insert_run, has_key, requested_deliveries,
  insert_delivery_batch_rows, predecessor_missing, replay, provisioning_payload_matches,
  batch_provenance_matches, stored_deliveries,
}
use opencode_gateway.Provisioning.Keys.{IsKeyed}
use opencode_gateway.Provisioning.Replay.{provision_replay}
use opencode_gateway.Executions.{
  encode_session_ids, decode_session_ids, link_sessions, upsert_session_link,
  resolve_internal_session_id, single,
}
use opencode_gateway.Creation.{
  create_or_replay, answer, bind_resource, insert_binding, new_binding, session_ids, replay_matches,
  supplied, supplied_discrete,
}
use opencode_gateway.Creation.Replay.{created_row, create_again}
use opencode_gateway.Terminal.{
  update_terminal, update_found, stored_terminal, identical, rejected, session_conflict,
  resource_conflict, failure_reason_conflict, failure_summary_conflict, merged,
  supplied_session_ids, stored_has_resource, new_session_ids, is_complete, authorise, transition,
  link_session_ids, write_binding, outcome_of,
}
use opencode_gateway.Terminal.Transition.{update_moves, update_again}
use opencode_gateway.Terminal.Kept.{overwrites_nothing}
use opencode_gateway.Checkpoints.{create_checkpoint, is_checkpoint}
use opencode_gateway.Checkpoints.Laws.{checkpoint_replay}
use opencode_gateway.History.{Reach}
use opencode_gateway.History.Keys.{runs_stay_unique, jobs_stay_unique}
use opencode_gateway.History.Ownership.{ownership_stays}
use opencode_gateway.History.Terminal.{terminal_row_stays}
use opencode_gateway.History.Authority.{authorised}
use opencode_gateway.History.Authority.Invariant.{bindings_stay_authorised}
use opencode_gateway.Tests.Data.{
  idle, undisturbed, provision_one, tables_of, answer_of, provisioned_db, change, create_one,
  running_db, update_one, finished_db, finished_row, create_two, retried_db, quiet,
  provisioned_history, running_history, finished_history, retried_history, update_history,
}

terminal_row_stays_example : find_binding 7 retried_db.bindings ≡ some finished_row
unfolding provision_afk_run insert_run find? any filter contains dedupe_from string_discrete
    option_discrete provider_discrete entity_discrete outcome_discrete trigger_discrete
    change_request_discrete ℕ_discrete find_run has_key requested_deliveries
    insert_delivery_batch_rows predecessor_missing create_or_replay find_binding bind_resource
    apply_change_request_binding claim_change_request is_claimable set_change_request insert_binding
    new_binding session_ids encode_session_ids link_sessions upsert_session_link
    resolve_internal_session_id single update_terminal update_found stored_terminal rejected
    session_conflict resource_conflict failure_reason_conflict failure_summary_conflict merged
    supplied_session_ids stored_has_resource new_session_ids decode_session_ids is_complete
    authorise transition link_session_ids write_binding owns same_identity replay_matches supplied
    supplied_discrete replay provisioning_payload_matches batch_provenance_matches stored_deliveries
    list_discrete
terminal_row_stays_example = terminal_row_stays 7 finished_row refl retried_history refl

bindings_stay_authorised_example : authorised finished_db.runs finished_row ≡ true
unfolding provision_afk_run insert_run find? any filter contains dedupe_from string_discrete
    option_discrete provider_discrete entity_discrete outcome_discrete trigger_discrete
    change_request_discrete ℕ_discrete find_run has_key requested_deliveries
    insert_delivery_batch_rows predecessor_missing create_or_replay find_binding bind_resource
    apply_change_request_binding claim_change_request is_claimable set_change_request insert_binding
    new_binding session_ids encode_session_ids link_sessions upsert_session_link
    resolve_internal_session_id single update_terminal update_found stored_terminal rejected
    session_conflict resource_conflict failure_reason_conflict failure_summary_conflict merged
    supplied_session_ids stored_has_resource new_session_ids decode_session_ids is_complete
    authorise transition link_session_ids write_binding owns same_identity replay_matches supplied
    supplied_discrete replay provisioning_payload_matches batch_provenance_matches stored_deliveries
    list_discrete
bindings_stay_authorised_example = bindings_stay_authorised finished_history 7 finished_row refl

ownership_stays_example : owns "RUN1" change finished_db ≡ true
unfolding provision_afk_run insert_run find? any filter contains dedupe_from string_discrete
    option_discrete provider_discrete entity_discrete outcome_discrete trigger_discrete
    change_request_discrete ℕ_discrete find_run has_key requested_deliveries
    insert_delivery_batch_rows predecessor_missing create_or_replay find_binding bind_resource
    apply_change_request_binding claim_change_request is_claimable set_change_request insert_binding
    new_binding session_ids encode_session_ids link_sessions upsert_session_link
    resolve_internal_session_id single update_terminal update_found stored_terminal rejected
    session_conflict resource_conflict failure_reason_conflict failure_summary_conflict merged
    supplied_session_ids stored_has_resource new_session_ids decode_session_ids is_complete
    authorise transition link_session_ids write_binding owns same_identity replay_matches supplied
    supplied_discrete replay provisioning_payload_matches batch_provenance_matches stored_deliveries
    list_discrete
ownership_stays_example = ownership_stays "RUN1" change refl refl update_history

runs_stay_unique_example : IsKeyed finished_db.runs
runs_stay_unique_example = runs_stay_unique finished_history

jobs_stay_unique_example : length (filter (has_job 7) finished_db.bindings) ≤ 1
jobs_stay_unique_example = jobs_stay_unique finished_history 7

conflicting_update_test :
    (update_terminal idle (record update_one { finished_at = some 21 }) 7 finished_db).1.is_conflict
    ≡ true
unfolding provision_afk_run insert_run find? any filter contains dedupe_from string_discrete
    option_discrete provider_discrete entity_discrete outcome_discrete trigger_discrete
    change_request_discrete ℕ_discrete find_run has_key requested_deliveries
    insert_delivery_batch_rows predecessor_missing create_or_replay find_binding bind_resource
    apply_change_request_binding claim_change_request is_claimable set_change_request insert_binding
    new_binding session_ids encode_session_ids link_sessions upsert_session_link
    resolve_internal_session_id single update_terminal update_found stored_terminal rejected
    session_conflict resource_conflict failure_reason_conflict failure_summary_conflict merged
    supplied_session_ids stored_has_resource new_session_ids decode_session_ids is_complete
    authorise transition link_session_ids write_binding owns same_identity replay_matches supplied
    supplied_discrete replay provisioning_payload_matches batch_provenance_matches stored_deliveries
    list_discrete identical
conflicting_update_test = refl

update_moves_example :
    (b : Binding) × (find_binding 7 running_db.bindings ≡ some b)
    × (stored_terminal b ≡ false)
    × (find_binding 7 finished_db.bindings ≡ some (merged update_one b))
    × (overwrites_nothing b (merged update_one b) ≡ true)
    × ((not (update_one.outcome == ExecutionOutcome.completed) || is_complete (merged update_one b))
        ≡ true)
unfolding provision_afk_run insert_run find? any filter contains dedupe_from string_discrete
    option_discrete provider_discrete entity_discrete outcome_discrete trigger_discrete
    change_request_discrete ℕ_discrete find_run has_key requested_deliveries
    insert_delivery_batch_rows predecessor_missing create_or_replay find_binding bind_resource
    apply_change_request_binding claim_change_request is_claimable set_change_request insert_binding
    new_binding session_ids encode_session_ids link_sessions upsert_session_link
    resolve_internal_session_id single update_terminal update_found stored_terminal rejected
    session_conflict resource_conflict failure_reason_conflict failure_summary_conflict merged
    supplied_session_ids stored_has_resource new_session_ids decode_session_ids is_complete
    authorise transition link_session_ids write_binding owns same_identity replay_matches supplied
    supplied_discrete replay provisioning_payload_matches batch_provenance_matches stored_deliveries
    list_discrete
update_moves_example = update_moves idle update_one 7 running_db (λ e. refl) refl

update_again_example :
    (i : ℕ) × (update_terminal idle update_one 7 finished_db
      ≡ (finished_db, outcome_of (some i) false false false))
unfolding provision_afk_run insert_run find? any filter contains dedupe_from string_discrete
    option_discrete provider_discrete entity_discrete outcome_discrete trigger_discrete
    change_request_discrete ℕ_discrete find_run has_key requested_deliveries
    insert_delivery_batch_rows predecessor_missing create_or_replay find_binding bind_resource
    apply_change_request_binding claim_change_request is_claimable set_change_request insert_binding
    new_binding session_ids encode_session_ids link_sessions upsert_session_link
    resolve_internal_session_id single update_terminal update_found stored_terminal rejected
    session_conflict resource_conflict failure_reason_conflict failure_summary_conflict merged
    supplied_session_ids stored_has_resource new_session_ids decode_session_ids is_complete
    authorise transition link_session_ids write_binding owns same_identity replay_matches supplied
    supplied_discrete replay provisioning_payload_matches batch_provenance_matches stored_deliveries
    list_discrete
update_again_example = update_again idle idle update_one 7 running_db refl (λ e. refl) refl

create_again_example :
    create_or_replay undisturbed create_one "RUN1" 7 running_db
    ≡ (running_db, answer (some "RUN1") (some 1) false false false)
unfolding provision_afk_run insert_run find? any filter contains dedupe_from string_discrete
    option_discrete provider_discrete entity_discrete outcome_discrete trigger_discrete
    change_request_discrete ℕ_discrete find_run has_key requested_deliveries
    insert_delivery_batch_rows predecessor_missing create_or_replay find_binding bind_resource
    apply_change_request_binding claim_change_request is_claimable set_change_request insert_binding
    new_binding session_ids encode_session_ids link_sessions upsert_session_link
    resolve_internal_session_id single update_terminal update_found stored_terminal rejected
    session_conflict resource_conflict failure_reason_conflict failure_summary_conflict merged
    supplied_session_ids stored_has_resource new_session_ids decode_session_ids is_complete
    authorise transition link_session_ids write_binding owns same_identity replay_matches supplied
    supplied_discrete replay provisioning_payload_matches batch_provenance_matches stored_deliveries
    list_discrete
create_again_example =
    create_again undisturbed undisturbed create_one "RUN1" 7 provisioned_db refl refl

bind-conflict_example :
    (bind_change_request idle "RUN1" change provisioned_db).1.is_conflict
    ≡ not (owns "RUN1" change (bind_change_request idle "RUN1" change provisioned_db).0)
unfolding provision_afk_run insert_run find? any filter contains dedupe_from string_discrete
    option_discrete provider_discrete entity_discrete outcome_discrete trigger_discrete
    change_request_discrete ℕ_discrete find_run has_key requested_deliveries
    insert_delivery_batch_rows predecessor_missing create_or_replay find_binding bind_resource
    apply_change_request_binding claim_change_request is_claimable set_change_request insert_binding
    new_binding session_ids encode_session_ids link_sessions upsert_session_link
    resolve_internal_session_id single update_terminal update_found stored_terminal rejected
    session_conflict resource_conflict failure_reason_conflict failure_summary_conflict merged
    supplied_session_ids stored_has_resource new_session_ids decode_session_ids is_complete
    authorise transition link_session_ids write_binding owns same_identity replay_matches supplied
    supplied_discrete replay provisioning_payload_matches batch_provenance_matches stored_deliveries
    list_discrete
bind-conflict_example =
    bind-conflict idle "RUN1" change provisioned_db (runs_stay_unique provisioned_history).id
      (runs_stay_unique provisioned_history).id refl refl

lookup-owns_example :
    ((get_afk_run_by_change_request change running_db).is_conflict ≡ false)
    × (((get_afk_run_by_change_request change running_db).afk_run_id ≡ some "RUN1")
        ↔ (owns "RUN1" change running_db ≡ true))
unfolding provision_afk_run insert_run find? any filter contains dedupe_from string_discrete
    option_discrete provider_discrete entity_discrete outcome_discrete trigger_discrete
    change_request_discrete ℕ_discrete find_run has_key requested_deliveries
    insert_delivery_batch_rows predecessor_missing create_or_replay find_binding bind_resource
    apply_change_request_binding claim_change_request is_claimable set_change_request insert_binding
    new_binding session_ids encode_session_ids link_sessions upsert_session_link
    resolve_internal_session_id single update_terminal update_found stored_terminal rejected
    session_conflict resource_conflict failure_reason_conflict failure_summary_conflict merged
    supplied_session_ids stored_has_resource new_session_ids decode_session_ids is_complete
    authorise transition link_session_ids write_binding owns same_identity replay_matches supplied
    supplied_discrete replay provisioning_payload_matches batch_provenance_matches stored_deliveries
    list_discrete
lookup-owns_example =
    lookup-owns change "RUN1" running_db (runs_stay_unique running_history).id
      (runs_stay_unique running_history).owner refl

provision_replay_example :
    provision_afk_run idle (record provision_one { new_ulid = "RUN2" }) provisioned_db
    ≡ ok (
      provisioned_db,
      record {
        afk_run_id = "RUN1";
        is_created = false;
        is_conflict = false;
        predecessor_missing = false;
      },
    )
unfolding provision_afk_run insert_run find? any filter contains dedupe_from string_discrete
    option_discrete provider_discrete entity_discrete outcome_discrete trigger_discrete
    change_request_discrete ℕ_discrete find_run has_key requested_deliveries
    insert_delivery_batch_rows predecessor_missing create_or_replay find_binding bind_resource
    apply_change_request_binding claim_change_request is_claimable set_change_request insert_binding
    new_binding session_ids encode_session_ids link_sessions upsert_session_link
    resolve_internal_session_id single update_terminal update_found stored_terminal rejected
    session_conflict resource_conflict failure_reason_conflict failure_summary_conflict merged
    supplied_session_ids stored_has_resource new_session_ids decode_session_ids is_complete
    authorise transition link_session_ids write_binding owns same_identity replay_matches supplied
    supplied_discrete replay provisioning_payload_matches batch_provenance_matches stored_deliveries
    list_discrete
provision_replay_example =
    provision_replay idle idle provision_one "RUN2" empty provisioned_db
      (answer_of (provision_afk_run idle provision_one empty)) refl refl refl
