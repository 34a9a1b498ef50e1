-- ===== src/Tests/Data.antt =====
-- The concrete tables that the examples run on: one lifecycle, provisioned, executed and finished.
use opencode_gateway.Prelude.{
  none, some, [], ◌∷◌, true, ◌≡◌, refl, filter, find?, any, contains, dedupe_from, string_discrete,
  option_discrete, list_discrete, ℕ_discrete,
}
use opencode_gateway.Domain.{
  Provider, ExecutionOutcome, TriggerType, ChangeRequest, provider_discrete, entity_discrete,
  outcome_discrete, trigger_discrete, change_request_discrete, outcome_eq,
}
use opencode_gateway.Lifecycle.{
  is_claimable, set_change_request, owns, claim_change_request, apply_change_request_binding,
}
use opencode_gateway.Provisioning.{
  Provision, ProvisionResult, provision_afk_run, insert_run, has_key, requested_deliveries,
  insert_delivery_batch_rows, predecessor_missing, replay, provisioning_payload_matches,
  batch_provenance_matches, stored_deliveries,
}
use opencode_gateway.Executions.{
  encode_session_ids, decode_session_ids, link_sessions, upsert_session_link,
  resolve_internal_session_id, single,
}
use opencode_gateway.Creation.{
  create_or_replay, bind_resource, insert_binding, new_binding, session_ids, replay_matches,
  supplied, supplied_discrete,
}
use opencode_gateway.Terminal.{
  update_terminal, update_found, stored_terminal, rejected, session_conflict, resource_conflict,
  failure_reason_conflict, failure_summary_conflict, merged, supplied_session_ids,
  stored_has_resource, new_session_ids, is_complete, authorise, transition, link_session_ids,
  write_binding,
}
use opencode_gateway.Store.{Binding, Db, empty, find_run, find_binding, same_identity}
use opencode_gateway.Result.{Result, ok, raise}
use opencode_gateway.Creation.{CreateRequest, Interference}
use opencode_gateway.Terminal.{UpdateRequest}
use opencode_gateway.History.{Reach}

-- Nothing commits in between.
abbrev pub idle : Db → Db
idle db = db

abbrev pub undisturbed : Interference
undisturbed = record { in_binding = idle; before_insert = idle }

abbrev pub provision_one : Provision
provision_one = record {
  provider = Provider.github;
  host = "github.com";
  source_event_id = "evt-1";
  repository = "o/r";
  trigger_type = TriggerType.eda;
  title = some "First";
  recovered_from = none;
  deliveries = some ("d1" ∷ "d2" ∷ "d1" ∷ []);
  new_ulid = "RUN1";
}

abbrev pub tables_of : Result (Db × ProvisionResult) → Db
tables_of (ok (db, r)) = db
tables_of (raise e) = empty

abbrev pub answer_of : Result (Db × ProvisionResult) → ProvisionResult
answer_of (ok (db, r)) = r
answer_of (raise e) = record {
  afk_run_id = "";
  is_created = true;
  is_conflict = true;
  predecessor_missing = true;
}

abbrev pub provisioned_db : Db
provisioned_db = tables_of (provision_afk_run idle provision_one empty)

abbrev pub change : ChangeRequest
change = record { provider = some Provider.github; repository = some "o/r"; external_id = some "5" }

abbrev pub create_one : CreateRequest
create_one = record {
  awx_job_id = "7";
  job_template_id = 3;
  provider = some Provider.github;
  repository = some "o/r";
  resource_number = some "5";
  external_session_id = some "ses-1";
  external_session_ids = none;
  outcome = ExecutionOutcome.running;
  source_event_id = none;
  branch = some "main";
  title = none;
  failure_reason = none;
  failure_summary = none;
  started_at = some 10;
  finished_at = none;
  trigger_type = some TriggerType.eda;
  afk_run_id = some "RUN1";
  supplied_fields = none;
}

abbrev pub running_db : Db
running_db = (create_or_replay undisturbed create_one "RUN1" 7 provisioned_db).0

abbrev pub update_one : UpdateRequest
update_one = record {
  awx_job_id = "7";
  outcome = ExecutionOutcome.completed;
  finished_at = some 20;
  failure_reason = none;
  failure_reason_provided = none;
  failure_summary = none;
  failure_summary_provided = none;
  external_session_id = none;
  external_session_ids = some ("ses-1" ∷ "ses-2" ∷ []);
  provider = none;
  repository = none;
  resource_number = none;
}

abbrev pub finished_db : Db
finished_db = (update_terminal idle update_one 7 running_db).0

abbrev pub finished_row : Binding
finished_row = merged update_one (new_binding create_one "RUN1" 7 1)

pub quiet : (e : Db) → Reach e e
quiet e = Reach.start refl

pub update_history : Reach running_db finished_db
update_history = Reach.update (Reach.start refl) idle quiet update_one refl 7 (λ e. refl) refl

-- A second execution of the same lifecycle.
abbrev pub create_two : CreateRequest
create_two = record create_one { awx_job_id = "8" }

abbrev pub retried_db : Db
retried_db = (create_or_replay undisturbed create_two "RUN1" 8 finished_db).0

pub provisioned_history : Reach empty provisioned_db
unfolding provision_afk_run insert_run find? any has_key predecessor_missing
provisioned_history =
    Reach.provision (Reach.start refl) idle quiet provision_one
      (answer_of (provision_afk_run idle provision_one empty)) refl

pub running_history : Reach empty running_db
running_history = Reach.create provisioned_history undisturbed quiet quiet create_one "RUN1" 7 refl

pub finished_history : Reach empty finished_db
finished_history = Reach.update running_history idle quiet update_one refl 7 (λ e. refl) refl

pub retried_history : Reach finished_db retried_db
retried_history = Reach.create (Reach.start refl) undisturbed quiet quiet create_two "RUN1" 8 refl

-- The chosen run is a real one: it is created, bound, and moved.
pub finished_is_stored : find_binding 7 finished_db.bindings ≡ some finished_row
unfolding provision_afk_run insert_run find? any filter contains dedupe_from string_discrete
    option_discrete provider_discrete entity_discrete outcome_discrete trigger_discrete
    change_request_discrete ℕ_discrete find_run has_key requested_deliveries
    insert_delivery_batch_rows predecessor_missing create_or_replay find_binding bind_resource
    apply_change_request_binding claim_change_request is_claimable set_change_request insert_binding
    new_binding session_ids encode_session_ids link_sessions upsert_session_link
    resolve_internal_session_id single update_terminal update_found stored_terminal rejected
    session_conflict resource_conflict failure_reason_conflict failure_summary_conflict merged
    supplied_session_ids stored_has_resource new_session_ids decode_session_ids is_complete
    authorise transition link_session_ids write_binding owns same_identity replay_matches supplied
    supplied_discrete replay provisioning_payload_matches batch_provenance_matches stored_deliveries
    list_discrete
finished_is_stored = refl
