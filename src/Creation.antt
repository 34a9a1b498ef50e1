-- ===== src/Creation.antt =====
-- afk_outcomes/repository/executions.py: `create_or_replay_afk_execution_binding`.
pub mod Frame
pub mod Replay
use opencode_gateway.Prelude.{
  ℕ, zero, suc, ◌+◌, ◌-◌, ◌≤◌, ◌<◌, String, ◌≡◌, refl, sym, ap, subst, ◌∙◌, ◌≢◌, ◌↔◌, ◌⊎◌, inl, inr,
  Bool, true, false, ◌&&◌, ◌||◌, not, Option, none, some, List, [], ◌∷◌, ◌++◌, map, arith, Eq,
  nat_eq, string_eq, option_eq, list_eq, ◌==◌, ◌/=◌, ltb, leb, if◌then◌else◌, is_none, is_some,
  coalesce, Bool-cases, Option-cases, length, length-append, length-filter_none, filter-filter,
  nil_of_length, any-find, find-append, find-append_found, find-holds, length-filter-append,
  length-filter-ext, head?, is_empty, find?, filter, any, All, contains, dedupe_from, dedupe,
  DistinctFrom, dedupe_from-DistinctFrom, contains-append, contains-dedupe_from,
}
use opencode_gateway.Domain.{
  Provider, EntityType, ExecutionOutcome, TriggerType, Time, ChangeRequest, unbound, provider_eq,
  trigger_eq, change_request_eq, outcome_eq,
}
use opencode_gateway.Store.{
  Run, Binding, Link, Session, SessionsColumn, Db, find_run, has_job, find_binding,
}
use opencode_gateway.Result.{Result, ok, raise, value_error}
use opencode_gateway.Lifecycle.{apply_change_request_binding}
use opencode_gateway.Executions.{encode_session_ids, link_sessions}

-- The optional fields whose presence in the request counts on a replay.
pub data SuppliedField : Type 0 where
  has_title has_branch has_failure_reason has_failure_summary : SuppliedField
  has_source_event_id has_external_session_id : SuppliedField
  has_started_at has_finished_at has_afk_run_id : SuppliedField

unfoldable pub supplied_discrete : Discrete SuppliedField
supplied_discrete = hlevel

instance abbrev pub supplied_eq : Eq SuppliedField
supplied_eq = record { dec = supplied_discrete }

-- The arguments. `provider`, `repository` and `resource_number` are the resource identity.
pub record CreateRequest : Type 0 where
  pub awx_job_id : String
  pub job_template_id : ℕ
  pub provider : Option Provider
  pub repository : Option String
  pub resource_number : Option String
  pub external_session_id : Option String
  pub external_session_ids : Option (List String)
  pub outcome : ExecutionOutcome
  pub source_event_id : Option String
  pub branch : Option String
  pub title : Option String
  pub failure_reason : Option String
  pub failure_summary : Option String
  pub started_at : Option Time
  pub finished_at : Option Time
  pub trigger_type : Option TriggerType
  pub afk_run_id : Option String
  pub supplied_fields : Option (List SuppliedField)

-- `CreateAFKExecutionBindingResult`
pub record CreateResult : Type 0 where
  pub afk_run_id : Option String
  pub binding_id : Option ℕ
  pub is_conflict : Bool
  pub is_created : Bool
  pub run_missing : Bool

-- The normalized session attribution; the legacy singular form counts only without the list.
unfoldable pub session_ids : CreateRequest → List String
session_ids q = elim q.external_session_ids [
  | some ids ↦ dedupe ids
  | none ↦ elim q.external_session_id [ none ↦ [] | some s ↦ if s == "" then [] else s ∷ [] ]
]

abbrev pub primary_session : CreateRequest → Option String
primary_session q = head? (session_ids q)

abbrev present {ℓ} : {A : Type ℓ} → SuppliedField → Option A → List SuppliedField
present f none = []
present f (some _) = f ∷ []

-- Presence, inferred from the values where the caller tracks none.
unfoldable pub supplied : CreateRequest → List SuppliedField
supplied q = elim q.supplied_fields [
  | some fields ↦ fields
  | none ↦
      present has_title q.title
      ++ (present has_branch q.branch
          ++ (present has_failure_reason q.failure_reason
              ++ (present has_failure_summary q.failure_summary
                  ++ (present has_source_event_id q.source_event_id
                      ++ (present has_external_session_id q.external_session_id
                          ++ (present has_started_at q.started_at
                              ++ (present has_finished_at q.finished_at
                                  ++ present has_afk_run_id q.afk_run_id)))))))
]

-- `field in supplied and existing_value != new_value`
abbrev pub differs {ℓ} : {A : Type ℓ} ⦃e : Eq A⦄ → List SuppliedField → SuppliedField → A → A → Bool
differs fields f stored new = contains f fields && stored /= new

-- The comparison of a stored binding with a request that names its job.
unfoldable pub replay_matches : Binding → CreateRequest → Bool
replay_matches b q =
    let fields = supplied q in
    b.outcome == some q.outcome
    && (b.trigger_type == q.trigger_type
        && (not (
              differs fields has_title b.title q.title
              || (differs fields has_branch b.branch q.branch
                  || (differs fields has_failure_reason b.failure_reason q.failure_reason
                      || (differs fields has_failure_summary b.failure_summary q.failure_summary
                          || (differs fields has_source_event_id b.source_event_id q.source_event_id
                              || (differs fields has_external_session_id b.external_session_id
                                    (primary_session q)
                                  || (differs fields has_started_at b.started_at q.started_at
                                      || differs fields has_finished_at b.finished_at
                                          q.finished_at)))))))
            && (is_none q.afk_run_id || b.afk_run_id == q.afk_run_id)))

-- What other transactions commit: in the change-request binding, and before the INSERT.
pub record Interference : Type 0 where
  pub in_binding : Db → Db
  pub before_insert : Db → Db

-- The row of the INSERT.
unfoldable pub new_binding : CreateRequest → String → ℕ → ℕ → Binding
new_binding q run job i = record {
  id = i;
  awx_job_id = job;
  job_template_id = q.job_template_id;
  external_session_id = primary_session q;
  provider = q.provider;
  repository_url = q.repository;
  entity_type = elim q.resource_number [ none ↦ none | some _ ↦ some EntityType.change_request ];
  entity_number = q.resource_number;
  outcome = some q.outcome;
  source_event_id = q.source_event_id;
  branch = q.branch;
  title = q.title;
  failure_reason = q.failure_reason;
  failure_summary = q.failure_summary;
  started_at = q.started_at;
  finished_at = q.finished_at;
  afk_run_id = some run;
  trigger_type = q.trigger_type;
  external_session_ids = encode_session_ids (session_ids q);
}

abbrev pub answer : Option String → Option ℕ → Bool → Bool → Bool → CreateResult
answer run binding conflict created missing = record {
  afk_run_id = run;
  binding_id = binding;
  is_conflict = conflict;
  is_created = created;
  run_missing = missing;
}

-- `INSERT … ON CONFLICT (awx_job_id) DO NOTHING`, the session links, and the answer.
unfoldable pub insert_binding : CreateRequest → String → ℕ → Db → Db × CreateResult
insert_binding q run job db =
    if any (has_job job) db.bindings
    then elim (find_binding job db.bindings) [
      | some winner ↦ (db, answer winner.afk_run_id (some winner.id) false false false)
      | none ↦ (db, answer (some run) none false false false)
    ]
    else (
      record db {
        bindings = db.bindings ++ new_binding q run job db.next_id ∷ [];
        links = link_sessions run q.started_at q.finished_at db.sessions (session_ids q) db.links;
        next_id = db.next_id + 1;
      },
      answer (some run) (some db.next_id) false true false,
    )

-- `if provider is not None`: the lifecycle is made authoritative for the resource.
unfoldable pub bind_resource : (Db → Db) → CreateRequest → String → Run → Db → Db × Bool
bind_resource between q i run db = elim q.provider [
  | none ↦ (db, false)
  | some p ↦
      let c : ChangeRequest = record {
        provider = some p;
        repository = q.repository;
        external_id = q.resource_number;
      } in
      let (after, bind) = apply_change_request_binding between i c run.change_request db in
      (after, bind.is_conflict)
]

-- The transaction, once the job id is a number and the run is named.
unfoldable pub create_or_replay : Interference → CreateRequest → String → ℕ → Db → Db × CreateResult
create_or_replay world q run job db = elim (find_binding job db.bindings) [
  | some existing ↦ (
    db,
    answer existing.afk_run_id (some existing.id) (not (replay_matches existing q)) false false,
  )
  | none ↦ elim (find_run run db.runs) [
    | none ↦ (db, answer (some run) none false false true)
    | some r ↦
        let (after, conflict) = bind_resource world.in_binding q run r db in
        if conflict
        then (after, answer (some run) none true false false)
        else insert_binding q run job (world.before_insert after)
  ]
]

-- `create_or_replay_afk_execution_binding`. `parse_int` is Python's `int` on the job id, `none`
-- where it raises.
unfoldable pub create_or_replay_afk_execution_binding :
    (String → Option ℕ) → Interference → CreateRequest → Db → Result (Db × CreateResult)
create_or_replay_afk_execution_binding parse_int world q db = elim q.afk_run_id [
  | none ↦ raise value_error
  | some run ↦ elim (parse_int q.awx_job_id) [
    | none ↦ raise value_error
    | some job ↦ ok (create_or_replay world q run job db)
  ]
]
