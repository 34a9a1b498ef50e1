-- ===== src/Terminal.antt =====
-- afk_outcomes/repository/executions.py: `update_execution_binding_terminal`.
pub mod Frame
pub mod Transition
pub mod Kept
use opencode_gateway.Prelude.{
  ℕ, zero, suc, ◌+◌, ◌-◌, ◌≤◌, ◌<◌, String, ◌≡◌, refl, sym, ap, subst, ◌∙◌, ◌≢◌, ◌↔◌, ◌⊎◌, inl, inr,
  Bool, true, false, ◌&&◌, ◌||◌, not, Option, none, some, List, [], ◌∷◌, ◌++◌, map, arith, Eq,
  nat_eq, string_eq, option_eq, list_eq, ◌==◌, ◌/=◌, ltb, leb, if◌then◌else◌, is_none, is_some,
  coalesce, Bool-cases, Option-cases, length, length-append, length-filter_none, filter-filter,
  nil_of_length, any-find, find-append, find-append_found, find-holds, length-filter-append,
  length-filter-ext, head?, is_empty, find?, filter, any, All, contains, dedupe_from, dedupe,
  DistinctFrom, dedupe_from-DistinctFrom, contains-append, contains-dedupe_from,
}
use opencode_gateway.Domain.{
  Provider, EntityType, ExecutionOutcome, TriggerType, Time, ChangeRequest, unbound, is_terminal,
  provider_eq, entity_eq, trigger_eq, change_request_eq, outcome_eq,
}
use opencode_gateway.Store.{
  Run, Binding, Link, Session, SessionsColumn, Db, find_run, has_job, find_binding,
}
use opencode_gateway.Result.{Result, ok, raise, value_error}
use opencode_gateway.Lifecycle.{apply_change_request_binding}
use opencode_gateway.Executions.{decode_session_ids, encode_session_ids, link_sessions}

-- The arguments of the terminal update.
pub record UpdateRequest : Type 0 where
  pub awx_job_id : String
  pub outcome : ExecutionOutcome
  pub finished_at : Option Time
  pub failure_reason : Option String
  pub failure_reason_provided : Option Bool
  pub failure_summary : Option String
  pub failure_summary_provided : Option Bool
  pub external_session_id : Option String
  pub external_session_ids : Option (List String)
  pub provider : Option Provider
  pub repository : Option String
  pub resource_number : Option String

-- `UpdateExecutionBindingResult`
pub record UpdateResult : Type 0 where
  pub binding_id : Option ℕ
  pub is_updated : Bool
  pub is_conflict : Bool
  pub not_found : Bool

-- A flag that the caller leaves out is inferred from the value.
abbrev pub provided : Option Bool → Option String → Bool
provided none value = is_some value
provided (some b) value = b

-- `supplied_session_ids`; `none` means that no attribution was supplied.
unfoldable pub supplied_session_ids : UpdateRequest → Option (List String)
supplied_session_ids q = elim q.external_session_ids [
  | some ids ↦ some (dedupe ids)
  | none ↦ elim q.external_session_id [ none ↦ none | some s ↦ some (s ∷ []) ]
]

abbrev pub or_empty : Option (List String) → List String
or_empty none = []
or_empty (some ss) = ss

abbrev pub fill_session : UpdateRequest → Option String
fill_session q = head? (or_empty (supplied_session_ids q))

unfoldable pub stored_has_resource : Binding → Bool
stored_has_resource b =
    is_some b.provider
    && (is_some b.repository_url && (is_some b.entity_type && is_some b.entity_number))

abbrev pub requested_has_resource : UpdateRequest → Bool
requested_has_resource q = is_some q.provider && (is_some q.repository && is_some q.resource_number)

-- A supplied fill-in that contradicts a stored value: both are there, and differ.
abbrev pub contradicts : Option String → Option String → Bool
contradicts new stored = is_some new && (is_some stored && stored /= new)

unfoldable pub session_conflict : UpdateRequest → Binding → Bool
session_conflict q b = contradicts (fill_session q) b.external_session_id

unfoldable pub failure_summary_conflict : UpdateRequest → Binding → Bool
failure_summary_conflict q b =
    provided q.failure_summary_provided q.failure_summary
    && contradicts q.failure_summary b.failure_summary

unfoldable pub failure_reason_conflict : UpdateRequest → Binding → Bool
failure_reason_conflict q b =
    provided q.failure_reason_provided q.failure_reason
    && contradicts q.failure_reason b.failure_reason

unfoldable pub resource_conflict : UpdateRequest → Binding → Bool
unfolding stored_has_resource
resource_conflict q b =
    requested_has_resource q
    && (stored_has_resource b
        && not (
            b.provider == q.provider
            && (b.repository_url == q.repository
                && (b.entity_type == some EntityType.change_request
                    && b.entity_number == q.resource_number))))

-- The outcome of the row is one of the three terminal values (a legacy NULL is not).
unfoldable pub stored_terminal : Binding → Bool
stored_terminal b = elim b.outcome [ none ↦ false | some o ↦ is_terminal o ]

-- An identical payload for a terminal row.
unfoldable pub identical : UpdateRequest → Binding → Bool
identical q b =
    b.outcome == some q.outcome
    && (b.finished_at == q.finished_at
        && ((not (provided q.failure_reason_provided q.failure_reason)
              || b.failure_reason == q.failure_reason)
            && (not (session_conflict q b)
                && (not (resource_conflict q b) && not (failure_summary_conflict q b)))))

-- The stored collection, with the supplied one merged in.
unfoldable pub new_session_ids : UpdateRequest → Binding → List String
new_session_ids q b =
    let stored = decode_session_ids b.external_session_ids in
    let new = or_empty (supplied_session_ids q) in
    if is_empty new then stored else dedupe (stored ++ new)

-- The row that the UPDATE writes.
unfoldable pub merged : UpdateRequest → Binding → Binding
merged q b =
    let has = requested_has_resource q in
    record b {
      outcome = some q.outcome;
      finished_at = q.finished_at;
      failure_reason =
          if provided q.failure_reason_provided q.failure_reason
          then q.failure_reason
          else b.failure_reason;
      failure_summary =
          if provided q.failure_summary_provided q.failure_summary
          then q.failure_summary
          else b.failure_summary;
      external_session_id = coalesce (fill_session q) b.external_session_id;
      provider = if has then q.provider else b.provider;
      repository_url = if has then q.repository else b.repository_url;
      entity_type = if has then some EntityType.change_request else b.entity_type;
      entity_number = if has then q.resource_number else b.entity_number;
      external_session_ids = encode_session_ids (new_session_ids q b);
    }

-- A completed execution has a resource and a session, and no failure metadata.
unfoldable pub is_complete : Binding → Bool
unfolding stored_has_resource
is_complete b =
    stored_has_resource b
    && (is_some b.external_session_id && (is_none b.failure_reason && is_none b.failure_summary))

-- The tests that reject the transition of a row that is not terminal, before the lifecycle.
unfoldable pub rejected : UpdateRequest → Binding → Bool
rejected q b =
    (session_conflict q b
      || (resource_conflict q b || (failure_reason_conflict q b || failure_summary_conflict q b)))
    || (q.outcome == ExecutionOutcome.completed && not (is_complete (merged q b)))

-- `UPDATE execution_bindings SET … WHERE awx_job_id = $1`
unfoldable pub write_binding : ℕ → (Binding → Binding) → List Binding → List Binding
write_binding job f [] = []
write_binding job f (b ∷ bs) = (if has_job job b then f b else b) ∷ write_binding job f bs

-- The sessions that get a link: the supplied ones, or else the stored primary session.
unfoldable pub link_session_ids : UpdateRequest → Binding → List String
link_session_ids q b =
    let new = or_empty (supplied_session_ids q) in
    if is_empty new then (elim b.external_session_id [ none ↦ [] | some s ↦ s ∷ [] ]) else new

abbrev pub outcome_of : Option ℕ → Bool → Bool → Bool → UpdateResult
outcome_of i updated conflict missing = record {
  binding_id = i;
  is_updated = updated;
  is_conflict = conflict;
  not_found = missing;
}

-- The UPDATE and the session links. UNIQUE (awx_job_id) makes the written row the row `b` that
-- was read and locked.
unfoldable pub transition : UpdateRequest → ℕ → Binding → Db → Db
transition q job b db = record db {
  bindings = write_binding job (merged q) db.bindings;
  links = elim b.afk_run_id [
    | none ↦ db.links
    | some run ↦ link_sessions run none q.finished_at db.sessions (link_session_ids q b) db.links
  ];
}

-- The lifecycle authority: a row with an owning lifecycle and a provider binds the change request
-- of its merged state. The second component tells a conflict.
unfoldable pub authorise : (Db → Db) → UpdateRequest → Binding → Db → Db × Bool
authorise between q b db =
    let m = merged q b in
    elim b.afk_run_id [
      | none ↦ (db, false)
      | some run ↦ elim m.provider [
        | none ↦ (db, false)
        | some p ↦ elim (find_run run db.runs) [
          | none ↦ (db, true)
          | some r ↦
              let c : ChangeRequest = record {
                provider = some p;
                repository = m.repository_url;
                external_id = m.entity_number;
              } in
              let (after, bind) = apply_change_request_binding between run c r.change_request db in
              (after, bind.is_conflict)
        ]
      ]
    ]

-- The row that was found: a terminal one is only compared, another one is moved if nothing
-- contradicts it.
unfoldable pub update_found : (Db → Db) → UpdateRequest → ℕ → Binding → Db → Db × UpdateResult
update_found between q job b db =
    if stored_terminal b
    then (db, outcome_of (some b.id) false (not (identical q b)) false)
    else if rejected q b
    then (db, outcome_of (some b.id) false true false)
    else let (after, conflict) = authorise between q b db in
      if conflict
      then (after, outcome_of (some b.id) false true false)
      else (transition q job b after, outcome_of (some b.id) true false false)

-- The transaction, once the outcome is terminal and the job id is a number.
unfoldable pub update_terminal : (Db → Db) → UpdateRequest → ℕ → Db → Db × UpdateResult
update_terminal between q job db = elim (find_binding job db.bindings) [
  | none ↦ (db, outcome_of none false false true)
  | some b ↦ update_found between q job b db
]

-- `update_execution_binding_terminal`. `parse_int` is Python's `int` on the job id, `none` where
-- it raises.
unfoldable pub update_execution_binding_terminal :
    (String → Option ℕ) → (Db → Db) → UpdateRequest → Db → Result (Db × UpdateResult)
update_execution_binding_terminal parse_int between q db =
    if not (is_terminal q.outcome) then raise value_error else elim (parse_int q.awx_job_id) [
      | none ↦ raise value_error
      | some job ↦ ok (update_terminal between q job db)
    ]
