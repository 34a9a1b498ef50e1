-- ===== src/Reconciler.antt =====
-- afk_outcomes/service/execution_reconciliation.py: the pass over the running execution bindings.
-- The AWX lookup is an argument, as are the text functions of Python that the mapping of a status
-- calls. The class name of an exception is kept where the source keeps it.
pub mod Pass
use opencode_gateway.Prelude.{
  ℕ, zero, suc, ◌≤◌, Bool, true, false, ◌&&◌, ◌||◌, not, String, Option, none, some, List, [], ◌∷◌,
  nat_eq, string_eq, option_eq, ◌==◌, ltb, if◌then◌else◌, filter, length,
}
use opencode_gateway.Domain.{ExecutionOutcome, Time, outcome_eq}
use opencode_gateway.Store.{Binding, Db}
use opencode_gateway.Result.{Result, Error, ok, raise, value_error, unique_violation}
use opencode_gateway.Terminal.{UpdateRequest, UpdateResult, update_execution_binding_terminal}

-- `AWXJobState`
pub record JobState : Type 0 where
  pub status : String
  pub finished_at : Option Time

-- What `get_job` does: a state, no such job, or an exception.
pub data Answer : Type 0 where
  state : JobState → Answer
  absent : Answer
  failed_lookup : String → Answer

-- `(status or "").strip().lower()`, and the mapping
unfoldable pub map_awx_status_to_outcome : (String → String) → String → Option ExecutionOutcome
map_awx_status_to_outcome strip_lower status =
    let normalized = strip_lower status in
    if normalized == "successful"
    then some ExecutionOutcome.completed
    else if normalized == "failed" || normalized == "error"
    then some ExecutionOutcome.failed
    else if normalized == "canceled"
    then some ExecutionOutcome.cancelled
    else none

-- `BindingResultKind`
pub data Kind : Type 0 where
  updated already_terminal missing_job binding_missing : Kind
  not_yet_terminal conflict lookup_error persist_error : Kind

-- `BindingReconciliationResult`
pub record PassResult : Type 0 where
  pub awx_job_id : Option ℕ
  pub kind : Kind
  pub outcome : Option ExecutionOutcome
  pub detail : Option String

-- `list_running_execution_bindings`, without an age; a limit below one raises.
unfoldable pub is_running : Binding → Bool
is_running b = b.outcome == some ExecutionOutcome.running

abbrev pub take {ℓ} : {A : Type ℓ} → ℕ → List A → List A
take n [] = []
take zero (x ∷ xs) = []
take (suc n) (x ∷ xs) = x ∷ take n xs

unfoldable pub list_running_execution_bindings : ℕ → Db → Result (List Binding)
list_running_execution_bindings limit db =
    if ltb limit 1 then raise value_error else ok (take limit (filter is_running db.bindings))

-- `max(1, limit)`
abbrev pub at_least_one : ℕ → ℕ
at_least_one n = if ltb n 1 then 1 else n

-- The call of the terminal update.
unfoldable pub pass_request : String → ExecutionOutcome → Option Time → UpdateRequest
pass_request job outcome finished = record {
  awx_job_id = job;
  outcome = outcome;
  finished_at = finished;
  failure_reason = none;
  failure_reason_provided = none;
  failure_summary = none;
  failure_summary_provided = none;
  external_session_id = none;
  external_session_ids = none;
  provider = none;
  repository = none;
  resource_number = none;
}

unfoldable pub kind_of : UpdateResult → Kind
kind_of u =
    if u.is_updated
    then Kind.updated
    else if u.is_conflict
    then Kind.conflict
    else if u.not_found
    then Kind.binding_missing
    else Kind.already_terminal

-- `type(exc).__name__`
abbrev pub class_name : Error → String
class_name value_error = "ValueError"
class_name unique_violation = "UniqueViolationError"

abbrev pub reported : Option ℕ → Kind → Option ExecutionOutcome → Option String → PassResult
reported job kind outcome detail = record {
  awx_job_id = job;
  kind = kind;
  outcome = outcome;
  detail = detail;
}

-- The functions outside the repository's code that a pass calls: `str.strip` and `str.lower`,
-- `str` of a number and `int` of a text.
pub record Texts : Type 0 where
  pub strip_lower : String → String
  pub show_int : ℕ → String
  pub parse_int : String → Option ℕ

-- `_persist_result`
unfoldable pub persist_result : Texts → (Db → Db) → ℕ → JobState → Db → Db × PassResult
persist_result t between job s db = elim (map_awx_status_to_outcome t.strip_lower s.status) [
  | none ↦ (db, reported (some job) Kind.not_yet_terminal none none)
  | some outcome ↦
      elim (update_execution_binding_terminal t.parse_int between
        (pass_request (t.show_int job) outcome s.finished_at) db) [
          | raise e ↦ (db, reported (some job) Kind.persist_error none (some (class_name e)))
          | ok (after, u) ↦ (after, reported (some job) (kind_of u) (some outcome) none)
        ]
]

-- One turn of the second phase: the answer of the first phase for this binding.
unfoldable pub settle : Texts → (Db → Db) → ℕ → Answer → Db → Db × PassResult
settle t between job (failed_lookup name) db =
    (db, reported (some job) Kind.lookup_error none (some name))
settle t between job absent db = (db, reported (some job) Kind.missing_job none none)
settle t between job (state s) db = persist_result t between job s db

-- The second phase; `between` gives what commits during the update of each job.
unfoldable pub settle_all :
    Texts → (ℕ → Db → Db) → (ℕ → Answer) → List Binding → Db → Db × List PassResult
settle_all t between get_job [] db = (db, [])
settle_all t between get_job (b ∷ bs) db =
    let (after, result) = settle t (between b.awx_job_id) b.awx_job_id (get_job b.awx_job_id) db in
    let (final, results) = settle_all t between get_job bs after in (final, result ∷ results)

-- `reconcile`
unfoldable pub reconcile :
    Texts → (ℕ → Db → Db) → (ℕ → Answer) → ℕ → Db → Result (Db × List PassResult)
reconcile t between get_job limit db =
    elim (list_running_execution_bindings (at_least_one limit) db) [
      | raise e ↦ raise e
      | ok bs ↦ ok (settle_all t between get_job bs db)
    ]

-- `_count`
unfoldable pub kind_discrete : Discrete Kind
kind_discrete = hlevel

unfoldable pub count : Kind → List PassResult → ℕ
count k rs =
    length (
      filter (λ (r : PassResult). elim (kind_discrete r.kind k) [ yes _ ↦ true | no _ ↦ false ]) rs)
