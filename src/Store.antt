-- ===== src/Store.antt =====
-- The PostgreSQL tables behind `AsyncpgOutcomeRepository` (afk_outcomes/repository): each table is
-- the list of its rows in insertion order, which is the order `created_at ASC, id ASC`. The
-- columns that only hold `now()` are left out. The SQL statements of the repository that more than
-- one method shares stand here as functions.
use opencode_gateway.Prelude.{
  ℕ, Bool, false, ◌&&◌, String, Option, none, some, List, [], Eq, nat_eq, string_eq, ◌==◌, find?,
}
use opencode_gateway.Domain.{
  Provider, EntityType, ExecutionOutcome, TriggerType, Time, ChangeRequest, provider_eq,
}

-- `afk_runs`
pub record Run : Type 0 where
  pub afk_run_id : String
  pub provider : Provider
  pub host : Option String
  pub source_event_id : Option String
  pub repository : Option String
  pub trigger_type : Option TriggerType
  pub title : Option String
  pub change_request : ChangeRequest
  pub recovered_from : Option String
  pub first_delivery_id : Option String

-- The JSONB column `external_session_ids`: SQL NULL, a value that is no list of JSON (a text that
-- `json.loads` refuses included), or a list in which `none` stands for an element that is no text.
pub data SessionsColumn : Type 0 where
  null : SessionsColumn
  malformed : SessionsColumn
  items : List (Option String) → SessionsColumn

-- `execution_bindings`
pub record Binding : Type 0 where
  pub id : ℕ
  pub awx_job_id : ℕ
  pub job_template_id : ℕ
  pub external_session_id : Option String
  pub provider : Option Provider
  pub repository_url : Option String
  pub entity_type : Option EntityType
  pub entity_number : Option String
  pub outcome : Option ExecutionOutcome
  pub source_event_id : Option String
  pub branch : Option String
  pub title : Option String
  pub failure_reason : Option String
  pub failure_summary : Option String
  pub started_at : Option Time
  pub finished_at : Option Time
  pub afk_run_id : Option String
  pub trigger_type : Option TriggerType
  pub external_session_ids : SessionsColumn

-- `afk_run_sessions`
pub record Link : Type 0 where
  pub afk_run_id : String
  pub session_id : Option String
  pub external_session_id : String
  pub started_at : Option Time
  pub finished_at : Option Time

-- `recovery_checkpoints`
pub record Checkpoint : Type 0 where
  pub id : ℕ
  pub awx_job_id : ℕ
  pub afk_run_id : Option String
  pub ref : String
  pub commit_sha : String

-- `afk_run_delivery_batches`
pub record Delivery : Type 0 where
  pub afk_run_id : String
  pub delivery_id : String

-- `sessions`: the two columns that the repository reads
pub record Session : Type 0 where
  pub id : String
  pub external_session_id : String

pub record Db : Type 0 where
  pub runs : List Run
  pub bindings : List Binding
  pub links : List Link
  pub checkpoints : List Checkpoint
  pub deliveries : List Delivery
  pub sessions : List Session
  pub next_id : ℕ

abbrev pub empty : Db
empty = record {
  runs = [];
  bindings = [];
  links = [];
  checkpoints = [];
  deliveries = [];
  sessions = [];
  next_id = 1;
}

-- SQL's `=` as the condition of a WHERE: NULL equals nothing.
abbrev pub sql_eq {ℓ} : {A : Type ℓ} ⦃e : Eq A⦄ → Option A → Option A → Bool
sql_eq none _ = false
sql_eq (some a) none = false
sql_eq (some a) (some b) = a == b

-- `SELECT … FROM afk_runs WHERE afk_run_id = $1`
abbrev pub has_id : String → Run → Bool
has_id i r = r.afk_run_id == i

unfoldable pub find_run : String → List Run → Option Run
find_run i rs = find? (has_id i) rs

-- `… WHERE change_request_provider = $1 AND change_request_repository = $2
--  AND change_request_external_id = $3`
unfoldable pub same_identity : ChangeRequest → ChangeRequest → Bool
same_identity stored c =
    sql_eq stored.provider c.provider
    && (sql_eq stored.repository c.repository && sql_eq stored.external_id c.external_id)

abbrev pub claims : ChangeRequest → Run → Bool
claims c r = same_identity r.change_request c

-- `SELECT … FROM execution_bindings WHERE awx_job_id = $1`
abbrev pub has_job : ℕ → Binding → Bool
has_job j b = b.awx_job_id == j

unfoldable pub find_binding : ℕ → List Binding → Option Binding
find_binding j bs = find? (has_job j) bs
