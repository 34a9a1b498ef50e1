-- ===== src/Checkpoints.antt =====
-- afk_outcomes/repository/executions.py: the recovery checkpoints and the reads of bindings.
pub mod Laws
use opencode_gateway.Prelude.{
  ℕ, zero, suc, ◌+◌, ◌-◌, ◌≤◌, ◌<◌, String, ◌≡◌, refl, sym, ap, subst, ◌∙◌, ◌≢◌, ◌↔◌, ◌⊎◌, inl, inr,
  Bool, true, false, ◌&&◌, ◌||◌, not, Option, none, some, List, [], ◌∷◌, ◌++◌, map, arith, Eq,
  nat_eq, string_eq, option_eq, list_eq, ◌==◌, ◌/=◌, ltb, leb, if◌then◌else◌, is_none, is_some,
  coalesce, Bool-cases, Option-cases, length, length-append, length-filter_none, filter-filter,
  nil_of_length, any-find, find-append, find-append_found, find-holds, length-filter-append,
  length-filter-ext, head?, is_empty, find?, filter, any, All, contains, dedupe_from, dedupe,
  DistinctFrom, dedupe_from-DistinctFrom, contains-append, contains-dedupe_from,
}
use opencode_gateway.Domain.{
  Provider, EntityType, ExecutionOutcome, provider_eq, entity_eq, outcome_eq,
}
use opencode_gateway.Store.{Run, Binding, Checkpoint, Db, sql_eq, has_job, find_binding}
use opencode_gateway.Result.{Result, ok, raise, value_error}

-- `CreateRecoveryCheckpointResult`
pub record CheckpointResult : Type 0 where
  pub checkpoint : Option Checkpoint
  pub is_created : Bool
  pub execution_missing : Bool

-- `awx_job_id = $1 AND ref = $2 AND commit_sha = $3`
unfoldable pub is_checkpoint : ℕ → String → String → Checkpoint → Bool
is_checkpoint job ref sha c = c.awx_job_id == job && (c.ref == ref && c.commit_sha == sha)

-- The inserted row: it inherits the run of its execution.
abbrev pub recorded : ℕ → String → String → Binding → ℕ → Checkpoint
recorded job ref sha b i = record {
  id = i;
  awx_job_id = job;
  afk_run_id = b.afk_run_id;
  ref = ref;
  commit_sha = sha;
}

-- `create_or_replay_recovery_checkpoint`, once the job id is a number
unfoldable pub create_checkpoint : ℕ → String → String → Db → Db × CheckpointResult
create_checkpoint job ref sha db = elim (find_binding job db.bindings) [
  | none ↦ (db, record { checkpoint = none; is_created = false; execution_missing = true })
  | some b ↦
      if any (is_checkpoint job ref sha) db.checkpoints
      then (
        db,
        record {
          checkpoint = find? (is_checkpoint job ref sha) db.checkpoints;
          is_created = false;
          execution_missing = false;
        },
      )
      else let row = recorded job ref sha b db.next_id in
        (
          record db { checkpoints = db.checkpoints ++ row ∷ []; next_id = db.next_id + 1 },
          record { checkpoint = some row; is_created = true; execution_missing = false },
        )
]

unfoldable pub create_or_replay_recovery_checkpoint :
    (String → Option ℕ) → String → String → String → Db → Result (Db × CheckpointResult)
create_or_replay_recovery_checkpoint parse_int job_id ref sha db = elim (parse_int job_id) [
  | none ↦ raise value_error
  | some job ↦ ok (create_checkpoint job ref sha db)
]

-- `list_recovery_checkpoints`, once the job id is a number
unfoldable pub list_recovery_checkpoints : ℕ → Db → List Checkpoint
list_recovery_checkpoints job db = filter (λ (c : Checkpoint). c.awx_job_id == job) db.checkpoints

-- `list_execution_bindings_for_resource`, before the rows are decoded
unfoldable pub list_execution_bindings_for_resource :
    Provider → String → EntityType → String → Db → List Binding
list_execution_bindings_for_resource p repository type number db =
    filter
      (λ (b : Binding).
        sql_eq b.provider (some p)
        && (sql_eq b.repository_url (some repository)
            && (sql_eq b.entity_type (some type) && sql_eq b.entity_number (some number))))
      db.bindings

-- `list_execution_bindings_by_afk_run_id`, before the rows are decoded
unfoldable pub list_execution_bindings_by_afk_run_id : String → Db → List Binding
list_execution_bindings_by_afk_run_id run db =
    filter (λ (b : Binding). sql_eq b.afk_run_id (some run)) db.bindings
