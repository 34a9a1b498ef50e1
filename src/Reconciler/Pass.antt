-- ===== src/Reconciler/Pass.antt =====
-- A pass is a history of terminal updates: what no history changes, no pass changes.
use opencode_gateway.Prelude.{
  ℕ, ◌≡◌, refl, true, String, some, List, [], ◌∷◌, arith, nat_eq, string_eq, option_eq, map, Option,
  Bool-cases, Option-cases, inl, inr,
}
use opencode_gateway.Domain.{ExecutionOutcome, is_terminal, outcome_eq}
use opencode_gateway.Store.{Binding, Db, find_binding}
use opencode_gateway.Result.{Result, ok, Result-cases}
use opencode_gateway.Terminal.{
  UpdateRequest, UpdateResult, stored_terminal, update_terminal, update_execution_binding_terminal,
}
use opencode_gateway.Terminal.Transition.{IsLocked}
use opencode_gateway.History.{Reach}
use opencode_gateway.History.Terminal.{terminal_row_stays}
use opencode_gateway.Reconciler.{
  JobState, Answer, map_awx_status_to_outcome, PassResult, pass_request, Texts, persist_result,
  settle, settle_all,
}

-- The pass asks for terminal outcomes only.
mapped_is_terminal :
    (strip_lower : String → String) (status : String) (o : ExecutionOutcome)
    → map_awx_status_to_outcome strip_lower status ≡ some o
    → is_terminal o ≡ true
unfolding map_awx_status_to_outcome
mapped_is_terminal strip_lower status o h = ground arith

module _ (t : Texts) (same : (n : ℕ) → t.parse_int (t.show_int n) ≡ some n) (between : ℕ → Db → Db)
    (quiet : (job : ℕ) (e : Db) → Reach e (between job e))
    (locked : (job : ℕ) → IsLocked job (between job)) where
  update_cases :
      (job : ℕ) (q : UpdateRequest) (db after : Db) (u : UpdateResult)
      → t.parse_int q.awx_job_id ≡ some job
      → update_execution_binding_terminal t.parse_int (between job) q db ≡ Result.ok (after, u)
      → (is_terminal q.outcome ≡ true) × (after ≡ (update_terminal (between job) q job db).0)
  unfolding update_execution_binding_terminal
  update_cases job q db after u parsed h = elim (Bool-cases (is_terminal q.outcome)) [
    | inl final ↦ (final, ground arith)
    | inr live ↦ ground arith
  ]

  update_reaches :
      {s : Db} (job : ℕ) (q : UpdateRequest) (db after : Db) (u : UpdateResult)
      → Reach s db
      → t.parse_int q.awx_job_id ≡ some job
      → update_execution_binding_terminal t.parse_int (between job) q db ≡ Result.ok (after, u)
      → Reach s after
  update_reaches job q db after u before parsed h =
      let (final, e) = update_cases job q db after u parsed h in
      Reach.update before (between job) (quiet job) q final job (locked job) e

  persist_reaches :
      {s : Db} (job : ℕ) (x : JobState) (db : Db)
      → Reach s db
      → Reach s (persist_result t (between job) job x db).0
  unfolding persist_result pass_request
  persist_reaches {s} job x db before =
      elim (Option-cases (map_awx_status_to_outcome t.strip_lower x.status)) [
        | inl running ↦ rw (running, persist_result) before
        | inr (outcome, mapped) ↦
            let q = pass_request (t.show_int job) outcome x.finished_at in
            elim (Result-cases (update_execution_binding_terminal t.parse_int (between job) q db)) [
              | inl (e, raised) ↦ rw (mapped, raised, persist_result) before
              | inr ((after, u), done) ↦
                  rw (mapped, done, persist_result)
                    (update_reaches job q db after u before (same job) done)
            ]
      ]

  settle_reaches :
      {s : Db} (job : ℕ) (a : Answer) (db : Db)
      → Reach s db
      → Reach s (settle t (between job) job a db).0
  unfolding settle
  settle_reaches job (Answer.failed_lookup name) db before = before
  settle_reaches job Answer.absent db before = before
  settle_reaches job (Answer.state x) db before = persist_reaches job x db before

  settle_all_reaches :
      {s : Db} (get_job : ℕ → Answer) (bs : List Binding) (db : Db)
      → Reach s db
      → Reach s (settle_all t between get_job bs db).0
  unfolding settle_all
  settle_all_reaches get_job [] db before = before
  settle_all_reaches get_job (b ∷ bs) db before =
      settle_all_reaches get_job bs _ (settle_reaches b.awx_job_id (get_job b.awx_job_id) db before)

-- The jobs that the results are about.
unfoldable pub reported_jobs : List PassResult → List (Option ℕ)
reported_jobs results = map (λ (r : PassResult). r.awx_job_id) results

unfoldable pub jobs_of : List Binding → List (Option ℕ)
jobs_of bs = map (λ (b : Binding). some b.awx_job_id) bs

-- A pass leaves every terminal row as it was, whatever AWX answers, under the same conditions.
pub pass_keeps_terminal :
    (t : Texts) (between : ℕ → Db → Db) (get_job : ℕ → Answer) (bs : List Binding) (db : Db)
    (job : ℕ) (b : Binding)
    → ((n : ℕ) → t.parse_int (t.show_int n) ≡ some n)
    → ((n : ℕ) (e : Db) → Reach e (between n e))
    → ((n : ℕ) → IsLocked n (between n))
    → stored_terminal b ≡ true
    → find_binding job db.bindings ≡ some b
    → find_binding job (settle_all t between get_job bs db).0.bindings ≡ some b
pass_keeps_terminal t between get_job bs db job b same quiet locked final found =
    terminal_row_stays job b final
      (settle_all_reaches t same between quiet locked get_job bs db (Reach.start refl)) found
