-- ===== src/Terminal/Transition.antt =====
-- What a terminal update does to its row, and what the same update does again.
use opencode_gateway.Prelude.{
  ℕ, ◌≡◌, ◌≢◌, refl, ◌∙◌, true, false, ◌||◌, not, String, some, List, [], ◌∷◌, arith, nat_eq,
  string_eq, option_eq, ◌==◌, find?, Option-cases, inl, inr,
}
use opencode_gateway.Domain.{
  ExecutionOutcome, ChangeRequest, is_terminal, provider_eq, entity_eq, outcome_eq,
}
use opencode_gateway.Store.{Binding, Db, find_binding}
use opencode_gateway.Lifecycle.{apply_change_request_binding}
use opencode_gateway.Lifecycle.Frame.{apply_keeps}
use opencode_gateway.Terminal.{
  UpdateRequest, session_conflict, failure_summary_conflict, resource_conflict, stored_terminal,
  identical, merged, is_complete, rejected, write_binding, outcome_of, transition, authorise,
  update_found, update_terminal,
}
use opencode_gateway.Terminal.Frame.{authorise_keeps}
use opencode_gateway.Terminal.Kept.{overwrites_nothing, overwrites_nothing-merged}

-- An update of one job leaves the row of another, and rewrites its own.
module _ (f : Binding → Binding) (same_job : (b : Binding) → (f b).awx_job_id ≡ b.awx_job_id) where
  find-write_ne :
      (job other : ℕ) (bs : List Binding)
      → other ≢ job
      → find_binding other (write_binding job f bs) ≡ find_binding other bs
  unfolding find_binding find? write_binding
  find-write_ne job other [] h = refl
  find-write_ne job other (b ∷ bs) h = ground (arith, same_job b, find-write_ne job other bs h)

  find-write_eq :
      (job : ℕ) (bs : List Binding) (b : Binding)
      → find_binding job bs ≡ some b
      → find_binding job (write_binding job f bs) ≡ some (f b)
  unfolding find_binding find? write_binding
  find-write_eq job [] b h = cc
  find-write_eq job (x ∷ bs) b h = ground (arith, same_job x, find-write_eq job bs b)

merged_job : (q : UpdateRequest) (b : Binding) → (merged q b).awx_job_id ≡ b.awx_job_id
unfolding merged
merged_job q b = refl

pub find-write_other :
    (job other : ℕ) (q : UpdateRequest) (bs : List Binding)
    → other ≢ job
    → find_binding other (write_binding job (merged q) bs) ≡ find_binding other bs
find-write_other job other q = find-write_ne (merged q) (merged_job q) job other

pub find-write_self :
    (job : ℕ) (q : UpdateRequest) (bs : List Binding) (b : Binding)
    → find_binding job bs ≡ some b
    → find_binding job (write_binding job (merged q) bs) ≡ some (merged q b)
find-write_self job q = find-write_eq (merged q) (merged_job q) job

-- The row that was written matches the request that wrote it.
identical-merged : (q : UpdateRequest) (b : Binding) → identical q (merged q b) ≡ true
unfolding identical merged session_conflict failure_summary_conflict resource_conflict
identical-merged q b = ground arith

stored_terminal-merged :
    (q : UpdateRequest) (b : Binding) → stored_terminal (merged q b) ≡ is_terminal q.outcome
unfolding stored_terminal merged
stored_terminal-merged q b = refl

completed_is_complete :
    (q : UpdateRequest) (b : Binding)
    → rejected q b ≡ false
    → (not (q.outcome == ExecutionOutcome.completed) || is_complete (merged q b)) ≡ true
unfolding rejected
completed_is_complete q b fine = ground arith

-- The row lock: nothing that commits inside the transaction touches the row of the job.
abbrev pub IsLocked : ℕ → (Db → Db) → Type 0
IsLocked job between =
    (e : Db) → find_binding job (between e).bindings ≡ find_binding job e.bindings

apply-find :
    (job : ℕ) (b : Binding) (between : Db → Db) (i : String) (c run : ChangeRequest) (e : Db)
    → ((d : Db)
        → find_binding job d.bindings ≡ some b
        → find_binding job (between d).bindings ≡ some b)
    → find_binding job e.bindings ≡ some b
    → find_binding job (apply_change_request_binding between i c run e).0.bindings ≡ some b
apply-find job b between i c run e keep h =
    apply_keeps (λ d. find_binding job d.bindings ≡ some b) between i c run e keep (λ d k. k) h

pub authorise-find :
    (between : Db → Db) (q : UpdateRequest) (job : ℕ) (b : Binding) (db : Db)
    → IsLocked job between
    → find_binding job db.bindings ≡ some b
    → find_binding job (authorise between q b db).0.bindings ≡ some b
authorise-find between q job b db locked found =
    authorise_keeps (λ d. find_binding job d.bindings ≡ some b) (apply-find job b) between q b db
      (λ e h. locked e ∙ h) found

update_cases :
    (between : Db → Db) (q : UpdateRequest) (job : ℕ) (b : Binding) (db : Db)
    → (update_found between q job b db).1.is_updated ≡ true
    → (stored_terminal b ≡ false)
      × (rejected q b ≡ false)
      × ((update_found between q job b db).0 ≡ transition q job b (authorise between q b db).0)
unfolding update_found
update_cases between q job b db h = ground arith

update_found_find :
    (between : Db → Db) (q : UpdateRequest) (job : ℕ) (b : Binding) (db : Db)
    → IsLocked job between
    → find_binding job db.bindings ≡ some b
    → (update_found between q job b db).1.is_updated ≡ true
    → (stored_terminal b ≡ false)
      × (rejected q b ≡ false)
      × (find_binding job (update_found between q job b db).0.bindings ≡ some (merged q b))
unfolding transition
update_found_find between q job b db locked found h =
    let (live, fine, after) = update_cases between q job b db h in
    (
      live,
      fine,
      rw after (find-write_self job q _ b (authorise-find between q job b db locked found)),
    )

-- The row that an update reports, what it holds before, and the row after it.
update_merges :
    (between : Db → Db) (q : UpdateRequest) (job : ℕ) (db : Db)
    → IsLocked job between
    → (update_terminal between q job db).1.is_updated ≡ true
    → (b : Binding) × (find_binding job db.bindings ≡ some b)
      × (stored_terminal b ≡ false)
      × (rejected q b ≡ false)
      × ((not (q.outcome == ExecutionOutcome.completed) || is_complete (merged q b)) ≡ true)
      × (find_binding job (update_terminal between q job db).0.bindings ≡ some (merged q b))
unfolding update_terminal
update_merges between q job db locked h = elim (Option-cases (find_binding job db.bindings)) [
  | inl lost ↦ ground arith
  | inr (b, found) ↦
      let (live, fine, after) = update_found_find between q job b db locked found (ground arith) in
      (b, found, live, fine, completed_is_complete q b fine, rw (found, update_terminal) after)
]

-- A terminal update that reports an update found a row that was not terminal, and leaves that row
-- merged with the request. It overwrites nothing: a session and a complete resource that the row
-- holds stay, and a failure reason or summary stays or is cleared. If the outcome is `completed`,
-- the merged row is complete: it has a resource and a session, and no failure metadata. Nothing
-- else changes the row meanwhile, since it is locked.
pub update_moves :
    (between : Db → Db) (q : UpdateRequest) (job : ℕ) (db : Db)
    → IsLocked job between
    → (update_terminal between q job db).1.is_updated ≡ true
    → (b : Binding) × (find_binding job db.bindings ≡ some b)
      × (stored_terminal b ≡ false)
      × (find_binding job (update_terminal between q job db).0.bindings ≡ some (merged q b))
      × (overwrites_nothing b (merged q b) ≡ true)
      × ((not (q.outcome == ExecutionOutcome.completed) || is_complete (merged q b)) ≡ true)
update_moves between q job db locked h =
    let (b, found, live, fine, complete, moved) = update_merges between q job db locked h in
    (b, found, live, moved, overwrites_nothing-merged q b fine, complete)

again_terminal :
    (between : Db → Db) (q : UpdateRequest) (job : ℕ) (b : Binding) (db : Db)
    → is_terminal q.outcome ≡ true
    → find_binding job db.bindings ≡ some (merged q b)
    → update_terminal between q job db ≡ (db, outcome_of (some b.id) false false false)
unfolding update_terminal update_found merged
again_terminal between q job b db final found =
    rw (found, update_terminal)
      (rw (stored_terminal-merged q b ∙ final, identical-merged q b, update_found) refl)

-- The same terminal update again, after one that reported an update, changes no table and reports
-- neither an update nor a conflict nor a missing row, whatever commits around it in between.
pub update_again :
    (between later : Db → Db) (q : UpdateRequest) (job : ℕ) (db : Db)
    → is_terminal q.outcome ≡ true
    → IsLocked job between
    → (update_terminal between q job db).1.is_updated ≡ true
    → let after = (update_terminal between q job db).0 in
      (i : ℕ) × (update_terminal later q job after ≡ (after, outcome_of (some i) false false false))
update_again between later q job db final locked h =
    let (b, found, live, fine, complete, moved) = update_merges between q job db locked h in
    (b.id, again_terminal later q job b _ final moved)
