-- ===== src/Checkpoints/Laws.antt =====
-- A recovery checkpoint is written once.
use opencode_gateway.Prelude.{
  ℕ, String, ◌≡◌, ◌∙◌, inl, inr, true, false, some, List, [], ◌∷◌, ◌++◌, arith, nat_eq, string_eq,
  option_eq, list_eq, Option-cases, any-find, find-append, find?, any,
}
use opencode_gateway.Store.{Binding, Checkpoint, Db, find_binding}
use opencode_gateway.Checkpoints.{CheckpointResult, is_checkpoint, recorded, create_checkpoint}

is_checkpoint-recorded :
    (job : ℕ) (ref sha : String) (b : Binding) (i : ℕ)
    → is_checkpoint job ref sha (recorded job ref sha b i) ≡ true
unfolding is_checkpoint
is_checkpoint-recorded job ref sha b i = ground arith

find-recorded :
    (job : ℕ) (ref sha : String) (b : Binding) (i : ℕ) (cs : List Checkpoint)
    → any (is_checkpoint job ref sha) cs ≡ false
    → find? (is_checkpoint job ref sha) (cs ++ recorded job ref sha b i ∷ [])
      ≡ some (recorded job ref sha b i)
unfolding find?
find-recorded job ref sha b i cs h =
    find-append (is_checkpoint job ref sha) cs (recorded job ref sha b i ∷ []) h
    ∙ rw (is_checkpoint-recorded job ref sha b i)

-- Observing a checkpoint again, when its execution is known, changes no table and answers with
-- the row of the first observation.
pub checkpoint_replay :
    (job : ℕ) (ref sha : String) (db after : Db) (r : CheckpointResult)
    → create_checkpoint job ref sha db ≡ (after, r)
    → r.execution_missing ≡ false
    → create_checkpoint job ref sha after ≡ (after, record r { is_created = false })
unfolding create_checkpoint
checkpoint_replay job ref sha db after r e h = elim (Option-cases (find_binding job db.bindings)) [
  | inl absent ↦ ground arith
  | inr (b, found) ↦
      let row = recorded job ref sha b db.next_id in
      let p = is_checkpoint job ref sha in
      ground (
        arith,
        find-recorded job ref sha b db.next_id db.checkpoints,
        any-find p (db.checkpoints ++ row ∷ []),
        any-find p db.checkpoints,
      )
]
