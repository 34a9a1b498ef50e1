-- ===== src/Creation/Replay.antt =====
-- A created binding is replayed without a conflict.
use opencode_gateway.Prelude.{
  ℕ, ◌≡◌, sym, subst, true, false, String, some, List, [], ◌∷◌, ◌++◌, arith, nat_eq, string_eq,
  option_eq, any, find?, Bool-cases, Option-cases, find-append, inl, inr,
}
use opencode_gateway.Domain.{outcome_eq, trigger_eq}
use opencode_gateway.Store.{Binding, Db, find_run, has_job, find_binding}
use opencode_gateway.Creation.{
  CreateRequest, Interference, supplied_eq, replay_matches, new_binding, answer, insert_binding,
  bind_resource, create_or_replay,
}
use opencode_gateway.Creation.Frame.{inserted}

-- The row that was written matches the request that wrote it.
replay_matches-new_binding :
    (q : CreateRequest) (run : String) (job i : ℕ)
    → q.afk_run_id ≡ some run
    → replay_matches (new_binding q run job i) q ≡ true
unfolding replay_matches new_binding
replay_matches-new_binding q run job i owner = ground arith

find-inserted :
    (q : CreateRequest) (run : String) (job i : ℕ) (bs : List Binding)
    → any (has_job job) bs ≡ false
    → find_binding job (bs ++ new_binding q run job i ∷ []) ≡ some (new_binding q run job i)
unfolding find_binding find? new_binding
find-inserted q run job i bs free =
    ground (arith, find-append (has_job job) bs (new_binding q run job i ∷ []) free)

insert_created :
    (q : CreateRequest) (run : String) (job : ℕ) (db : Db)
    → (insert_binding q run job db).1.is_created ≡ true
    → (any (has_job job) db.bindings ≡ false)
      × ((insert_binding q run job db).0 ≡ inserted q run job db)
      × ((insert_binding q run job db).1.binding_id ≡ some db.next_id)
unfolding insert_binding
insert_created q run job db h = ground arith

-- Where the create call reports a new row, that row is in the table, with the id it reports.
pub created_row :
    (world : Interference) (q : CreateRequest) (run : String) (job : ℕ) (db : Db)
    → (create_or_replay world q run job db).1.is_created ≡ true
    → (i : ℕ) × ((create_or_replay world q run job db).1.binding_id ≡ some i)
      × (find_binding job (create_or_replay world q run job db).0.bindings
          ≡ some (new_binding q run job i))
unfolding create_or_replay
created_row world q run job db h = elim (Option-cases (find_binding job db.bindings)) [
  | inr (b, found) ↦ ground arith
  | inl new ↦ elim (Option-cases (find_run run db.runs)) [
    | inl lost ↦ ground arith
    | inr (r, there) ↦ elim (Bool-cases (bind_resource world.in_binding q run r db).1) [
      | inl conflict ↦ ground arith
      | inr fine ↦
          let e = world.before_insert (bind_resource world.in_binding q run r db).0 in
          let (free, done, id) = insert_created q run job e (ground arith) in
          (
            e.next_id,
            rw (new, there, fine, create_or_replay) id,
            rw (new, there, fine, create_or_replay)
                (rw done (find-inserted q run job e.next_id e.bindings free)),
          )
    ]
  ]
]

replayed :
    (world : Interference) (q : CreateRequest) (run : String) (job i : ℕ) (db : Db)
    → q.afk_run_id ≡ some run
    → find_binding job db.bindings ≡ some (new_binding q run job i)
    → create_or_replay world q run job db ≡ (db, answer (some run) (some i) false false false)
unfolding create_or_replay new_binding
replayed world q run job i db owner found =
    ground (arith, found, replay_matches-new_binding q run job i owner)

-- A request that names its lifecycle and created a row, sent again, changes no table and is answered with the id of that
-- row, without a conflict, whatever other transactions are there in between.
pub create_again :
    (world later : Interference) (q : CreateRequest) (run : String) (job : ℕ) (db : Db)
    → q.afk_run_id ≡ some run
    → (create_or_replay world q run job db).1.is_created ≡ true
    → let after = (create_or_replay world q run job db).0 in
      create_or_replay later q run job after ≡ (
        after,
        answer (some run) (create_or_replay world q run job db).1.binding_id false false false,
      )
create_again world later q run job db owner h =
    let (i, id, found) = created_row world q run job db h in
    let after = (create_or_replay world q run job db).0 in
    subst
      (λ o. create_or_replay later q run job after ≡ (after, answer (some run) o false false false))
      (sym id) (replayed later q run job i after owner found)
