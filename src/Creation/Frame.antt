-- ===== src/Creation/Frame.antt =====
-- What `create_or_replay_afk_execution_binding` keeps: a rule with one premise for each write.
use opencode_gateway.Prelude.{
  ℕ, ◌+◌, String, ◌≡◌, ◌⊎◌, inl, inr, false, some, [], ◌∷◌, ◌++◌, arith, nat_eq, string_eq,
  option_eq, list_eq, Bool-cases, Option-cases, any,
}
use opencode_gateway.Domain.{ChangeRequest}
use opencode_gateway.Store.{Run, Db, find_run, has_job, find_binding}
use opencode_gateway.Lifecycle.{apply_change_request_binding}
use opencode_gateway.Executions.{link_sessions}
use opencode_gateway.Creation.{
  CreateRequest, Interference, session_ids, new_binding, insert_binding, bind_resource,
  create_or_replay,
}

-- The tables after the INSERT and its session links.
abbrev pub inserted : CreateRequest → String → ℕ → Db → Db
inserted q run job db = record db {
  bindings = db.bindings ++ new_binding q run job db.next_id ∷ [];
  links = link_sessions run q.started_at q.finished_at db.sessions (session_ids q) db.links;
  next_id = db.next_id + 1;
}

pub insert_cases :
    (q : CreateRequest) (run : String) (job : ℕ) (db : Db)
    → ((insert_binding q run job db).0 ≡ db)
      ⊎ ((any (has_job job) db.bindings ≡ false)
          × ((insert_binding q run job db).0 ≡ inserted q run job db))
unfolding insert_binding
insert_cases q run job db = ground arith

module _ {ℓ} (P : Db → Type ℓ)
    (bind : (between : Db → Db) (i : String) (c run : ChangeRequest) (e : Db)
      → ((d : Db) → P d → P (between d))
      → P e
      → P (apply_change_request_binding between i c run e).0) where
  bind_resource_keeps :
      (between : Db → Db) (q : CreateRequest) (i : String) (r : Run) (db : Db)
      → ((e : Db) → P e → P (between e))
      → P db
      → P (bind_resource between q i r db).0
  unfolding bind_resource
  bind_resource_keeps between q i r db keep h = elim (Option-cases q.provider) [
    | inl none_given ↦ rw (none_given, bind_resource) h
    | inr (p, given) ↦ rw (given, bind_resource) (bind between i _ r.change_request db keep h)
  ]

  pub create_keeps :
      (world : Interference) (q : CreateRequest) (run : String) (job : ℕ) (db : Db)
      → ((e : Db) → P e → P (world.in_binding e))
      → ((e : Db) → P e → P (world.before_insert e))
      → ((r : Run)
          → find_run run db.runs ≡ some r
          → (bind_resource world.in_binding q run r db).1 ≡ false
          → let e = world.before_insert (bind_resource world.in_binding q run r db).0 in
            any (has_job job) e.bindings ≡ false → P e → P (inserted q run job e))
      → P db
      → P (create_or_replay world q run job db).0
  unfolding create_or_replay
  create_keeps world q run job db keep_a keep_b add h =
      elim (Option-cases (find_binding job db.bindings)) [
        | inr (b, found) ↦ rw (found, create_or_replay) h
        | inl new ↦ elim (Option-cases (find_run run db.runs)) [
          | inl lost ↦ rw (new, lost, create_or_replay) h
          | inr (r, there) ↦
              let after = (bind_resource world.in_binding q run r db).0 in
              let bound = bind_resource_keeps world.in_binding q run r db keep_a h in
              let free = keep_b after bound in
              elim (Bool-cases (bind_resource world.in_binding q run r db).1) [
                | inl conflict ↦ rw (new, there, conflict, create_or_replay) bound
                | inr fine ↦
                    rw (new, there, fine, create_or_replay)
                      (elim (insert_cases q run job (world.before_insert after)) [
                        | inl same ↦ rw same free
                        | inr (none_yet, done) ↦ rw done (add r there fine none_yet free)
                      ])
              ]
        ]
      ]
