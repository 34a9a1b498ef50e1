-- ===== src/Terminal/Frame.antt =====
-- What `update_execution_binding_terminal` keeps: a rule with one premise for each write.
use opencode_gateway.Prelude.{
  ℕ, String, ◌≡◌, inl, inr, false, some, nat_eq, string_eq, option_eq, list_eq, Bool-cases,
  Option-cases,
}
use opencode_gateway.Domain.{ChangeRequest}
use opencode_gateway.Store.{Binding, Db, find_run, find_binding}
use opencode_gateway.Lifecycle.{apply_change_request_binding}
use opencode_gateway.Terminal.{
  UpdateRequest, stored_terminal, rejected, merged, transition, authorise, update_found,
  update_terminal,
}

module _ {ℓ} (P : Db → Type ℓ)
    (bind : (between : Db → Db) (i : String) (c run : ChangeRequest) (e : Db)
      → ((d : Db) → P d → P (between d))
      → P e
      → P (apply_change_request_binding between i c run e).0) where
  pub authorise_keeps :
      (between : Db → Db) (q : UpdateRequest) (b : Binding) (db : Db)
      → ((e : Db) → P e → P (between e))
      → P db
      → P (authorise between q b db).0
  unfolding authorise
  authorise_keeps between q b db keep h = elim (Option-cases b.afk_run_id) [
    | inl legacy ↦ rw (legacy, authorise) h
    | inr (run, owned) ↦ elim (Option-cases (merged q b).provider) [
      | inl bare ↦ rw (owned, bare, authorise) h
      | inr (p, resource) ↦ elim (Option-cases (find_run run db.runs)) [
        | inl orphan ↦ rw (owned, resource, orphan, authorise) h
        | inr (r, there) ↦
            rw (owned, resource, there, authorise) (bind between run _ r.change_request db keep h)
      ]
    ]
  ]

  update_found_keeps :
      (between : Db → Db) (q : UpdateRequest) (job : ℕ) (b : Binding) (db : Db)
      → ((e : Db) → P e → P (between e))
      → (stored_terminal b ≡ false
          → rejected q b ≡ false
          → (authorise between q b db).1 ≡ false
          → P (authorise between q b db).0
          → P (transition q job b (authorise between q b db).0))
      → P db
      → P (update_found between q job b db).0
  unfolding update_found
  update_found_keeps between q job b db keep move h = elim (Bool-cases (stored_terminal b)) [
    | inl done ↦ rw (done, update_found) h
    | inr live ↦ elim (Bool-cases (rejected q b)) [
      | inl refused ↦ rw (live, refused, update_found) h
      | inr fine ↦
          let after = authorise_keeps between q b db keep h in
          elim (Bool-cases (authorise between q b db).1) [
            | inl conflict ↦ rw (live, fine, conflict, update_found) after
            | inr free ↦ rw (live, fine, free, update_found) (move live fine free after)
          ]
    ]
  ]

  pub update_keeps :
      (between : Db → Db) (q : UpdateRequest) (job : ℕ) (db : Db)
      → ((e : Db) → P e → P (between e))
      → ((b : Binding)
          → find_binding job db.bindings ≡ some b
          → stored_terminal b ≡ false
          → rejected q b ≡ false
          → (authorise between q b db).1 ≡ false
          → P (authorise between q b db).0
          → P (transition q job b (authorise between q b db).0))
      → P db
      → P (update_terminal between q job db).0
  unfolding update_terminal
  update_keeps between q job db keep move h = elim (Option-cases (find_binding job db.bindings)) [
    | inl unknown ↦ rw (unknown, update_terminal) h
    | inr (b, found) ↦
        rw (found, update_terminal) (update_found_keeps between q job b db keep (move b found) h)
  ]
