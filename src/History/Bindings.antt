-- ===== src/History/Bindings.antt =====
-- Properties of the table `execution_bindings` alone: only the INSERT and the UPDATE matter.
use opencode_gateway.Prelude.{
  ℕ, String, ◌≡◌, ◌⊎◌, inl, inr, Bool, true, false, Option, some, List, [], ◌∷◌, ◌++◌, arith,
  nat_eq, string_eq, option_eq, list_eq, Option-cases, any,
}
use opencode_gateway.Domain.{ChangeRequest, is_terminal}
use opencode_gateway.Store.{Binding, Db, has_job, find_run, find_binding}
use opencode_gateway.Result.{ok}
use opencode_gateway.Lifecycle.{update_afk_run, bind_change_request, apply_change_request_binding}
use opencode_gateway.Lifecycle.Frame.{apply_keeps}
use opencode_gateway.Provisioning.{Provision, ProvisionResult, insert_run, provision_afk_run}
use opencode_gateway.Creation.{CreateRequest, new_binding}
use opencode_gateway.Creation.Frame.{create_keeps}
use opencode_gateway.Terminal.{
  UpdateRequest, stored_terminal, rejected, merged, write_binding, transition,
}
use opencode_gateway.Terminal.Frame.{update_keeps}
use opencode_gateway.Checkpoints.{create_checkpoint}
use opencode_gateway.History.{IsKept}

pub provision-bindings :
    (between : Db → Db) (p : Provision) (db after : Db) (r : ProvisionResult)
    → provision_afk_run between p db ≡ ok (after, r)
    → (after.bindings ≡ db.bindings) ⊎ (after.bindings ≡ (between db).bindings)
unfolding provision_afk_run insert_run
provision-bindings between p db after r e = ground arith

pub update_afk_run-bindings :
    (i : String) (title : Option String) (given : Bool) (db : Db)
    → (update_afk_run i title given db).0.bindings ≡ db.bindings
unfolding update_afk_run
update_afk_run-bindings i title given db = ground arith

pub create_checkpoint-bindings :
    (job : ℕ) (ref sha : String) (db : Db)
    → (create_checkpoint job ref sha db).0.bindings ≡ db.bindings
unfolding create_checkpoint
create_checkpoint-bindings job ref sha db = ground arith

module _ {ℓ} (Q : List Binding → Type ℓ)
    (insert : (q : CreateRequest) (run : String) (job i : ℕ) (bs : List Binding)
      → any (has_job job) bs ≡ false
      → Q bs
      → Q (bs ++ new_binding q run job i ∷ []))
    (write : (q : UpdateRequest) (job : ℕ) (b : Binding) (bs cs : List Binding)
      → is_terminal q.outcome ≡ true
      → find_binding job bs ≡ some b
      → stored_terminal b ≡ false
      → rejected q b ≡ false
      → Q bs
      → Q cs
      → Q (write_binding job (merged q) cs)) where
  abbrev Held : Db → Type ℓ
  Held e = Q e.bindings

  bound_keeps :
      (between : Db → Db) (i : String) (c run : ChangeRequest) (e : Db)
      → ((d : Db) → Held d → Held (between d))
      → Held e
      → Held (apply_change_request_binding between i c run e).0
  bound_keeps between i c run e keep h = apply_keeps Held between i c run e keep (λ d k. k) h

  bind_keeps :
      (between : Db → Db) (i : String) (c : ChangeRequest) (db : Db)
      → ((e : Db) → Held e → Held (between e))
      → Held db
      → Held (bind_change_request between i c db).0
  unfolding bind_change_request
  bind_keeps between i c db keep h = elim (Option-cases (find_run i db.runs)) [
    | inl lost ↦ rw (lost, bind_change_request) h
    | inr (r, there) ↦
        rw (there, bind_change_request) (bound_keeps between i c r.change_request db keep h)
  ]

  provision_keeps :
      (between : Db → Db) (p : Provision) (db after : Db) (r : ProvisionResult)
      → ((e : Db) → Held e → Held (between e))
      → provision_afk_run between p db ≡ ok (after, r)
      → Held db
      → Held after
  provision_keeps between p db after r keep e h = elim (provision-bindings between p db after r e) [
    | inl same ↦ rw same h
    | inr other ↦ rw other (keep db h)
  ]

  pub IsKept-bindings : IsKept Held
  unfolding transition
  IsKept-bindings = record {
    on_provision = provision_keeps;
    on_retitle = λ i title given db h. rw (update_afk_run-bindings i title given db) h;
    on_bind = bind_keeps;
    on_create = λ world q run job db keep still later h.
        create_keeps Held bound_keeps world q run job db keep still
          (λ r found fine free k. insert q run job _ _ free k) h;
    on_update = λ between q job db final locked keep h.
        update_keeps Held bound_keeps between q job db keep
          (λ b found live fine free k. write q job b db.bindings _ final found live fine h k) h;
    on_checkpoint = λ job ref sha db h. rw (create_checkpoint-bindings job ref sha db) h;
  }
