-- ===== src/History/Ownership.antt =====
-- A change request that a lifecycle holds stays with it.
use opencode_gateway.Prelude.{
  ℕ, String, ◌≡◌, refl, ◌⊎◌, inl, inr, Bool, true, Option, List, [], ◌∷◌, ◌++◌, arith, nat_eq,
  string_eq, option_eq, list_eq, is_some, Option-cases, find-append_found, find?,
}
use opencode_gateway.Domain.{ChangeRequest, change_request_eq}
use opencode_gateway.Store.{Run, Db, has_id, find_run}
use opencode_gateway.Result.{ok}
use opencode_gateway.Lifecycle.{
  set_title, update_afk_run, owns, bind_change_request, apply_change_request_binding,
}
use opencode_gateway.Lifecycle.Ownership.{owned}
use opencode_gateway.Lifecycle.Lookup.{apply-owns}
use opencode_gateway.Provisioning.{
  Provision, ProvisionResult, provisioned, insert_run, provision_afk_run,
}
use opencode_gateway.Creation.Frame.{create_keeps}
use opencode_gateway.Terminal.{transition}
use opencode_gateway.Terminal.Frame.{update_keeps}
use opencode_gateway.Checkpoints.{create_checkpoint}
use opencode_gateway.History.{Reach, IsKept, Reach_induction}

pub owned-set_title :
    (i j : String) (d : ChangeRequest) (title : Option String) (rs : List Run)
    → owned i d (set_title j title rs) ≡ owned i d rs
unfolding find_run find? set_title
owned-set_title i j d title [] = refl
owned-set_title i j d title (r ∷ rs) = ground (arith, owned-set_title i j d title rs)

pub owned-append :
    (i : String) (d : ChangeRequest) (rs more : List Run)
    → owned i d rs ≡ true
    → owned i d (rs ++ more) ≡ true
unfolding find_run
owned-append i d rs more h = elim (Option-cases (find? (has_id i) rs)) [
  | inl absent ↦ ground arith
  | inr (r, found) ↦ let later = find-append_found (has_id i) rs more r found in ground arith
]

pub provision-runs :
    (between : Db → Db) (p : Provision) (db after : Db) (r : ProvisionResult)
    → provision_afk_run between p db ≡ ok (after, r)
    → (after.runs ≡ db.runs)
      ⊎ (after.runs ≡ (between db).runs)
      ⊎ (after.runs ≡ (between db).runs ++ provisioned p ∷ [])
unfolding provision_afk_run insert_run
provision-runs between p db after r e = ground arith

module _ (i : String) (d : ChangeRequest) (held : is_some d.provider ≡ true) where
  abbrev Holds : Db → Type 0
  Holds e = owned i d e.runs ≡ true

  apply-Holds :
      (between : Db → Db) (j : String) (c run : ChangeRequest) (db : Db)
      → ((e : Db) → Holds e → Holds (between e))
      → Holds db
      → Holds (apply_change_request_binding between j c run db).0
  unfolding owns
  apply-Holds between j c run db keep h = apply-owns between i j c d run db held h (keep db h)

  bind-Holds :
      (between : Db → Db) (j : String) (c : ChangeRequest) (db : Db)
      → ((e : Db) → Holds e → Holds (between e))
      → Holds db
      → Holds (bind_change_request between j c db).0
  unfolding bind_change_request
  bind-Holds between j c db keep h = elim (Option-cases (find_run j db.runs)) [
    | inl lost ↦ rw (lost, bind_change_request) h
    | inr (r, there) ↦
        rw (there, bind_change_request) (apply-Holds between j c r.change_request db keep h)
  ]

  retitle-Holds :
      (j : String) (title : Option String) (given : Bool) (db : Db)
      → Holds db
      → Holds (update_afk_run j title given db).0
  unfolding update_afk_run
  retitle-Holds j title given db h = ground (
    arith,
    owned-set_title i j d title db.runs,
    λ (r : Run). owned-set_title i j d r.title db.runs,
  )

  provision-Holds :
      (between : Db → Db) (p : Provision) (db after : Db) (r : ProvisionResult)
      → ((e : Db) → Holds e → Holds (between e))
      → provision_afk_run between p db ≡ ok (after, r)
      → Holds db
      → Holds after
  provision-Holds between p db after r keep e h = elim (provision-runs between p db after r e) [
    | inl same ↦ rw same h
    | inr (inl other) ↦ rw other (keep db h)
    | inr (inr new) ↦ rw new (owned-append i d (between db).runs (provisioned p ∷ []) (keep db h))
  ]

  checkpoint-Holds :
      (job : ℕ) (ref sha : String) (db : Db) → Holds db → Holds (create_checkpoint job ref sha db).0
  unfolding create_checkpoint
  checkpoint-Holds job ref sha db h = ground arith

  Holds-IsKept : IsKept Holds
  unfolding transition
  Holds-IsKept = record {
    on_provision = provision-Holds;
    on_retitle = retitle-Holds;
    on_bind = bind-Holds;
    on_create = λ world q run job db keep still later h.
        create_keeps Holds apply-Holds world q run job db keep still (λ r found fine free k. k) h;
    on_update = λ between q job db final locked keep h.
        update_keeps Holds apply-Holds between q job db keep (λ b found live fine free k. k) h;
    on_checkpoint = checkpoint-Holds;
  }

-- A change request with a provider that a lifecycle holds stays with that lifecycle through every
-- history of calls: it is written once.
pub ownership_stays :
    (i : String) (c : ChangeRequest) {before after : Db}
    → is_some c.provider ≡ true
    → owns i c before ≡ true
    → Reach before after
    → owns i c after ≡ true
unfolding owns
ownership_stays i c held h history = Reach_induction (Holds-IsKept i c held) history h
