-- ===== src/History/Authority/Runs.antt =====
-- The authority through the writes of `afk_runs`.
use opencode_gateway.Prelude.{
  String, ◌≡◌, ◌∙◌, ◌⊎◌, inl, inr, Bool, Option, List, [], ◌∷◌, ◌++◌, arith, nat_eq, string_eq,
  option_eq, list_eq, Option-cases,
}
use opencode_gateway.Domain.{ChangeRequest, change_request_eq}
use opencode_gateway.Store.{Run, Binding, Db, find_run}
use opencode_gateway.Result.{ok}
use opencode_gateway.Lifecycle.{
  set_title, set_change_request, update_afk_run, bind_change_request, apply_change_request_binding,
}
use opencode_gateway.Lifecycle.Lookup.{owned_stays}
use opencode_gateway.Lifecycle.Frame.{apply_cases}
use opencode_gateway.Provisioning.{
  Provision, ProvisionResult, provisioned, insert_run, provision_afk_run,
}
use opencode_gateway.History.Bindings.{update_afk_run-bindings}
use opencode_gateway.History.Keys.{apply-IsKeyed_at, retitle_cases}
use opencode_gateway.History.Ownership.{owned-append, owned-set_title}
use opencode_gateway.History.Authority.{authorised_stays, AllAuthorised, IsConsistent}

pub set_authority :
    (i : String) (c : ChangeRequest) (e : Db)
    → AllAuthorised e.runs e.bindings
    → AllAuthorised (set_change_request i c e.runs) e.bindings
set_authority i c e h job b found =
    authorised_stays e.runs (set_change_request i c e.runs) b
      (λ j d s k. owned_stays j i c d e.runs s k) (h job b found)

pub apply_authority :
    (between : Db → Db) (i : String) (c run : ChangeRequest) (e : Db)
    → ((d : Db) → IsConsistent d → IsConsistent (between d))
    → IsConsistent e
    → IsConsistent (apply_change_request_binding between i c run e).0
apply_authority between i c run e keep h = record {
  keys = apply-IsKeyed_at between i c run e h.keys (keep e h).keys;
  authority = elim (apply_cases between i c run e) [
    | inl same ↦ rw same h.authority
    | inr (inl other) ↦ rw other (keep e h).authority
    | inr (inr new) ↦ rw new (set_authority i c (between e) (keep e h).authority)
  ];
}

pub bind_authority :
    (between : Db → Db) (i : String) (c : ChangeRequest) (db : Db)
    → ((e : Db) → IsConsistent e → IsConsistent (between e))
    → IsConsistent db
    → IsConsistent (bind_change_request between i c db).0
unfolding bind_change_request
bind_authority between i c db keep h = elim (Option-cases (find_run i db.runs)) [
  | inl lost ↦ rw (lost, bind_change_request) h
  | inr (r, there) ↦
      rw (there, bind_change_request) (apply_authority between i c r.change_request db keep h)
]

pub append_authority :
    (more rs : List Run) (bs : List Binding) → AllAuthorised rs bs → AllAuthorised (rs ++ more) bs
append_authority more rs bs h job b found =
    authorised_stays rs (rs ++ more) b (λ i d s k. owned-append i d rs more k) (h job b found)

pub provision_tables :
    (between : Db → Db) (p : Provision) (db after : Db) (r : ProvisionResult)
    → provision_afk_run between p db ≡ ok (after, r)
    → (after ≡ db)
      ⊎ (after ≡ between db)
      ⊎ ((after.runs ≡ (between db).runs ++ provisioned p ∷ [])
          × (after.bindings ≡ (between db).bindings))
unfolding provision_afk_run insert_run
provision_tables between p db after r e = ground arith

pub provision_authority :
    (between : Db → Db) (p : Provision) (db after : Db) (r : ProvisionResult)
    → provision_afk_run between p db ≡ ok (after, r)
    → AllAuthorised db.runs db.bindings
    → AllAuthorised (between db).runs (between db).bindings
    → AllAuthorised after.runs after.bindings
provision_authority between p db after r e h k = elim (provision_tables between p db after r e) [
  | inl same ↦ rw same h
  | inr (inl other) ↦ rw other k
  | inr (inr (runs, bindings)) ↦
      rw (runs, bindings)
        (append_authority (provisioned p ∷ []) (between db).runs (between db).bindings k)
]

pub title_authority :
    (i : String) (title : Option String) (rs : List Run) (bs : List Binding)
    → AllAuthorised rs bs
    → AllAuthorised (set_title i title rs) bs
title_authority i title rs bs h job b found =
    authorised_stays rs (set_title i title rs) b (λ j d s k. owned-set_title j i d title rs ∙ k)
      (h job b found)

pub retitle_authority :
    (i : String) (title : Option String) (given : Bool) (db : Db)
    → AllAuthorised db.runs db.bindings
    → let e = (update_afk_run i title given db).0 in AllAuthorised e.runs e.bindings
retitle_authority i title given db h =
    rw (update_afk_run-bindings i title given db) (elim (retitle_cases i title given db) [
      | inl same ↦ rw same h
      | inr new ↦ rw new (title_authority i title db.runs db.bindings h)
    ])
