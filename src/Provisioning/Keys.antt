-- ===== src/Provisioning/Keys.antt =====
-- Provisioning keeps the three uniqueness rules of `afk_runs`.
use opencode_gateway.Prelude.{
  ◌≤◌, String, ◌≡◌, subst, ◌⊎◌, inl, inr, true, false, List, [], ◌∷◌, ◌++◌, arith, nat_eq,
  string_eq, option_eq, list_eq, Bool-cases, Option-cases, length, length-filter_none,
  length-filter-append, length-filter-ext, find?, filter, any,
}
use opencode_gateway.Domain.{ChangeRequest, provider_eq, trigger_eq, change_request_eq}
use opencode_gateway.Store.{Run, Db, has_id, claims, same_identity}
use opencode_gateway.Result.{ok}
use opencode_gateway.Prelude.Tests.{string_discrete}
use opencode_gateway.Provisioning.{
  Provision, ProvisionResult, has_key, provisioned, insert_run, predecessor_missing,
  provision_afk_run,
}

-- The uniqueness rules of `afk_runs`: of the id, of the provisioning key (provider, host,
-- source_event_id), and of the change request.
pub record IsKeyed (rs : List Run) : Type 0 where
  pub id : (i : String) → length (filter (has_id i) rs) ≤ 1
  pub key : (p : Provision) → length (filter (has_key p) rs) ≤ 1
  pub owner : (c : ChangeRequest) → length (filter (claims c) rs) ≤ 1

same_key :
    (p q : Provision) (r : Run) → has_key q (provisioned p) ≡ true → has_key q r ≡ has_key p r
unfolding has_key
same_key p q r h = ground arith

insert_id :
    (p : Provision) (rs : List Run)
    → any (has_id p.new_ulid) rs ≡ false
    → ((i : String) → length (filter (has_id i) rs) ≤ 1)
    → (i : String) → length (filter (has_id i) (rs ++ provisioned p ∷ [])) ≤ 1
unfolding filter
insert_id p rs free h i = elim (string_discrete p.new_ulid i) [
  | yes e ↦
      subst (λ j. length (filter (has_id j) (rs ++ provisioned p ∷ [])) ≤ 1) e
        (rw
          (
            length-filter-append (has_id p.new_ulid) rs (provisioned p ∷ []),
            length-filter_none (has_id p.new_ulid) rs free,
          )
          (ground arith))
  | no e ↦ ground (arith, h i, length-filter-append (has_id i) rs (provisioned p ∷ []))
]

insert_key :
    (p : Provision) (rs : List Run)
    → any (has_key p) rs ≡ false
    → ((q : Provision) → length (filter (has_key q) rs) ≤ 1)
    → (q : Provision) → length (filter (has_key q) (rs ++ provisioned p ∷ [])) ≤ 1
unfolding filter
insert_key p rs free h q = ground (
  arith,
  h q,
  length-filter-append (has_key q) rs (provisioned p ∷ []),
  length-filter_none (has_key p) rs free,
  λ (e : has_key q (provisioned p) ≡ true).
      length-filter-ext (has_key q) (has_key p) rs (λ r. same_key p q r e),
)

insert_owner :
    (p : Provision) (rs : List Run)
    → ((c : ChangeRequest) → length (filter (claims c) rs) ≤ 1)
    → (c : ChangeRequest) → length (filter (claims c) (rs ++ provisioned p ∷ [])) ≤ 1
unfolding filter same_identity
insert_owner p rs h c = ground (arith, h c, length-filter-append (claims c) rs (provisioned p ∷ []))

pub insert_cases :
    (p : Provision) (db after : Db) (r : ProvisionResult)
    → insert_run p db ≡ ok (after, r)
    → (after.runs ≡ db.runs)
      ⊎ ((any (has_key p) db.runs ≡ false)
          × (any (has_id p.new_ulid) db.runs ≡ false)
          × (after.runs ≡ db.runs ++ provisioned p ∷ []))
unfolding insert_run
insert_cases p db after r e = ground arith

insert-IsKeyed :
    (p : Provision) (db after : Db) (r : ProvisionResult)
    → IsKeyed db.runs
    → insert_run p db ≡ ok (after, r)
    → IsKeyed after.runs
insert-IsKeyed p db after r h e = elim (insert_cases p db after r e) [
  | inl same ↦ rw same h
  | inr (free, new, more) ↦ rw more (record {
    id = insert_id p db.runs new h.id;
    key = insert_key p db.runs free h.key;
    owner = insert_owner p db.runs h.owner;
  })
]

-- Provisioning keeps every uniqueness rule, whatever else commits that keeps them too.
pub provision-IsKeyed :
    (between : Db → Db) (p : Provision) (db after : Db) (r : ProvisionResult)
    → IsKeyed db.runs
    → IsKeyed (between db).runs
    → provision_afk_run between p db ≡ ok (after, r)
    → IsKeyed after.runs
unfolding provision_afk_run
provision-IsKeyed between p db after r h k e = elim (Option-cases (find? (has_key p) db.runs)) [
  | inl absent ↦ elim (Bool-cases (predecessor_missing p db)) [
    | inl lost ↦ let same : db ≡ after = ground arith in subst (λ (d : Db). IsKeyed d.runs) same h
    | inr there ↦ insert-IsKeyed p (between db) after r k (ground arith)
  ]
  | inr (row, found) ↦
      let same : db ≡ after = ground arith in subst (λ (d : Db). IsKeyed d.runs) same h
]
