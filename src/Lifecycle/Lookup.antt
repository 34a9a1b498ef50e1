-- ===== src/Lifecycle/Lookup.antt =====
-- `bind_change_request` and `get_afk_run_by_change_request`: the columns as a partial function
-- from change requests to lifecycles.
use opencode_gateway.Prelude.{
  ◌≤◌, String, ◌≡◌, refl, ap, subst, ◌↔◌, inl, inr, true, false, not, some, List, [], ◌∷◌, arith,
  nat_eq, string_eq, option_eq, list_eq, is_some, Bool-cases, Option-cases, length, filter-filter,
  nil_of_length, find?, filter,
}
use opencode_gateway.Domain.{ChangeRequest, provider_eq, change_request_eq}
use opencode_gateway.Store.{Run, Db, same_identity, has_id, find_run, claims}
use opencode_gateway.Lifecycle.{
  is_claimable, set_change_request, owns, apply_change_request_binding, bind_change_request,
  owner_of, get_afk_run_by_change_request,
}
use opencode_gateway.Lifecycle.Ownership.{
  OneToOne, PrimaryKey, same_identity-eq, owned, apply-OneToOne, apply-conflict,
}

-- Binding keeps every change request with at most one lifecycle, also when other
-- transactions that keep this commit between its statements.
pub bind-OneToOne :
    (between : Db → Db) (i : String) (c : ChangeRequest) (db : Db)
    → OneToOne db
    → OneToOne (between db)
    → OneToOne (bind_change_request between i c db).0
unfolding bind_change_request
bind-OneToOne between i c db h keep = elim (Option-cases (find_run i db.runs)) [
  | inl e ↦ rw (e, bind_change_request) h
  | inr (r, e) ↦ rw (e, bind_change_request) (apply-OneToOne between i c r.change_request db h keep)
]

-- Binding a change request with a provider to a lifecycle that exists reports a conflict exactly
-- when that lifecycle does not hold the change request afterwards. Run ids are unique, before and
-- after what commits in between.
pub bind-conflict :
    (between : Db → Db) (i : String) (c : ChangeRequest) (db : Db)
    → PrimaryKey db
    → PrimaryKey (between db)
    → is_some c.provider ≡ true
    → is_some (find_run i db.runs) ≡ true
    → (bind_change_request between i c db).1.is_conflict
      ≡ not (owns i c (bind_change_request between i c db).0)
unfolding bind_change_request
bind-conflict between i c db k keep s h = elim (Option-cases (find_run i db.runs)) [
  | inl e ↦ cc (e, h)
  | inr (r, e) ↦ rw (e, bind_change_request) (apply-conflict between i c db r k keep s e)
]

pub owned_stays :
    (i j : String) (c d : ChangeRequest) (rs : List Run)
    → is_some d.provider ≡ true
    → owned i d rs ≡ true
    → owned i d (set_change_request j c rs) ≡ true
unfolding find_run find? set_change_request is_claimable
owned_stays i j c d [] s h = h
owned_stays i j c d (r ∷ rs) s h = ground (arith, owned_stays i j c d rs s)

-- A change request that a lifecycle holds stays with it through any later binding, of that
-- lifecycle or of another, if it stays through what commits in between.
pub apply-owns :
    (between : Db → Db) (i j : String) (c d run : ChangeRequest) (db : Db)
    → is_some d.provider ≡ true
    → owns i d db ≡ true
    → owns i d (between db) ≡ true
    → owns i d (apply_change_request_binding between j c run db).0 ≡ true
unfolding apply_change_request_binding owns
apply-owns between i j c d run db s h keep =
    ground (arith, owned_stays i j c d (between db).runs s keep)

holder_owned :
    (c : ChangeRequest) (rs : List Run) (r : Run)
    → ((i : String) → length (filter (has_id i) rs) ≤ 1)
    → filter (claims c) rs ≡ r ∷ []
    → owned r.afk_run_id c rs ≡ true
unfolding find_run find? filter
holder_owned c [] r k e = ground arith
holder_owned c (x ∷ xs) r k e = ground (
  arith,
  k r.afk_run_id,
  same_identity-eq x.change_request c,
  filter-filter (claims c) (has_id r.afk_run_id) xs [] r,
  holder_owned c xs r (λ i. ground (arith, k i)),
)

owned_holder :
    (c : ChangeRequest) (i : String) (rs : List Run)
    → same_identity c c ≡ true
    → length (filter (claims c) rs) ≤ 1
    → owned i c rs ≡ true
    → (r : Run) × (filter (claims c) rs ≡ r ∷ []) × (r.afk_run_id ≡ i)
unfolding find_run find? filter
owned_holder c i [] s h e = cc
owned_holder c i (x ∷ xs) s h e = elim (Bool-cases (has_id i x)) [
  | inl here ↦ (x, ground (arith, nil_of_length (filter (claims c) xs)), ground arith)
  | inr there ↦
      let (r, one, same) = owned_holder c i xs s (ground arith) (ground arith) in
      (r, ground arith, same)
]

owner_of-no_conflict : (rows : List Run) → length rows ≤ 1 → (owner_of rows).is_conflict ≡ false
unfolding owner_of
owner_of-no_conflict [] h = refl
owner_of-no_conflict (r ∷ []) h = refl
owner_of-no_conflict (r ∷ s ∷ rows) h = absurd (omega arith)

owner_of-some :
    (i : String) (rows : List Run)
    → (owner_of rows).afk_run_id ≡ some i
    → (r : Run) × (rows ≡ r ∷ []) × (r.afk_run_id ≡ i)
unfolding owner_of
owner_of-some i [] h = cc
owner_of-some i (r ∷ []) h = (r, refl, cc)
owner_of-some i (r ∷ s ∷ rows) h = cc

-- While run ids are unique and the 1:1 rule holds, the lookup of a complete identity never reports a conflict, and it
-- names a lifecycle exactly when that lifecycle holds the change request.
pub lookup-owns :
    (c : ChangeRequest) (i : String) (db : Db)
    → PrimaryKey db
    → OneToOne db
    → same_identity c c ≡ true
    → ((get_afk_run_by_change_request c db).is_conflict ≡ false)
      × (((get_afk_run_by_change_request c db).afk_run_id ≡ some i) ↔ (owns i c db ≡ true))
unfolding get_afk_run_by_change_request owns
lookup-owns c i db k h s = (
  owner_of-no_conflict (filter (claims c) db.runs) (h c),
  (
    λ e.
        let (r, one, same) = owner_of-some i (filter (claims c) db.runs) e in
        subst (λ j. owned j c db.runs ≡ true) same (holder_owned c db.runs r k one),
    λ o.
        let (r, one, same) = owned_holder c i db.runs s (h c) o in
        rw (one, owner_of) (ap some same),
  ),
)
