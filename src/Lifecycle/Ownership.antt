-- ===== src/Lifecycle/Ownership.antt =====
-- The 1:1 rule of `_apply_change_request_binding`: no change request has two lifecycles.
use opencode_gateway.Prelude.{
  ◌+◌, ◌≤◌, String, ◌≡◌, refl, Bool, true, false, not, none, some, List, [], ◌∷◌, arith, nat_eq,
  string_eq, option_eq, list_eq, ◌==◌, if◌then◌else◌, is_some, length, length-filter_none, find?,
  filter,
}
use opencode_gateway.Domain.{ChangeRequest, provider_eq, change_request_eq}
use opencode_gateway.Store.{Run, Db, same_identity, has_id, find_run, claims}
use opencode_gateway.Lifecycle.{
  is_claimable, set_change_request, owns, claim_change_request, apply_change_request_binding,
}

-- A change request identity is held by at most one lifecycle.
abbrev pub OneToOne : Db → Type 0
OneToOne db = (c : ChangeRequest) → length (filter (claims c) db.runs) ≤ 1

pub same_identity-eq : (c d : ChangeRequest) → same_identity c d ≡ true → c ≡ d
unfolding same_identity
same_identity-eq c d h = ground arith

claimable-not-claims :
    (i : String) (d : ChangeRequest) (r : Run) → is_claimable i r ≡ true → claims d r ≡ false
unfolding same_identity is_claimable
claimable-not-claims i d r h = ground arith

-- The rows that hold `d` after the UPDATE are those before it, and the changed ones if they now
-- hold it.
claims-set_change_request :
    (i : String) (c d : ChangeRequest) (rs : List Run)
    → length (filter (claims d) (set_change_request i c rs))
      ≡ length (filter (claims d) rs)
        + (if same_identity c d then length (filter (is_claimable i) rs) else 0)
unfolding filter set_change_request
claims-set_change_request i c d [] = ground arith
claims-set_change_request i c d (r ∷ rs) =
    ground (arith, claimable-not-claims i d r, claims-set_change_request i c d rs)

same_identity_trans :
    (s c d : ChangeRequest) → same_identity c d ≡ true → same_identity s d ≡ same_identity s c
same_identity_trans s c d h = rw (same_identity-eq c d h)

claim-OneToOne :
    (i : String) (c : ChangeRequest) (db : Db)
    → OneToOne db
    → OneToOne (claim_change_request i c db).0
unfolding claim_change_request
claim-OneToOne i c db h d = ground (
  arith,
  h d,
  claims-set_change_request i c d db.runs,
  length-filter_none (claims c) db.runs,
  same_identity-eq c d,
)

-- The key of `afk_runs`: at most one row has a given id.
abbrev pub PrimaryKey : Db → Type 0
PrimaryKey db = (i : String) → length (filter (has_id i) db.runs) ≤ 1

claimable-le-id :
    (i : String) (rs : List Run)
    → length (filter (is_claimable i) rs) ≤ length (filter (has_id i) rs)
unfolding filter is_claimable
claimable-le-id i [] = ground arith
claimable-le-id i (r ∷ rs) = ground (arith, claimable-le-id i rs)

has_id-set_change_request :
    (i j : String) (c : ChangeRequest) (rs : List Run)
    → length (filter (has_id j) (set_change_request i c rs)) ≡ length (filter (has_id j) rs)
unfolding filter set_change_request
has_id-set_change_request i j c [] = refl
has_id-set_change_request i j c (r ∷ rs) = ground (arith, has_id-set_change_request i j c rs)

-- `owns`, on the rows
abbrev pub owned : String → ChangeRequest → List Run → Bool
owned i c rs = elim (find_run i rs) [ none ↦ false | some r ↦ r.change_request == c ]

owned-set_change_request :
    (i : String) (c : ChangeRequest) (rs : List Run)
    → length (filter (has_id i) rs) ≤ 1
    → length (filter (is_claimable i) rs) ≡ 1
    → owned i c (set_change_request i c rs) ≡ true
unfolding filter set_change_request find_run find? is_claimable
owned-set_change_request i c [] k h = ground arith
owned-set_change_request i c (r ∷ rs) k h =
    ground (arith, claimable-le-id i rs, owned-set_change_request i c rs)

-- A run that can be claimed owns nothing.
claimable-not-owned :
    (i : String) (c : ChangeRequest) (rs : List Run)
    → is_some c.provider ≡ true
    → length (filter (has_id i) rs) ≤ 1
    → (length (filter (is_claimable i) rs) == 0) ≡ false
    → owned i c rs ≡ false
unfolding filter find_run find? is_claimable
claimable-not-owned i c [] s k h = ground arith
claimable-not-owned i c (r ∷ rs) s k h =
    ground (arith, claimable-le-id i rs, claimable-not-owned i c rs)

claim-conflict :
    (i : String) (c : ChangeRequest) (db : Db)
    → PrimaryKey db
    → is_some c.provider ≡ true
    → (claim_change_request i c db).1.is_conflict ≡ not (owns i c (claim_change_request i c db).0)
unfolding claim_change_request
claim-conflict i c db k s =
    ground (arith, k i, claimable-not-owned i c db.runs, owned-set_change_request i c db.runs)

pub apply-OneToOne :
    (between : Db → Db) (i : String) (c run : ChangeRequest) (db : Db)
    → OneToOne db
    → OneToOne (between db)
    → OneToOne (apply_change_request_binding between i c run db).0
unfolding apply_change_request_binding
apply-OneToOne between i c run db h keep =
    let claimed : OneToOne (claim_change_request i c (between db)).0 =
      claim-OneToOne i c (between db) keep in
    λ d. ground (arith, h d, keep d, claimed d)

claim-PrimaryKey :
    (i : String) (c : ChangeRequest) (db : Db)
    → PrimaryKey db
    → PrimaryKey (claim_change_request i c db).0
unfolding claim_change_request
claim-PrimaryKey i c db h j = ground (arith, h j, has_id-set_change_request i j c db.runs)

pub apply-PrimaryKey :
    (between : Db → Db) (i : String) (c run : ChangeRequest) (db : Db)
    → PrimaryKey db
    → PrimaryKey (between db)
    → PrimaryKey (apply_change_request_binding between i c run db).0
unfolding apply_change_request_binding
apply-PrimaryKey between i c run db h keep =
    let claimed : PrimaryKey (claim_change_request i c (between db)).0 =
      claim-PrimaryKey i c (between db) keep in
    λ j. ground (arith, h j, keep j, claimed j)

pub apply-conflict :
    (between : Db → Db) (i : String) (c : ChangeRequest) (db : Db) (r : Run)
    → PrimaryKey db
    → PrimaryKey (between db)
    → is_some c.provider ≡ true
    → find_run i db.runs ≡ some r
    → (apply_change_request_binding between i c r.change_request db).1.is_conflict
      ≡ not (owns i c (apply_change_request_binding between i c r.change_request db).0)
unfolding apply_change_request_binding owns
apply-conflict between i c db r k keep s found =
    let claim = claim-conflict i c (between db) keep s in ground (arith, claim)
