-- ===== src/Lifecycle/Frame.antt =====
-- What `_apply_change_request_binding` can leave behind: the tables as they were, as the other
-- transactions left them, or with the change request of one run set.
use opencode_gateway.Prelude.{
  String, ◌≡◌, sym, subst, ◌⊎◌, inl, inr, arith, nat_eq, string_eq, option_eq, list_eq,
}
use opencode_gateway.Domain.{ChangeRequest}
use opencode_gateway.Store.{Db}
use opencode_gateway.Lifecycle.{
  set_change_request, claim_change_request, apply_change_request_binding,
}

abbrev pub claimed : String → ChangeRequest → Db → Db
claimed i c db = record db { runs = set_change_request i c db.runs }

claim_cases :
    (i : String) (c : ChangeRequest) (db : Db)
    → ((claim_change_request i c db).0 ≡ db) ⊎ ((claim_change_request i c db).0 ≡ claimed i c db)
unfolding claim_change_request
claim_cases i c db = ground arith

pub apply_cases :
    (between : Db → Db) (i : String) (c run : ChangeRequest) (db : Db)
    → let after = (apply_change_request_binding between i c run db).0 in
      (after ≡ db) ⊎ (after ≡ between db) ⊎ (after ≡ claimed i c (between db))
unfolding apply_change_request_binding
apply_cases between i c run db = ground (arith, claim_cases i c (between db))

-- A property of the tables that the other transactions and the UPDATE of one run keep is kept.
pub apply_keeps {ℓ} :
    (P : Db → Type ℓ) (between : Db → Db) (i : String) (c run : ChangeRequest) (db : Db)
    → ((e : Db) → P e → P (between e))
    → ((e : Db) → P e → P (claimed i c e))
    → P db
    → P (apply_change_request_binding between i c run db).0
apply_keeps P between i c run db keep set h = elim (apply_cases between i c run db) [
  | inl same ↦ subst P (sym same) h
  | inr (inl other) ↦ subst P (sym other) (keep db h)
  | inr (inr new) ↦ subst P (sym new) (set (between db) (keep db h))
]
