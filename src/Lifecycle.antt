-- ===== src/Lifecycle.antt =====
-- afk_outcomes/repository/lifecycle.py: the AFK Run lifecycle. Another transaction may commit
-- between two statements of a method (READ COMMITTED); what it does is an argument, a function
-- on the tables, where the method has a branch for it. The field `afk_run_id` of a result is left
-- out where it repeats the argument.
pub mod Ownership
pub mod Lookup
pub mod Frame
use opencode_gateway.Prelude.{
  ℕ, zero, suc, ◌+◌, ◌-◌, ◌≤◌, ◌<◌, String, ◌≡◌, refl, sym, ap, subst, ◌∙◌, ◌≢◌, ◌↔◌, ◌⊎◌, inl, inr,
  Bool, true, false, ◌&&◌, ◌||◌, not, Option, none, some, List, [], ◌∷◌, ◌++◌, map, arith, Eq,
  nat_eq, string_eq, option_eq, list_eq, ◌==◌, ◌/=◌, ltb, leb, if◌then◌else◌, is_none, is_some,
  coalesce, Bool-cases, Option-cases, length, length-append, head?, is_empty, find?, filter, any,
  All, contains, dedupe_from, dedupe,
}
use opencode_gateway.Domain.{
  Provider, TriggerType, ChangeRequest, unbound, provider_eq, trigger_eq, change_request_eq,
}
use opencode_gateway.Store.{Run, Delivery, Db, sql_eq, has_id, find_run, claims}
use opencode_gateway.Result.{Result, ok, raise, unique_violation}

-- `UpdateAFKRunResult`
pub record UpdateRunResult : Type 0 where
  pub is_updated : Bool
  pub not_found : Bool

-- `ChangeRequestBindingResult`
pub record BindResult : Type 0 where
  pub is_bound : Bool
  pub is_conflict : Bool
  pub run_missing : Bool

-- `ChangeRequestLookupResult`
pub record LookupResult : Type 0 where
  pub afk_run_id : Option String
  pub is_conflict : Bool

abbrev pub bound : BindResult
bound = record { is_bound = true; is_conflict = false; run_missing = false }

abbrev pub matched : Bool → BindResult
matched is_match = record { is_bound = false; is_conflict = not is_match; run_missing = false }

abbrev pub missing : BindResult
missing = record { is_bound = false; is_conflict = false; run_missing = true }

-- `UPDATE afk_runs SET title = $2 WHERE afk_run_id = $1`
unfoldable pub set_title : String → Option String → List Run → List Run
set_title i t [] = []
set_title i t (r ∷ rs) = (if has_id i r then record r { title = t } else r) ∷ set_title i t rs

-- `update_afk_run`
unfoldable pub update_afk_run : String → Option String → Bool → Db → Db × UpdateRunResult
update_afk_run i title provided db = elim (find_run i db.runs) [
  | none ↦ (db, record { is_updated = false; not_found = true })
  | some row ↦
      let new_title = if provided then title else row.title in
      if not (provided && row.title /= new_title)
      then (db, record { is_updated = false; not_found = false })
      else (
        record db { runs = set_title i new_title db.runs },
        record { is_updated = true; not_found = false },
      )
]

-- The rows that `UPDATE … WHERE afk_run_id = $1 AND change_request_provider IS NULL` changes.
unfoldable pub is_claimable : String → Run → Bool
is_claimable i r = has_id i r && is_none r.change_request.provider

unfoldable pub set_change_request : String → ChangeRequest → List Run → List Run
set_change_request i c [] = []
set_change_request i c (r ∷ rs) =
    (if is_claimable i r then record r { change_request = c } else r) ∷ set_change_request i c rs

-- The re-read of the run and the comparison of its whole tuple.
unfoldable pub owns : String → ChangeRequest → Db → Bool
unfolding find_run
owns i c db = elim (find_run i db.runs) [ none ↦ false | some r ↦ r.change_request == c ]

-- The savepoint with the UPDATE. `claims` is false unless all three columns are non-NULL, as in
-- the partial unique index `uq_afk_runs_change_request_identity`: a row that holds the identity
-- makes the UPDATE of another row raise `UniqueViolationError`, which is caught.
unfoldable pub claim_change_request : String → ChangeRequest → Db → Db × BindResult
unfolding owns
claim_change_request i c db =
    let hits = length (filter (is_claimable i) db.runs) in
    if not (hits == 0) && any (claims c) db.runs
    then (db, matched false)
    else if hits == 1
    then (record db { runs = set_change_request i c db.runs }, bound)
    else (db, matched (owns i c db))

-- `_apply_change_request_binding`: `run` holds the columns that the caller has read, and
-- `between` is what commits between the pre-check and the next statement.
unfoldable pub apply_change_request_binding :
    (Db → Db) → String → ChangeRequest → ChangeRequest → Db → Db × BindResult
unfolding claim_change_request
apply_change_request_binding between i c run db =
    if is_some run.provider then (db, matched (run == c)) else elim (find? (claims c) db.runs) [
      | some other ↦
          if other.afk_run_id == i
          then (between db, matched (owns i c (between db)))
          else (db, matched false)
      | none ↦ claim_change_request i c (between db)
    ]

-- `bind_change_request`
unfoldable pub bind_change_request : (Db → Db) → String → ChangeRequest → Db → Db × BindResult
unfolding apply_change_request_binding
bind_change_request between i c db = elim (find_run i db.runs) [
  | none ↦ (db, missing)
  | some run ↦ apply_change_request_binding between i c run.change_request db
]

-- `get_afk_run_by_change_request`, on the rows that the query returns
unfoldable pub owner_of : List Run → LookupResult
owner_of [] = record { afk_run_id = none; is_conflict = false }
owner_of (row ∷ []) = record { afk_run_id = some row.afk_run_id; is_conflict = false }
owner_of (row ∷ other ∷ rows) = record { afk_run_id = none; is_conflict = true }

unfoldable pub get_afk_run_by_change_request : ChangeRequest → Db → LookupResult
unfolding owner_of
get_afk_run_by_change_request c db = owner_of (filter (claims c) db.runs)
