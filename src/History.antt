-- ===== src/History.antt =====
-- The histories of the tables: any sequence of calls of the repository's write methods, in which
-- further histories may run between the statements of one call. While a terminal update holds its
-- row with FOR UPDATE, what runs in between leaves that row alone (`IsLocked`).
mod Bindings
pub mod Keys
pub mod Ownership
pub mod Authority
pub mod Terminal
use opencode_gateway.Prelude.{
  ℕ, zero, suc, ◌+◌, ◌-◌, ◌≤◌, ◌<◌, String, ◌≡◌, refl, sym, ap, subst, ◌∙◌, ◌≢◌, ◌↔◌, ◌⊎◌, inl, inr,
  Bool, true, false, ◌&&◌, ◌||◌, not, Option, none, some, List, [], ◌∷◌, ◌++◌, map, arith, Eq,
  nat_eq, string_eq, option_eq, list_eq, ◌==◌, ◌/=◌, ltb, leb, if◌then◌else◌, is_none, is_some,
  coalesce, Bool-cases, Option-cases, length, length-append, length-filter_none, filter-filter,
  nil_of_length, any-find, find-append, find-append_found, find-holds, length-filter-append,
  length-filter-ext, head?, is_empty, find?, filter, any, All, contains, dedupe_from, dedupe,
  DistinctFrom, dedupe_from-DistinctFrom, contains-append, contains-dedupe_from,
}
use opencode_gateway.Domain.{ChangeRequest, is_terminal}
use opencode_gateway.Store.{Db}
use opencode_gateway.Result.{ok}
use opencode_gateway.Lifecycle.{update_afk_run, bind_change_request}
use opencode_gateway.Provisioning.{Provision, ProvisionResult, provision_afk_run}
use opencode_gateway.Creation.{CreateRequest, Interference, create_or_replay}
use opencode_gateway.Terminal.{UpdateRequest, update_terminal}
use opencode_gateway.Terminal.Transition.{IsLocked}
use opencode_gateway.Checkpoints.{create_checkpoint}

pub data Reach : Db → Db → Type 0 where
  start : {s t : Db} → t ≡ s → Reach s t
  provision :
      {s t u : Db}
      → Reach s t
      → (between : Db → Db) → ((e : Db) → Reach e (between e))
      → (p : Provision) (r : ProvisionResult) → provision_afk_run between p t ≡ ok (u, r)
      → Reach s u
  retitle :
      {s t u : Db}
      → Reach s t
      → (i : String) (title : Option String) (given : Bool) → u ≡ (update_afk_run i title given t).0
      → Reach s u
  bind :
      {s t u : Db}
      → Reach s t
      → (between : Db → Db) → ((e : Db) → Reach e (between e))
      → (i : String) (c : ChangeRequest) → u ≡ (bind_change_request between i c t).0
      → Reach s u
  create :
      {s t u : Db}
      → Reach s t
      → (world : Interference) → ((e : Db) → Reach e (world.in_binding e))
      → ((e : Db) → Reach e (world.before_insert e))
      → (q : CreateRequest) (run : String) (job : ℕ) → u ≡ (create_or_replay world q run job t).0
      → Reach s u
  update :
      {s t u : Db}
      → Reach s t
      → (between : Db → Db) → ((e : Db) → Reach e (between e))
      → (q : UpdateRequest) → is_terminal q.outcome ≡ true
      → (job : ℕ) → IsLocked job between
      → u ≡ (update_terminal between q job t).0
      → Reach s u
  checkpoint :
      {s t u : Db}
      → Reach s t
      → (job : ℕ) (ref sha : String) → u ≡ (create_checkpoint job ref sha t).0
      → Reach s u

-- Every write keeps `P`, if what commits between its statements does.
pub record IsKept {ℓ} (P : Db → Type ℓ) : Type ℓ where
  pub on_provision :
      (between : Db → Db) (p : Provision) (db after : Db) (r : ProvisionResult)
      → ((e : Db) → P e → P (between e))
      → provision_afk_run between p db ≡ ok (after, r)
      → P db
      → P after
  pub on_retitle :
      (i : String) (title : Option String) (given : Bool) (db : Db)
      → P db
      → P (update_afk_run i title given db).0
  pub on_bind :
      (between : Db → Db) (i : String) (c : ChangeRequest) (db : Db)
      → ((e : Db) → P e → P (between e))
      → P db
      → P (bind_change_request between i c db).0
  pub on_create :
      (world : Interference) (q : CreateRequest) (run : String) (job : ℕ) (db : Db)
      → ((e : Db) → P e → P (world.in_binding e))
      → ((e : Db) → P e → P (world.before_insert e))
      → ((e : Db) → Reach e (world.before_insert e))
      → P db
      → P (create_or_replay world q run job db).0
  pub on_update :
      (between : Db → Db) (q : UpdateRequest) (job : ℕ) (db : Db)
      → is_terminal q.outcome ≡ true
      → IsLocked job between
      → ((e : Db) → P e → P (between e))
      → P db
      → P (update_terminal between q job db).0
  pub on_checkpoint :
      (job : ℕ) (ref sha : String) (db : Db) → P db → P (create_checkpoint job ref sha db).0

-- What every write keeps holds along every history.
pub Reach_induction {ℓ} : {P : Db → Type ℓ} → IsKept P → {s t : Db} → Reach s t → P s → P t
Reach_induction {P} k (start e) h = subst P (sym e) h
Reach_induction {P} k (provision before between quiet p r e) h =
    k.on_provision between p _ _ r (λ d. Reach_induction k (quiet d)) e (Reach_induction k before h)
Reach_induction {P} k (retitle before i title given e) h =
    subst P (sym e) (k.on_retitle i title given _ (Reach_induction k before h))
Reach_induction {P} k (bind before between quiet i c e) h =
    subst P (sym e)
      (k.on_bind between i c _ (λ d. Reach_induction k (quiet d)) (Reach_induction k before h))
Reach_induction {P} k (create before world quiet still q run job e) h = subst P (sym e) (
    k.on_create world q run job _ (λ d. Reach_induction k (quiet d))
      (λ d. Reach_induction k (still d)) still (Reach_induction k before h))
Reach_induction {P} k (update before between quiet q final job locked e) h = subst P (sym e) (
    k.on_update between q job _ final locked (λ d. Reach_induction k (quiet d))
      (Reach_induction k before h))
Reach_induction {P} k (checkpoint before job ref sha e) h =
    subst P (sym e) (k.on_checkpoint job ref sha _ (Reach_induction k before h))
