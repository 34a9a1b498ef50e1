-- ===== src/Provisioning.antt =====
-- afk_outcomes/repository/lifecycle.py: `provision_afk_run` and its helpers.
pub mod Replay
pub mod Keys
use opencode_gateway.Prelude.{
  ℕ, zero, suc, ◌+◌, ◌-◌, ◌≤◌, ◌<◌, String, ◌≡◌, refl, sym, ap, subst, ◌∙◌, ◌≢◌, ◌↔◌, ◌⊎◌, inl, inr,
  Bool, true, false, ◌&&◌, ◌||◌, not, Option, none, some, List, [], ◌∷◌, ◌++◌, map, arith, Eq,
  nat_eq, string_eq, option_eq, list_eq, ◌==◌, ◌/=◌, ltb, leb, if◌then◌else◌, is_none, is_some,
  coalesce, Bool-cases, Option-cases, length, length-append, head?, is_empty, find?, filter, any,
  All, contains, dedupe_from, dedupe,
}
use opencode_gateway.Domain.{
  Provider, TriggerType, ChangeRequest, unbound, provider_eq, trigger_eq, change_request_eq,
}
use opencode_gateway.Store.{Run, Delivery, Db, sql_eq, has_id, find_run, claims}
use opencode_gateway.Result.{Result, ok, raise, unique_violation}

-- The arguments of `provision_afk_run`; `new_ulid` is what `ulid_source.next_ulid()` returns.
pub record Provision : Type 0 where
  pub provider : Provider
  pub host : String
  pub source_event_id : String
  pub repository : String
  pub trigger_type : TriggerType
  pub title : Option String
  pub recovered_from : Option String
  pub deliveries : Option (List String)
  pub new_ulid : String

-- `ProvisionAFKRunResult`
pub record ProvisionResult : Type 0 where
  pub afk_run_id : String
  pub is_created : Bool
  pub is_conflict : Bool
  pub predecessor_missing : Bool

-- `list(dict.fromkeys(deliveries or []))`
unfoldable pub requested_deliveries : Provision → List String
requested_deliveries p = elim p.deliveries [ none ↦ [] | some ds ↦ dedupe ds ]

-- `provisioning_payload_matches`
unfoldable pub provisioning_payload_matches : Run → Provision → Bool
provisioning_payload_matches existing p =
    existing.repository == some p.repository
    && (existing.trigger_type == some p.trigger_type
        && (existing.title == p.title && existing.recovered_from == p.recovered_from))

-- `SELECT delivery_id FROM afk_run_delivery_batches WHERE afk_run_id = $1 ORDER BY position, id`:
-- the rows of one run are written by one INSERT, in the order of their positions.
unfoldable pub stored_deliveries : String → List Delivery → List String
stored_deliveries i [] = []
stored_deliveries i (d ∷ ds) =
    let rest = stored_deliveries i ds in if d.afk_run_id == i then d.delivery_id ∷ rest else rest

-- `_batch_provenance_matches`; its first argument after the run is `first_delivery_id`.
unfoldable pub batch_provenance_matches : String → Option String → List String → Db → Bool
unfolding stored_deliveries
batch_provenance_matches i first requested db =
    if is_none first && is_empty requested
    then true
    else stored_deliveries i db.deliveries == requested

-- `_insert_delivery_batch_rows`: ON CONFLICT (afk_run_id, delivery_id) DO NOTHING
unfoldable pub insert_delivery_batch_rows : String → List String → List Delivery → List Delivery
insert_delivery_batch_rows i [] rows = rows
insert_delivery_batch_rows i (d ∷ ds) rows = insert_delivery_batch_rows i ds (
    if any (λ (r : Delivery). r.afk_run_id == i && r.delivery_id == d) rows
    then rows
    else rows ++ record { afk_run_id = i; delivery_id = d } ∷ [])

-- `get_afk_run_batch_provenance`
unfoldable pub get_afk_run_batch_provenance : String → Db → Option String × List String
unfolding stored_deliveries find_run
get_afk_run_batch_provenance i db = elim (find_run i db.runs) [
  | none ↦ (none, [])
  | some r ↦ (r.first_delivery_id, stored_deliveries i db.deliveries)
]

-- The provisioning key: `WHERE provider = $1 AND host = $2 AND source_event_id = $3`
unfoldable pub has_key : Provision → Run → Bool
has_key p r =
    r.provider == p.provider
    && (sql_eq r.host (some p.host) && sql_eq r.source_event_id (some p.source_event_id))

-- The answer to a replay, from the row that holds the key.
unfoldable pub replay : Provision → Run → Db → ProvisionResult
replay p existing db =
    let ds = requested_deliveries p in
    let is_match =
      provisioning_payload_matches existing p
      && batch_provenance_matches existing.afk_run_id (head? ds) ds db in
    record {
      afk_run_id = existing.afk_run_id;
      is_created = false;
      is_conflict = not is_match;
      predecessor_missing = false;
    }

-- The inserted row.
abbrev pub provisioned : Provision → Run
provisioned p = record {
  afk_run_id = p.new_ulid;
  provider = p.provider;
  host = some p.host;
  source_event_id = some p.source_event_id;
  repository = some p.repository;
  trigger_type = some p.trigger_type;
  title = p.title;
  change_request = unbound;
  recovered_from = p.recovered_from;
  first_delivery_id = head? (requested_deliveries p);
}

-- The INSERT: it skips a row whose key is taken, and a taken `afk_run_id` raises. After a skip
-- the winner is read again.
unfoldable pub insert_run : Provision → Db → Result (Db × ProvisionResult)
insert_run p db =
    if any (has_key p) db.runs
    then elim (find? (has_key p) db.runs) [
      | some winner ↦ ok (db, replay p winner db)
      | none ↦ ok (
        db,
        record {
          afk_run_id = p.new_ulid;
          is_created = false;
          is_conflict = false;
          predecessor_missing = false;
        },
      )
    ]
    else if any (has_id p.new_ulid) db.runs
    then raise unique_violation
    else ok (
      record db {
        runs = db.runs ++ provisioned p ∷ [];
        deliveries = insert_delivery_batch_rows p.new_ulid (requested_deliveries p) db.deliveries;
      },
      record {
        afk_run_id = p.new_ulid;
        is_created = true;
        is_conflict = false;
        predecessor_missing = false;
      },
    )

unfoldable pub predecessor_missing : Provision → Db → Bool
unfolding find_run
predecessor_missing p db = elim p.recovered_from [
  | none ↦ false
  | some i ↦ is_none (find_run i db.runs)
]

-- `provision_afk_run`: `between` commits between the look-ups and the INSERT.
unfoldable pub provision_afk_run : (Db → Db) → Provision → Db → Result (Db × ProvisionResult)
provision_afk_run between p db = elim (find? (has_key p) db.runs) [
  | some existing ↦ ok (db, replay p existing db)
  | none ↦
      if predecessor_missing p db
      then ok (
        db,
        record {
          afk_run_id = p.new_ulid;
          is_created = false;
          is_conflict = false;
          predecessor_missing = true;
        },
      )
      else insert_run p (between db)
]
