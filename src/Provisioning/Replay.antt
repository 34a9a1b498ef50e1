-- ===== src/Provisioning/Replay.antt =====
-- Provisioning is idempotent, and its key is unique.
use opencode_gateway.Prelude.{
  String, ◌≡◌, refl, sym, ◌∙◌, ◌≢◌, true, false, ◌&&◌, Option, none, some, List, [], ◌∷◌, ◌++◌,
  arith, nat_eq, string_eq, option_eq, list_eq, ◌==◌, if◌then◌else◌, any-find, find-append, find?,
  any, contains, DistinctFrom, dedupe_from-DistinctFrom, contains-append,
}
use mathlib.Core.List.{append-nil, append_assoc}
use opencode_gateway.Domain.{provider_eq, trigger_eq, change_request_eq}
use opencode_gateway.Store.{Run, Delivery, Db, has_id}
use opencode_gateway.Result.{ok}
use opencode_gateway.Provisioning.{
  Provision, ProvisionResult, requested_deliveries, provisioning_payload_matches, stored_deliveries,
  batch_provenance_matches, insert_delivery_batch_rows, has_key, replay, provisioned, insert_run,
  provision_afk_run,
}

-- The rows of other runs are not touched, and those of the new run are the requested ones.
stored-append :
    (i : String) (d : Delivery) (rows : List Delivery)
    → stored_deliveries i (rows ++ d ∷ []) ≡ (
        if d.afk_run_id == i
        then stored_deliveries i rows ++ d.delivery_id ∷ []
        else stored_deliveries i rows)
unfolding stored_deliveries
stored-append i d [] = ground arith
stored-append i d (r ∷ rows) = ground (arith, stored-append i d rows)

stored-any :
    (i d : String) (rows : List Delivery)
    → any (λ (r : Delivery). r.afk_run_id == i && r.delivery_id == d) rows
      ≡ contains d (stored_deliveries i rows)
unfolding stored_deliveries any contains
stored-any i d [] = refl
stored-any i d (r ∷ rows) = ground (arith, stored-any i d rows)

stored_own :
    (i d : String) (rows : List Delivery)
    → stored_deliveries i (rows ++ record { afk_run_id = i; delivery_id = d } ∷ [])
      ≡ stored_deliveries i rows ++ d ∷ []
stored_own i d rows =
    ground (arith, stored-append i (record { afk_run_id = i; delivery_id = d }) rows)

contains-snoc :
    (a d : String) (seen : List String) → contains a (d ∷ seen) ≡ contains a (seen ++ d ∷ [])
unfolding contains
contains-snoc a d seen = ground (arith, contains-append a seen (d ∷ []))

-- A batch without duplicates that is new to its run is stored as it was requested.
stored-insert :
    (i : String) (seen ds : List String) (rows : List Delivery)
    → ((d : String) → contains d seen ≡ contains d (stored_deliveries i rows))
    → DistinctFrom seen ds
    → stored_deliveries i (insert_delivery_batch_rows i ds rows) ≡ stored_deliveries i rows ++ ds
unfolding insert_delivery_batch_rows
stored-insert i seen [] rows same h = sym (append-nil _)
stored-insert i seen (d ∷ ds) rows same h =
    rw (stored-any i d rows, ← same d, h.0)
      (stored-insert i (d ∷ seen) ds _
          (λ a. rw (stored_own i d rows) (contains-snoc a d seen ∙ same_snoc a)) h.1
        ∙ rw (stored_own i d rows) (append_assoc (stored_deliveries i rows) (d ∷ []) ds))
  where
    same_snoc :
        (a : String) → contains a (seen ++ d ∷ []) ≡ contains a (stored_deliveries i rows ++ d ∷ [])
    same_snoc a = rw (contains-append, contains-append, same a)

stored-insert_other :
    (i j : String) (ds : List String) (rows : List Delivery)
    → j ≢ i
    → stored_deliveries j (insert_delivery_batch_rows i ds rows) ≡ stored_deliveries j rows
unfolding insert_delivery_batch_rows
stored-insert_other i j [] rows h = refl
stored-insert_other i j (d ∷ ds) rows h = ground (
  arith,
  stored-append j (record { afk_run_id = i; delivery_id = d }) rows,
  stored-insert_other i j ds rows,
  stored-insert_other i j ds (rows ++ record { afk_run_id = i; delivery_id = d } ∷ []),
)

has_key-provisioned : (p : Provision) → has_key p (provisioned p) ≡ true
unfolding has_key
has_key-provisioned p = ground arith

batch :
    (p : Provision) (rows : List Delivery)
    → stored_deliveries p.new_ulid rows ≡ []
    → stored_deliveries p.new_ulid
        (insert_delivery_batch_rows p.new_ulid (requested_deliveries p) rows)
      ≡ requested_deliveries p
batch p rows orphan =
    stored-insert p.new_ulid [] (requested_deliveries p) rows (λ d. rw orphan)
      (distinct p.deliveries)
    ∙ rw orphan
  where
    distinct :
        (ds : Option (List String))
        → DistinctFrom [] (requested_deliveries (record p { deliveries = ds }))
    distinct none = unfold requested_deliveries in tt
    distinct (some ds) = unfold requested_deliveries in dedupe_from-DistinctFrom [] ds

-- What a successful creation has done: the key and the id were free, one row is new, and the
-- requested batch, without its duplicates, is what is stored for it.
created_run :
    (p : Provision) (db after : Db) (r : ProvisionResult)
    → stored_deliveries p.new_ulid db.deliveries ≡ []
    → insert_run p db ≡ ok (after, r)
    → r.is_created ≡ true
    → (any (has_key p) db.runs ≡ false)
      × (any (has_id p.new_ulid) db.runs ≡ false)
      × (after.runs ≡ db.runs ++ provisioned p ∷ [])
      × (stored_deliveries p.new_ulid after.deliveries ≡ requested_deliveries p)
      × (r.afk_run_id ≡ p.new_ulid)
unfolding insert_run replay
created_run p db after r orphan e c =
    ground (arith, batch p db.deliveries orphan, any-find (has_key p) db.runs)

inserted :
    (between : Db → Db) (p : Provision) (db after : Db) (r : ProvisionResult)
    → provision_afk_run between p db ≡ ok (after, r)
    → r.is_created ≡ true
    → insert_run p (between db) ≡ ok (after, r)
unfolding provision_afk_run replay
inserted between p db after r e c = ground arith

-- The accepted row, asked for again under any new id, is found and matches.
found_again :
    (p : Provision) (ulid : String) (rows : List Run)
    → any (has_key p) rows ≡ false
    → find? (has_key (record p { new_ulid = ulid })) (rows ++ provisioned p ∷ [])
      ≡ some (provisioned p)
unfolding find? has_key
found_again p ulid rows free = find-append (has_key p) rows (provisioned p ∷ []) free ∙ ground arith

replay_self :
    (p : Provision) (ulid : String) (db : Db)
    → stored_deliveries p.new_ulid db.deliveries ≡ requested_deliveries p
    → replay (record p { new_ulid = ulid }) (provisioned p) db ≡ record {
      afk_run_id = p.new_ulid;
      is_created = false;
      is_conflict = false;
      predecessor_missing = false;
    }
unfolding replay provisioning_payload_matches batch_provenance_matches requested_deliveries
replay_self p ulid db h = ground arith

-- A second delivery of a batch that created its lifecycle is a replay: it answers with the first
-- id, reports no conflict and writes nothing. The new id had no delivery rows before.
pub provision_replay :
    (between later : Db → Db) (p : Provision) (ulid : String) (db after : Db) (r : ProvisionResult)
    → stored_deliveries p.new_ulid (between db).deliveries ≡ []
    → provision_afk_run between p db ≡ ok (after, r)
    → r.is_created ≡ true
    → provision_afk_run later (record p { new_ulid = ulid }) after
      ≡ ok (
        after,
        record {
          afk_run_id = p.new_ulid;
          is_created = false;
          is_conflict = false;
          predecessor_missing = false;
        },
      )
unfolding provision_afk_run
provision_replay between later p ulid db after r orphan e c =
    let (free, _, rows, batch, _) =
      created_run p (between db) after r orphan (inserted between p db after r e c) c in
    let found = found_again p ulid (between db).runs free in
    ground (arith, rows, found, replay_self p ulid after batch)
