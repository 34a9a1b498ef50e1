-- ===== src/ReplayMerge.antt =====
-- app/core/reconciliation.py: the replay merge of a usage event. The row locks and the advisory
-- lock serialise the merges of one event, so a merge is a function on the tables.
pub mod Replay
pub mod Rollups
pub mod Totals
use opencode_gateway.Prelude.{
  ℕ, ◌+◌, ◌/◌, ◌≤◌, Bool, true, false, ◌&&◌, not, String, Option, none, some, List, [], ◌∷◌, Eq,
  nat_eq, string_eq, ◌==◌, ◌/=◌, if◌then◌else◌, any, find?, is_some, string_discrete, ℕ_discrete,
}
use opencode_gateway.Prelude.Int.{ℤ, pos, ◌+ℤ◌, ◌-ℤ◌, int_eq}
use opencode_gateway.Domain.{Time}
use opencode_gateway.MergePolicy.{
  Field, delta_fields, is_rollup_field, is_session_field, field_eq, IngestOutcome, Values,
  DeltaResult, or_zero, compute_delta, validate_no_negative_totals,
}

-- `usage_events`: the columns that the merge reads
pub record UsageEvent : Type 0 where
  pub id : String
  pub values : Values
  pub session_id : Option String
  pub client_id : String
  pub project_id : Option String
  pub reported_at : Time

-- The aggregate columns of `sessions`, by the field that they sum
pub record SessionTotals : Type 0 where
  pub id : String
  pub totals : Values

-- The primary key of `client_project_rollup`
pub record Bucket : Type 0 where
  pub client_id : String
  pub project_id : String
  pub day : ℕ

unfoldable pub bucket_discrete : Discrete Bucket
unfolding string_discrete
bucket_discrete = hlevel (string_discrete, ℕ_discrete)

instance abbrev pub bucket_eq : Eq Bucket
bucket_eq = record { dec = bucket_discrete }

-- `client_project_rollup`; the columns of the row are those of the rollup fields
pub record Rollup : Type 0 where
  pub bucket : Bucket
  pub amounts : Field → ℤ

pub record Usage : Type 0 where
  pub events : List UsageEvent
  pub sessions : List SessionTotals
  pub rollups : List Rollup

abbrev pub is_event : String → UsageEvent → Bool
is_event i e = e.id == i

unfoldable pub find_event : String → List UsageEvent → Option UsageEvent
find_event i es = find? (is_event i) es

-- `not any(delta.deltas.values())`
unfoldable pub is_changed : DeltaResult → Bool
is_changed d = any (λ f. d.deltas f /= pos 0) delta_fields

-- The UPDATE of the event: only a field with a delta is in the SET list.
unfoldable pub written : DeltaResult → Values
written d f = if d.deltas f == pos 0 then d.old_values f else d.new_values f

unfoldable pub write_event : String → Values → List UsageEvent → List UsageEvent
write_event i v [] = []
write_event i v (e ∷ es) =
    (if is_event i e then record e { values = v } else e) ∷ write_event i v es

-- `adjusted`: the totals that move
unfoldable pub adjusted_totals : DeltaResult → Values → Values
adjusted_totals d totals f =
    if is_session_field f && d.deltas f /= pos 0
    then some (or_zero (totals f) +ℤ d.deltas f)
    else none

abbrev pub overlay : Values → Values → Values
overlay new old f = elim (new f) [ none ↦ old f | some v ↦ some v ]

-- The read and the UPDATE of the session; a session that is not there is left alone.
unfoldable pub adjust_session : String → DeltaResult → List SessionTotals → List SessionTotals
adjust_session i d [] = []
adjust_session i d (s ∷ ss) =
    let (safe, new) = validate_no_negative_totals (some i) (adjusted_totals d s.totals) in
    (if s.id == i && safe then record s { totals = overlay new s.totals } else s)
    ∷ adjust_session i d ss

-- `_rollup_day`
unfoldable pub rollup_day : Time → ℕ
rollup_day t = t / 86400000000

-- The bucket of the stored event; there is none without a project.
unfoldable pub bucket_of : UsageEvent → Option Bucket
bucket_of e = elim e.project_id [
  | none ↦ none
  | some p ↦
      some (record { client_id = e.client_id; project_id = p; day = rollup_day e.reported_at })
]

-- `_upsert_client_project_rollup`
unfoldable pub upsert_rollup : Bucket → (Field → ℤ) → List Rollup → List Rollup
upsert_rollup k amounts [] = record { bucket = k; amounts = amounts } ∷ []
upsert_rollup k amounts (r ∷ rs) =
    let rest = upsert_rollup k amounts rs in
    if r.bucket == k then record r { amounts = λ f. r.amounts f +ℤ amounts f } ∷ rs else r ∷ rest

-- `rollup_deltas`
unfoldable pub rollup_delta : DeltaResult → Field → ℤ
rollup_delta d f = if is_rollup_field f then d.deltas f else pos 0

unfoldable pub maintain_rollup : UsageEvent → DeltaResult → List Rollup → List Rollup
maintain_rollup e d rs = elim (bucket_of e) [
  | none ↦ rs
  | some k ↦
      if any (λ f. rollup_delta d f /= pos 0) delta_fields
      then upsert_rollup k (rollup_delta d) rs
      else rs
]

abbrev pub adjust_owner : Option String → DeltaResult → List SessionTotals → List SessionTotals
adjust_owner none d ss = ss
adjust_owner (some i) d ss = adjust_session i d ss

-- The writes of a merge that changes something.
unfoldable pub merge_event : UsageEvent → DeltaResult → Usage → Usage
merge_event e d db = record {
  events = write_event e.id (written d) db.events;
  sessions = adjust_owner e.session_id d db.sessions;
  rollups = maintain_rollup e d db.rollups;
}

-- `apply_replay_merge`
unfoldable pub apply_replay_merge : String → Values → Usage → Usage × IngestOutcome
apply_replay_merge i incoming db = elim (find_event i db.events) [
  | none ↦ (db, IngestOutcome.rejected)
  | some e ↦
      let d = compute_delta e.values incoming in
      if is_changed d
      then (merge_event e d db, IngestOutcome.updated)
      else (db, IngestOutcome.duplicate)
]
