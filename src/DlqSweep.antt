-- ===== src/DlqSweep.antt =====
-- app/consumer/dlq_sweep.py: the ages of DLQ records, their escalation, and the sweep over a topic.
-- The DLQ is one topic, so a TopicPartition is its partition. datetime.fromisoformat and the SHA-256
-- of a record are arguments; times are integers of microseconds.
pub mod Report
pub mod Commit
pub mod Loop
pub mod Limits
use opencode_gateway.Prelude.{
  ℕ, zero, suc, ◌+◌, ◌-◌, ◌*◌, String, Bool, true, false, ◌&&◌, ◌||◌, not, Option, none, some, List,
  [], ◌∷◌, ◌++◌, ltb, leb, ◌==◌, nat_eq, string_eq, if◌then◌else◌, is_empty, length, map,
}
use opencode_gateway.Prelude.Int.{ℤ, pos, ◌-ℤ◌, ltb_ℤ}
use opencode_gateway.Prelude.Dict.{get, put, put_items, put_least, update_values}
use opencode_gateway.Reconciler.{take}

-- What `datetime.fromisoformat` returns: the clock, and the offset from UTC where there is one.
pub record Moment : Type 0 where
  pub clock : ℤ
  pub offset : Option ℤ

-- The instant, a naive time being read as UTC.
abbrev pub instant : Moment → ℤ
instant m = elim m.offset [ none ↦ m.clock | some o ↦ m.clock -ℤ o ]

-- The JSON object of a DLQ record; `dead_lettered_at` is none where it is missing or no text.
pub record DlqRecord (P : Type 0) : Type 0 where
  pub original_topic : Option String
  pub reason : Option String
  pub payload : Option P
  pub dead_lettered_at : Option String

-- The escalation record; the text of its reason is that of the number of days.
pub record Escalation (P : Type 0) : Type 0 where
  pub original_topic : Option String
  pub reason : Option String
  pub payload : Option P
  pub dead_lettered_at : Option String
  pub escalation_key : String
  pub exceeded_days : ℕ

-- The counts of `DLQSweepReport`
pub record SweepReport (P : Type 0) : Type 0 where
  pub scanned : ℕ
  pub expired : ℕ
  pub retained : ℕ
  pub escalated : List (Escalation P)

-- A consumed message; its value is none where it is no JSON object.
pub record Message (P : Type 0) : Type 0 where
  pub value : Option (DlqRecord P)
  pub partition : ℕ
  pub offset : ℕ

-- A well-formed record with its partition and offset.
pub record Scanned (P : Type 0) : Type 0 where
  pub payload : DlqRecord P
  pub partition : ℕ
  pub offset : ℕ

pub record Batch (P : Type 0) : Type 0 where
  pub records : List (Scanned P)
  pub max_consumed : List (ℕ × ℕ)
  pub consumed : ℕ
  pub left : ℕ

-- What a sweep has done: its report, the records it has published, and the offsets it committed.
pub record Sweep (P : Type 0) : Type 0 where
  pub report : SweepReport P
  pub published : List (Escalation P)
  pub committed : List (ℕ × ℕ)

-- `remaining is not None and remaining <= 0`
unfoldable pub is_exhausted : Option ℕ → Bool
is_exhausted none = false
is_exhausted (some n) = leb n 0

-- `remaining -= n`, where there is a limit.
unfoldable pub used : ℕ → Option ℕ → Option ℕ
used n none = none
used n (some r) = some (r - n)

abbrev pub microseconds_per_day : ℕ
microseconds_per_day = 86400000000

-- The offset to commit for a partition, from the highest one consumed.
unfoldable pub commit_offset : List (ℕ × ℕ) → ℕ → ℕ → ℕ
commit_offset retained partition highest = elim (get partition retained) [
  | none ↦ highest + 1
  | some offset ↦ offset
]

-- `batch_size if remaining is None else min(batch_size, remaining)`
unfoldable pub chunk_size : ℕ → Option ℕ → ℕ
chunk_size batch_size none = batch_size
chunk_size batch_size (some r) = if leb batch_size r then batch_size else r

module _ {P : Type 0} where
  abbrev pub empty_report : SweepReport P
  empty_report = record { scanned = 0; expired = 0; retained = 0; escalated = [] }

  abbrev pub add_reports : SweepReport P → SweepReport P → SweepReport P
  add_reports a b = record {
    scanned = a.scanned + b.scanned;
    expired = a.expired + b.expired;
    retained = a.retained + b.retained;
    escalated = a.escalated ++ b.escalated;
  }

  abbrev pub fresh_sweep : Sweep P
  fresh_sweep = record { report = empty_report; published = []; committed = [] }

  -- One message of `_collect_dlq_batch`.
  unfoldable pub consume : Message P → Batch P → Batch P
  consume m b =
      let furthest = put m.partition m.offset b.max_consumed in
      record b {
        consumed = b.consumed + 1;
        left = b.left + 1;
        max_consumed = elim (get m.partition b.max_consumed) [
          | none ↦ furthest
          | some prev ↦ if ltb prev m.offset then furthest else b.max_consumed
        ];
        records = b.records ++ (elim m.value [
          | none ↦ []
          | some v ↦ record { payload = v; partition = m.partition; offset = m.offset } ∷ []
        ]);
      }

  -- `_collect_dlq_batch`, where the poll `n` of the consumer times out or ends (`none`), or gives
  -- `polls n`; `left` counts the polls made.
  unfoldable pub collect : ℕ → (ℕ → Option (Message P)) → Batch P → Batch P
  collect zero polls b = b
  collect (suc n) polls b = elim (polls b.left) [
    | none ↦ record b { left = b.left + 1 }
    | some m ↦ collect n polls (consume m b)
  ]

  abbrev pub empty_batch : ℕ → Batch P
  empty_batch made = record { records = []; max_consumed = []; consumed = 0; left = made }

  abbrev pub collect_dlq_batch : ℕ → (ℕ → Option (Message P)) → ℕ → Batch P
  collect_dlq_batch n polls made = collect n polls (empty_batch made)

module _ {P : Type 0} (fromisoformat : String → Option Moment) (digest : DlqRecord P → String)
    (now : ℤ) (max_age_days : ℕ) where
  -- `dlq_message_age`
  unfoldable pub dlq_message_age : DlqRecord P → Option ℤ
  dlq_message_age r = elim r.dead_lettered_at [
    | none ↦ none
    | some raw ↦
        if raw == ""
        then none
        else elim (fromisoformat raw) [ none ↦ none | some m ↦ some (now -ℤ instant m) ]
  ]

  -- `is_dlq_expired`
  unfoldable pub is_dlq_expired : DlqRecord P → Bool
  is_dlq_expired r = elim (dlq_message_age r) [
    | none ↦ false
    | some age ↦ ltb_ℤ (pos (max_age_days * microseconds_per_day)) age
  ]

  -- `build_escalation_payload`, with the operational max given
  unfoldable pub build_escalation_payload : DlqRecord P → Escalation P
  build_escalation_payload r = record {
    original_topic = r.original_topic;
    reason = r.reason;
    payload = r.payload;
    dead_lettered_at = r.dead_lettered_at;
    escalation_key = digest r;
    exceeded_days = max_age_days;
  }

  -- One record of the loop of `run_dlq_sweep`.
  unfoldable pub scan_one : Bool → DlqRecord P → SweepReport P → SweepReport P
  scan_one dry_run r report =
      if is_dlq_expired r
      then record report {
        scanned = report.scanned + 1;
        expired = report.expired + 1;
        escalated = report.escalated ++ (if dry_run then [] else build_escalation_payload r ∷ []);
      }
      else record report { scanned = report.scanned + 1; retained = report.retained + 1 }

  unfoldable pub scan_all : Bool → Option ℕ → List (DlqRecord P) → SweepReport P → SweepReport P
  scan_all dry_run remaining [] report = report
  scan_all dry_run remaining (r ∷ messages) report =
      let rest = scan_all dry_run (used 1 remaining) messages (scan_one dry_run r report) in
      if is_exhausted remaining then report else rest

  -- `run_dlq_sweep`
  unfoldable pub run_dlq_sweep : Bool → Option ℕ → List (DlqRecord P) → SweepReport P
  run_dlq_sweep dry_run limit messages = scan_all dry_run limit messages empty_report

  -- `first_retained`
  unfoldable pub first_retained : List (Scanned P) → List (ℕ × ℕ) → List (ℕ × ℕ)
  first_retained [] d = d
  first_retained (s ∷ records) d =
      if is_dlq_expired s.payload
      then first_retained records d
      else first_retained records (put_least s.partition s.offset d)

  -- `_compute_dlq_commit_offsets`
  unfoldable pub compute_dlq_commit_offsets : List (Scanned P) → List (ℕ × ℕ) → List (ℕ × ℕ)
  compute_dlq_commit_offsets records max_consumed =
      update_values (commit_offset (first_retained records [])) max_consumed

  -- What a chunk does after it is classified: in a dry run nothing but the counts.
  unfoldable pub apply_chunk : Bool → Batch P → SweepReport P → Sweep P → Sweep P
  apply_chunk dry_run b chunk s =
      let offsets = compute_dlq_commit_offsets (take chunk.scanned b.records) b.max_consumed in
      let report = add_reports s.report chunk in
      if dry_run then record s { report = report } else record {
        report = report;
        published = s.published ++ chunk.escalated;
        committed = put_items offsets s.committed;
      }

  -- The loop of `sweep_dlq`, on fuel.
  unfoldable pub sweep_loop :
      Bool → ℕ → (ℕ → Option (Message P)) → ℕ → Option ℕ → ℕ → Sweep P → Option (Sweep P)
  sweep_loop dry_run batch_size polls zero remaining made s = none
  sweep_loop dry_run batch_size polls (suc fuel) remaining made s =
      let size = chunk_size batch_size remaining in
      let b = collect_dlq_batch size polls made in
      let chunk = run_dlq_sweep dry_run remaining (map (λ (r : Scanned P). r.payload) b.records) in
      let after = apply_chunk dry_run b chunk s in
      let rest =
        sweep_loop dry_run batch_size polls fuel (used chunk.scanned remaining) b.left after in
      if is_exhausted remaining
      then some s
      else if is_empty b.records && b.consumed == 0
      then some s
      else if ltb b.consumed size
      then some after
      else rest

  -- `sweep_dlq`, over the polls that its consumer makes, without an end; `none` where the loop makes
  -- more rounds than the fuel.
  unfoldable pub sweep_dlq : ℕ → Bool → Option ℕ → ℕ → (ℕ → Option (Message P)) → Option (Sweep P)
  sweep_dlq fuel dry_run limit batch_size polls =
      sweep_loop dry_run batch_size polls fuel limit 0 fresh_sweep
