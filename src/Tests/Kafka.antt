-- ===== src/Tests/Kafka.antt =====
-- The usage consumer and the DLQ sweep at concrete messages.
use opencode_gateway.Prelude.{
  ℕ, zero, suc, inl, ◌≤◌, ◌≡◌, ◌≢◌, refl, true, false, not, ◌||◌, Bool, String, Option, none, some,
  List, [], ◌∷◌, string_eq, nat_eq, ◌==◌, string_discrete, ℕ_discrete, filter, any, length, is_some,
  if◌then◌else◌,
}
use opencode_gateway.Prelude.Int.{ℤ, pos, ◌-ℤ◌}
use opencode_gateway.Prelude.Dict.{get, put, put_items, put_least, update_values}
use opencode_gateway.Domain.{Provider}
use opencode_gateway.AfkConsumer.{NormalizedEvent}
use opencode_gateway.AfkConsumer.Process.{DeadReason, dead_reason}
use opencode_gateway.AfkConsumer.Mapping.{never_unmappable}
use opencode_gateway.AfkConsumer.Commit.{
  Polled, poll_all, first_unsettled, expected_commit, commits_up_to_failure,
}
use opencode_gateway.Consumer.{
  Settings, Reply, Dlq, is_success, is_client_error, process_message, is_commit,
}
use opencode_gateway.Consumer.Retry.{
  is_settled, malformed, committed_when_settled, attempts_are_bounded,
}
use opencode_gateway.Consumer.Replies.{
  settles, delivers, fails, is_post, waits_at_most, settles_within,
}
use opencode_gateway.DlqSweep.{
  Moment, DlqRecord, Message, Scanned, Sweep, used, is_exhausted, dlq_message_age, is_dlq_expired,
  build_escalation_payload, scan_one, scan_all, run_dlq_sweep, consume, collect, first_retained,
  commit_offset, compute_dlq_commit_offsets, apply_chunk, chunk_size, sweep_loop, sweep_dlq,
}
use opencode_gateway.DlqSweep.Commit.{
  retained_at, is_next, retained_below, commit_stops_at_retained,
}
use opencode_gateway.DlqSweep.Loop.{IsAccounted, sweep_ends, sweep_accounts}
use opencode_gateway.DlqSweep.Limits.{is_within}

-- The defaults of the consumer, in milliseconds.
abbrev defaults : Settings
defaults = record { max_retries = 5; initial_backoff = 1000; max_backoff = 60000 }

-- A gateway that is unreachable once, then fails once, then rejects.
abbrev flaky : ℕ → Reply
flaky zero = Reply.request_error
flaky (suc zero) = Reply.status 503
flaky _ = Reply.status 422

abbrev loads_any : String → Option String
loads_any s = some s

abbrev is_object : String → Bool
is_object _ = true

committed_when_settled_example :
    any is_commit
      (process_message defaults Dlq.fails loads_any loads_any is_object flaky (some "{}"))
    ≡ true
unfolding is_settled settles_within settles is_success is_client_error malformed
committed_when_settled_example =
    committed_when_settled defaults Dlq.fails loads_any loads_any is_object flaky (some "{}")

attempts_are_bounded_example :
    let effects =
      process_message defaults Dlq.delivers loads_any loads_any is_object flaky (some "{}") in
    (length (filter is_post effects) ≤ 5) × (any (λ e. not (waits_at_most 60000 e)) effects ≡ false)
attempts_are_bounded_example =
    attempts_are_bounded defaults Dlq.delivers loads_any loads_any is_object flaky (some "{}")

abbrev read_moment : String → Option Moment
read_moment s = if s == "old" then some (record { clock = pos 0; offset = none }) else none

abbrev key_of : DlqRecord String → String
key_of _ = "key"

abbrev dead : String → DlqRecord String
dead at = record {
  original_topic = some "opencode-usage";
  reason = some "HTTP 422";
  payload = some "{}";
  dead_lettered_at = some at;
}

abbrev now_40 : ℤ
now_40 = pos 3456000000000

-- Three records, and then nothing.
abbrev polls_3 : ℕ → Option (Message String)
polls_3 zero = some (record { value = some (dead "old"); partition = 0; offset = 0 })
polls_3 (suc zero) = some (record { value = some (dead "unknown"); partition = 0; offset = 1 })
polls_3 (suc (suc zero)) = some (record { value = some (dead "old"); partition = 0; offset = 2 })
polls_3 _ = none

abbrev scanned_2 : List (Scanned String)
scanned_2 =
    (record { payload = dead "old"; partition = 0; offset = 0 })
    ∷ (record { payload = dead "unknown"; partition = 0; offset = 1 })
    ∷ []

commit_stops_at_retained_example :
    (any (retained_below read_moment key_of now_40 30 1 0) scanned_2 ≡ false)
    × ((any (retained_at read_moment key_of now_40 30 1 0) scanned_2 || is_next (some 1) 1) ≡ true)
unfolding compute_dlq_commit_offsets update_values commit_offset first_retained is_dlq_expired
    dlq_message_age get put put_least string_discrete ℕ_discrete ◌-ℤ◌
commit_stops_at_retained_example =
    commit_stops_at_retained read_moment key_of now_40 30 scanned_2 ((0, 1) ∷ []) 0 1 refl

sweep_ends_example : is_some (sweep_dlq read_moment key_of now_40 30 4 false none 2 polls_3) ≡ true
sweep_ends_example = sweep_ends read_moment key_of now_40 30 false none 2 3 polls_3 (inl refl)

-- A sweep of three records in chunks of two. The first chunk retains the record at offset 1 and
-- commits that offset; the second chunk commits offset 3, so the next sweep does not read the
-- retained record again.
abbrev after_sweep : Sweep String
after_sweep = record {
  report = record {
    scanned = 3;
    expired = 2;
    retained = 1;
    escalated =
        build_escalation_payload read_moment key_of now_40 30 (dead "old")
        ∷ build_escalation_payload read_moment key_of now_40 30 (dead "old")
        ∷ [];
  };
  published =
      build_escalation_payload read_moment key_of now_40 30 (dead "old")
      ∷ build_escalation_payload read_moment key_of now_40 30 (dead "old")
      ∷ [];
  committed = (0, 3) ∷ [];
}

retained_record_is_passed :
    sweep_dlq read_moment key_of now_40 30 4 false none 2 polls_3 ≡ some after_sweep
unfolding sweep_dlq sweep_loop apply_chunk chunk_size collect consume run_dlq_sweep scan_all
    scan_one used is_exhausted compute_dlq_commit_offsets update_values commit_offset first_retained
    is_dlq_expired dlq_message_age get put put_items put_least string_discrete ℕ_discrete ◌-ℤ◌
retained_record_is_passed = refl

sweep_accounts_example :
    IsAccounted read_moment key_of now_40 30 false after_sweep × (is_within none (some 0) 3 ≡ true)
sweep_accounts_example =
    sweep_accounts read_moment key_of now_40 30 4 false none 2 polls_3 after_sweep
      retained_record_is_passed

-- Two messages that are settled, one that fails, and one that is settled behind it; then the commit
-- of a message raises a KafkaError.
abbrev polled_4 : List Polled
polled_4 = (0, true) ∷ (0, true) ∷ (0, false) ∷ (0, true) ∷ []

-- A settled message at offset 8 behind the settled one at offset 5: the broker stays at 6.
gap_stays_test :
    get 0
      (poll_all 0 5
        ((0, true) ∷ (2, true) ∷ [])
        (record { committable = []; blocked = []; committed = [] })).committed
    ≡ some 6
unfolding expected_commit first_unsettled
gap_stays_test = (commits_up_to_failure 0 5 ((0, true) ∷ (2, true) ∷ []) [] 9 false).0

abbrev an_event : NormalizedEvent
an_event = record {
  schema_version = "1.0";
  event_type = "normalized";
  provider = Provider.github;
  delivery_id = "d1";
  resource_type = "pull_request";
  repository_url = "https://github.com/o/r";
  number = some 9;
  action = "edited";
  occurred_at = none;
  ingested_at = 3;
  actor = none;
  reference_provider = "github";
  reference_delivery_id = "d1";
}

never_unmappable_example :
    dead_reason (λ _. some (some an_event)) (λ _. some "github.com/o/r") (λ _. true) 5 "{}"
    ≢ some DeadReason.unmappable
never_unmappable_example =
    never_unmappable (λ _. some (some an_event)) (λ _. some "github.com/o/r") (λ _. true) 5 "{}"
