-- ===== src/AfkConsumer/Process.antt =====
-- app/consumer/afk_consumer.py: whether _process_message persists a message or sends it to the DLQ.
-- json.loads with the decoding, and pydantic, are one argument: none where the text is no JSON, else
-- the message that its value validates to, if any. The database is the result of each attempt.
use opencode_gateway.Prelude.{
  ℕ, zero, suc, String, Bool, false, ◌||◌, Option, none, some, leb, if◌then◌else◌,
}
use opencode_gateway.AfkConsumer.{
  NormalizedEvent, Violation, validate_normalized_event, MappedEvent, map_normalized_event,
}

-- Why a message goes to the DLQ.
pub data DeadReason : Type 0 where
  decode_failure invalid_shape unmappable persist_failed : DeadReason
  violation : Violation → DeadReason

-- Some attempt among the next `n` persists the event.
unfoldable pub persists_within : (ℕ → Bool) → ℕ → ℕ → Bool
persists_within persist attempt zero = false
persists_within persist attempt (suc n) = persist attempt || persists_within persist (suc attempt) n

-- `max(1, self._max_retries)`
abbrev pub attempts_of : ℕ → ℕ
attempts_of max_retries = if leb 1 max_retries then max_retries else 1

-- `_process_message` after the mapping: the reason of the DLQ record, or none where the event is
-- persisted. The steps before it follow in turn.
unfoldable pub on_mapped : (ℕ → Bool) → ℕ → Option MappedEvent → Option DeadReason
on_mapped persist max_retries none = some DeadReason.unmappable
on_mapped persist max_retries (some event) =
    if persists_within persist 0 (attempts_of max_retries)
    then none
    else some DeadReason.persist_failed

unfoldable pub on_checked :
    (String → Option String)
    → (ℕ → Bool)
    → ℕ
    → NormalizedEvent
    → Option Violation
    → Option DeadReason
on_checked normalize persist max_retries m (some v) = some (DeadReason.violation v)
on_checked normalize persist max_retries m none =
    on_mapped persist max_retries (map_normalized_event normalize m)

unfoldable pub on_parsed :
    (String → Option String) → (ℕ → Bool) → ℕ → Option NormalizedEvent → Option DeadReason
on_parsed normalize persist max_retries none = some DeadReason.invalid_shape
on_parsed normalize persist max_retries (some m) =
    on_checked normalize persist max_retries m (validate_normalized_event normalize m)

unfoldable pub on_loaded :
    (String → Option String) → (ℕ → Bool) → ℕ → Option (Option NormalizedEvent) → Option DeadReason
on_loaded normalize persist max_retries none = some DeadReason.decode_failure
on_loaded normalize persist max_retries (some parsed) =
    on_parsed normalize persist max_retries parsed

-- `_process_message`
unfoldable pub dead_reason :
    (String → Option (Option NormalizedEvent))
    → (String → Option String)
    → (ℕ → Bool)
    → ℕ
    → String
    → Option DeadReason
dead_reason parse_message normalize persist max_retries text =
    on_loaded normalize persist max_retries (parse_message text)
