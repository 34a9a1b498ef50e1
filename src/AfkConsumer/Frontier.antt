-- ===== src/AfkConsumer/Frontier.antt =====
-- app/consumer/afk_consumer.py: the commit frontier of each partition, and what becomes of a polled
-- message. The consumer reads one topic, so a TopicPartition is its partition; the metrics are left
-- out.
use opencode_gateway.Prelude.{
  ℕ, ◌+◌, ◌-◌, Bool, true, Option, none, some, List, [], ◌∷◌, nat_eq, ◌==◌, leb, if◌then◌else◌,
}
use opencode_gateway.Prelude.Dict.{get, put, put_items, put_least}

-- `_committable` and `_blocked`, and the offsets that the broker holds.
pub record Frontier : Type 0 where
  pub committable : List (ℕ × ℕ)
  pub blocked : List (ℕ × ℕ)
  pub committed : List (ℕ × ℕ)

-- `del d[k]`
unfoldable pub delete : ℕ → List (ℕ × ℕ) → List (ℕ × ℕ)
delete k [] = []
delete k (item ∷ d) = let rest = delete k d in if item.0 == k then rest else item ∷ rest

-- `prev is None or msg.offset == prev + 1`
unfoldable pub follows : Option ℕ → ℕ → Bool
follows none offset = true
follows (some prev) offset = offset == prev + 1

unfoldable pub advance : ℕ → ℕ → Frontier → Frontier
advance tp offset s =
    if follows (get tp s.committable) offset
    then record s { committable = put tp offset s.committable }
    else s

-- `_mark_committable`
unfoldable pub mark_committable : ℕ → ℕ → Frontier → Frontier
mark_committable tp offset s = elim (get tp s.blocked) [
  | none ↦ advance tp offset s
  | some blocked ↦
      if offset == blocked
      then advance tp offset (record s { blocked = delete tp s.blocked })
      else s
]

-- `_mark_blocked`
unfoldable pub mark_blocked : ℕ → ℕ → Frontier → Frontier
mark_blocked tp offset s = record s { blocked = put_least tp offset s.blocked }

-- The offset that `_commit` writes for a partition, where it writes one.
unfoldable pub safe_offset : Option ℕ → ℕ → Option ℕ
safe_offset none committable = some (committable + 1)
safe_offset (some blocked) committable =
    if leb blocked committable
    then (if blocked == 0 then none else some (blocked - 1 + 1))
    else some (committable + 1)

unfoldable pub commit_offsets : List (ℕ × ℕ) → List (ℕ × ℕ) → List (ℕ × ℕ)
commit_offsets blocked [] = []
commit_offsets blocked (item ∷ committable) =
    let rest = commit_offsets blocked committable in
    elim (safe_offset (get item.0 blocked) item.1) [
      | none ↦ rest
      | some offset ↦ (item.0, offset) ∷ rest
    ]

-- `_commit`, where the broker accepts it
unfoldable pub commit : Frontier → Frontier
commit s = record s { committed = put_items (commit_offsets s.blocked s.committable) s.committed }

-- `_recreate_consumer`: the frontier starts anew, from what the broker holds.
unfoldable pub recreate : Frontier → Frontier
recreate s = record s { committable = []; blocked = [] }

-- How the processing of a message ends: it is persisted or on the DLQ and its offset committed; the
-- DLQ or the commit raises a KafkaError, before or after the mark; or another exception is raised.
pub data Ending : Type 0 where
  settled publish_failed commit_failed raised : Ending

-- One message of the poll loop of `run`.
unfoldable pub poll : ℕ → ℕ → Ending → Frontier → Frontier
poll tp offset Ending.settled s = commit (mark_committable tp offset s)
poll tp offset Ending.publish_failed s = recreate s
poll tp offset Ending.commit_failed s = recreate (mark_committable tp offset s)
poll tp offset Ending.raised s = mark_blocked tp offset s
