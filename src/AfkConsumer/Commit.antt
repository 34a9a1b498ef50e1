-- ===== src/AfkConsumer/Commit.antt =====
-- What the AFK event consumer commits: the messages of a partition up to the first that failed, or
-- up to an offset that is passed over.
use opencode_gateway.Prelude.{
  ℕ, zero, suc, ◌+◌, ◌≤◌, ◌<◌, ◌≡◌, refl, ap, ◌∙◌, Bool, true, false, Option, some, List, [], ◌∷◌,
  arith, nat_eq, if◌then◌else◌,
}
use opencode_gateway.Prelude.Dict.{get, put, get-put}
use opencode_gateway.AfkConsumer.Frontier.{
  Frontier, advance, mark_committable, safe_offset, commit_offsets, Ending, poll, recreate,
}
use opencode_gateway.AfkConsumer.Steps.{
  frontier, settle_first, settle_next, settle_apart, raise_first, raise_again, settle_behind,
  commit_nothing, commit_before,
}

-- A polled message of a partition: how many offsets are passed over before it, and whether it is
-- settled, or another exception than Kafka's is raised.
abbrev pub Polled : Type 0
Polled = ℕ × Bool

unfoldable pub ending_of : Bool → Ending
ending_of true = Ending.settled
ending_of false = Ending.raised

-- The messages at rising offsets, from `next` on.
unfoldable pub poll_all : ℕ → ℕ → List Polled → Frontier → Frontier
poll_all tp next [] s = s
poll_all tp next (m ∷ messages) s =
    poll_all tp (next + m.0 + 1) messages (poll tp (next + m.0) (ending_of m.1) s)

-- The first offset that no settled message has.
unfoldable pub first_unsettled : ℕ → List Polled → ℕ
first_unsettled next [] = next
first_unsettled next ((zero, true) ∷ messages) = first_unsettled (next + 1) messages
first_unsettled next ((suc gap, true) ∷ messages) = next
first_unsettled next ((gap, false) ∷ messages) = next

-- What the broker holds after the messages, where it held `before`.
unfoldable pub expected_commit : ℕ → List Polled → Option ℕ → Option ℕ
expected_commit next [] before = before
expected_commit next (m ∷ messages) before =
    if m.1 then some (first_unsettled (next + m.0 + 1) messages) else before

-- What the broker holds for the partition after further messages.
held : ℕ → ℕ → List Polled → Frontier → Option ℕ
held tp next messages s = get tp (poll_all tp next messages s).committed

from_state :
    (tp next : ℕ) (messages : List Polled) (s t : Frontier)
    → s ≡ t
    → held tp next messages s ≡ held tp next messages t
from_state tp next messages s t h = ap (held tp next messages) h

-- After a failure of the first message nothing is committed.
nothing_committed :
    (tp next b : ℕ) (messages : List Polled) (cd : List (ℕ × ℕ))
    → b < next
    → held tp next messages (frontier [] ((tp, b) ∷ []) cd) ≡ get tp cd
unfolding held poll_all ending_of
nothing_committed tp next b [] cd h = refl
nothing_committed tp next b ((gap, true) ∷ messages) cd h =
    from_state tp (next + gap + 1) messages _ _
      (settle_behind tp (next + gap) b [] cd (omega (arith, h)) ∙ commit_nothing ((tp, b) ∷ []) cd)
    ∙ nothing_committed tp (next + gap + 1) b messages cd (omega (arith, h))
nothing_committed tp next b ((gap, false) ∷ messages) cd h =
    from_state tp (next + gap + 1) messages _ _
      (raise_again tp (next + gap) b [] cd (omega (arith, h)))
    ∙ nothing_committed tp (next + gap + 1) b messages cd (omega (arith, h))

found_put : (tp n : ℕ) (cd : List (ℕ × ℕ)) → get tp (put tp n cd) ≡ some n
found_put tp n cd = ground (arith, get-put tp tp n cd)

-- After a failure behind settled messages the commit stays.
stays_behind_block :
    (tp next c b : ℕ) (messages : List Polled) (cd : List (ℕ × ℕ))
    → c < b
    → b < next
    → get tp cd ≡ some (c + 1)
    → held tp next messages (frontier ((tp, c) ∷ []) ((tp, b) ∷ []) cd) ≡ some (c + 1)
unfolding held poll_all ending_of
stays_behind_block tp next c b [] cd k h e = e
stays_behind_block tp next c b ((gap, true) ∷ messages) cd k h e =
    from_state tp (next + gap + 1) messages _ _ (
      settle_behind tp (next + gap) b ((tp, c) ∷ []) cd (omega (arith, h))
      ∙ commit_before tp c b cd k)
    ∙ stays_behind_block tp (next + gap + 1) c b messages (put tp (c + 1) cd) k (omega (arith, h))
        (found_put tp (c + 1) cd)
stays_behind_block tp next c b ((gap, false) ∷ messages) cd k h e =
    from_state tp (next + gap + 1) messages _ _
      (raise_again tp (next + gap) b ((tp, c) ∷ []) cd (omega (arith, h)))
    ∙ stays_behind_block tp (next + gap + 1) c b messages cd k (omega (arith, h)) e

-- After a gap the commit stays, whatever is settled behind it.
stays_behind_gap :
    (tp next c : ℕ) (messages : List Polled) (cd : List (ℕ × ℕ))
    → c + 1 < next
    → get tp cd ≡ some (c + 1)
    → held tp next messages (frontier ((tp, c) ∷ []) [] cd) ≡ some (c + 1)
unfolding held poll_all ending_of
stays_behind_gap tp next c [] cd h e = e
stays_behind_gap tp next c ((gap, true) ∷ messages) cd h e =
    from_state tp (next + gap + 1) messages _ _
      (settle_apart tp (next + gap) c cd (omega (arith, h)))
    ∙ stays_behind_gap tp (next + gap + 1) c messages (put tp (c + 1) cd) (omega (arith, h))
        (found_put tp (c + 1) cd)
stays_behind_gap tp next c ((gap, false) ∷ messages) cd h e =
    from_state tp (next + gap + 1) messages _ _ (raise_first tp (next + gap) ((tp, c) ∷ []) cd)
    ∙ stays_behind_block tp (next + gap + 1) c (next + gap) messages cd (omega (arith, h))
        (omega arith) e

-- While every message is settled and none is passed over, the commit follows them.
follows_settled :
    (tp c next : ℕ) (messages : List Polled) (cd : List (ℕ × ℕ))
    → next ≡ c + 1
    → get tp cd ≡ some (c + 1)
    → held tp next messages (frontier ((tp, c) ∷ []) [] cd)
      ≡ some (first_unsettled (c + 1) messages)
unfolding held poll_all ending_of first_unsettled
follows_settled tp c next [] cd n e = e
follows_settled tp c next ((zero, true) ∷ messages) cd n e =
    let same : next + zero ≡ c + 1 = omega (arith, n) in
    from_state tp (next + zero + 1) messages _ _ (
      ap (λ o. poll tp o Ending.settled (frontier ((tp, c) ∷ []) [] cd)) same ∙ settle_next tp c cd)
    ∙ follows_settled tp (c + 1) (next + zero + 1) messages (put tp (c + 1 + 1) cd)
        (omega (arith, n)) (found_put tp (c + 1 + 1) cd)
follows_settled tp c next ((suc gap, true) ∷ messages) cd n e =
    from_state tp (next + suc gap + 1) messages _ _
      (settle_apart tp (next + suc gap) c cd (omega (arith, n)))
    ∙ stays_behind_gap tp (next + suc gap + 1) c messages (put tp (c + 1) cd) (omega (arith, n))
        (found_put tp (c + 1) cd)
follows_settled tp c next ((gap, false) ∷ messages) cd n e =
    from_state tp (next + gap + 1) messages _ _ (raise_first tp (next + gap) ((tp, c) ∷ []) cd)
    ∙ stays_behind_block tp (next + gap + 1) c (next + gap) messages cd (omega (arith, n))
        (omega arith) e

-- What the broker holds after the messages of a new frontier.
held_from_start :
    (tp start : ℕ) (messages : List Polled) (cd : List (ℕ × ℕ))
    → held tp start messages (frontier [] [] cd) ≡ expected_commit start messages (get tp cd)
unfolding held poll_all ending_of expected_commit
held_from_start tp start [] cd = refl
held_from_start tp start ((gap, true) ∷ messages) cd =
    from_state tp (start + gap + 1) messages _ _ (settle_first tp (start + gap) cd)
    ∙ follows_settled tp (start + gap) (start + gap + 1) messages (put tp (start + gap + 1) cd) refl
        (found_put tp (start + gap + 1) cd)
held_from_start tp start ((gap, false) ∷ messages) cd =
    from_state tp (start + gap + 1) messages _ _ (raise_first tp (start + gap) [] cd)
    ∙ nothing_committed tp (start + gap + 1) (start + gap) messages cd (omega arith)

-- A KafkaError: of the DLQ before the mark, or of the commit after it.
unfoldable pub kafka_error : Bool → Ending
kafka_error true = Ending.publish_failed
kafka_error false = Ending.commit_failed

committed-mark_committable :
    (tp offset : ℕ) (s : Frontier) → (mark_committable tp offset s).committed ≡ s.committed
unfolding mark_committable advance
committed-mark_committable tp offset s = ground arith

restarts :
    (tp offset : ℕ) (early : Bool) (s : Frontier)
    → poll tp offset (kafka_error early) s ≡ frontier [] [] s.committed
unfolding poll recreate kafka_error
restarts tp offset true s = refl
restarts tp offset false s =
    ap (λ (cd : List (ℕ × ℕ)). frontier [] [] cd) (committed-mark_committable tp offset s)

pub commits_up_to_failure :
    (tp start : ℕ) (messages : List Polled) (cd : List (ℕ × ℕ)) (later : ℕ) (early : Bool)
    → let after =
        poll_all tp start messages (record { committable = []; blocked = []; committed = cd }) in
      (get tp after.committed ≡ expected_commit start messages (get tp cd))
      × (poll tp later (kafka_error early) after
          ≡ record { committable = []; blocked = []; committed = after.committed })
unfolding held
commits_up_to_failure tp start messages cd later early =
    (held_from_start tp start messages cd, restarts tp later early _)

nothing_past :
    (b committable : ℕ) (offset : ℕ) → safe_offset (some b) committable ≡ some offset → offset ≤ b
unfolding safe_offset
nothing_past b committable offset h = ground (arith, h)

-- Whatever state the frontier is in, a commit writes no offset past a blocked one.
pub commit_never_passes_block :
    (blocked committable : List (ℕ × ℕ)) (tp b offset : ℕ)
    → get tp blocked ≡ some b
    → get tp (commit_offsets blocked committable) ≡ some offset
    → offset ≤ b
unfolding commit_offsets get
commit_never_passes_block blocked [] tp b offset h e = absurd cc
commit_never_passes_block blocked (item ∷ committable) tp b offset h e = ground (
  arith,
  commit_never_passes_block blocked committable tp b offset h,
  nothing_past b item.1 offset,
  h,
  e,
)
