-- ===== src/Consumer/Retry.antt =====
-- The retries of one message: how many, how long, and when they settle it.
use opencode_gateway.Prelude.{
  ℕ, zero, suc, ◌+◌, ◌≤◌, ◌≡◌, refl, ap, String, Bool, true, false, ◌||◌, not, Option, none, some,
  List, [], arith, if◌then◌else◌, any, filter, length, is_none,
}
use opencode_gateway.Consumer.{
  Settings, Reply, Dlq, reject, DlqPayload, Reason, Effect, attempts, on_validated, on_decoded,
  process_message, is_commit,
}
use opencode_gateway.Consumer.Replies.{
  settles_within, rejected_within, is_post, waits_at_most, posts-on_reply, commit-on_reply,
  posts-reject, waits-reject, commit-reject, waits-on_reply, none_left,
}

module _ (J R : Type 0) where
  posts-attempts :
      (s : Settings) (dlq : Dlq) (q : R) (post : ℕ → Reply) (left attempt : ℕ)
      → length (filter is_post (attempts {J = J} s dlq q post left attempt)) ≤ left
  unfolding attempts filter is_post
  posts-attempts s dlq q post zero attempt = omega arith
  posts-attempts s dlq q post (suc left) attempt = omega (
    arith,
    posts-on_reply s dlq q attempt (post attempt) (attempts s dlq q post left (suc attempt)) left
        (posts-attempts s dlq q post left (suc attempt)),
  )

  waits-attempts :
      (s : Settings) (dlq : Dlq) (q : R) (post : ℕ → Reply) (left attempt : ℕ)
      → any
          (λ (e : Effect J R). not (waits_at_most s.max_backoff e))
          (attempts s dlq q post left attempt)
        ≡ false
  unfolding attempts any waits_at_most
  waits-attempts s dlq q post zero attempt = refl
  waits-attempts s dlq q post (suc left) attempt =
      waits-on_reply s dlq q attempt (post attempt) (attempts s dlq q post left (suc attempt))
        (waits-attempts s dlq q post left (suc attempt))

  commits-attempts :
      (s : Settings) (dlq : Dlq) (q : R) (post : ℕ → Reply) (left attempt : ℕ)
      → left + attempt ≡ s.max_retries
      → any is_commit (attempts {J = J} s dlq q post left attempt)
        ≡ settles_within post attempt left
  unfolding attempts any is_commit settles_within
  commits-attempts s dlq q post zero attempt h = refl
  commits-attempts s dlq q post (suc zero) attempt h = ground (
    arith,
    commit-on_reply {J = J} s dlq q attempt (post attempt) [],
    none_left attempt 0 s.max_retries h,
  )
  commits-attempts s dlq q post (suc (suc left)) attempt h =
      let rest = attempts {J = J} s dlq q post (suc left) (suc attempt) in
      ground (
        arith,
        commit-on_reply s dlq q attempt (post attempt) rest,
        none_left attempt (suc left) s.max_retries h,
        commits-attempts s dlq q post (suc left) (suc attempt) (omega arith),
      )

-- The message is not a JSON text of the shape that the consumer expects.
unfoldable pub malformed : {J R : Type 0} → (J → Option R) → Option J → Bool
malformed validate none = true
malformed validate (some v) = is_none (validate v)

-- A property of the effects that holds for a rejection, and for the attempts, holds for a message
-- that has a value.
message_cases :
    {J R : Type 0} (P : List (Effect J R) → Bool → Type 0) (s : Settings) (dlq : Dlq)
    (validate : J → Option R) (is_dict : J → Bool) (post : ℕ → Reply) (decoded : Option J)
    → ((p : DlqPayload J R) (w : Reason) → P (reject dlq p w) true)
    → ((q : R) → P (attempts s dlq q post s.max_retries 0) false)
    → P (on_decoded s dlq validate is_dict post decoded) (malformed validate decoded)
unfolding on_decoded malformed on_validated
message_cases {R = R} P s dlq validate is_dict post none dead live =
    dead DlqPayload.raw Reason.decode_failure
message_cases {R = R} P s dlq validate is_dict post (some v) dead live = go (validate v)
  where
    go : (o : Option R) → P (on_validated s dlq is_dict post v o) (is_none o)
    go none =
        dead (if is_dict v then DlqPayload.value v else DlqPayload.nothing) Reason.invalid_shape
    go (some q) = live q

module _ {J R : Type 0} (s : Settings) (dlq : Dlq) (loads : String → Option J)
    (validate : J → Option R) (is_dict : J → Bool) (post : ℕ → Reply) where
  -- The message has a value, and it is malformed, or one of the replies to the allowed attempts is
  -- final.
  unfoldable pub is_settled : Option String → Bool
  is_settled none = false
  is_settled (some text) = malformed validate (loads text) || settles_within post 0 s.max_retries

  -- The message has a value, and it is malformed, or the first final reply is a client error.
  unfoldable pub is_rejected : Option String → Bool
  is_rejected none = false
  is_rejected (some text) = malformed validate (loads text) || rejected_within post 0 s.max_retries

  -- The processing of a message calls the commit exactly when the message has a value, and it is
  -- malformed or one of the replies to the allowed attempts is final: a success or a client error.
  -- It does so whatever becomes of the record for the DLQ.
  pub committed_when_settled :
      (value : Option String)
      → any is_commit (process_message s dlq loads validate is_dict post value) ≡ is_settled value
  unfolding process_message any is_commit is_settled
  committed_when_settled none = refl
  committed_when_settled (some text) =
      message_cases (λ es bad. any is_commit es ≡ (bad || settles_within post 0 s.max_retries)) s
        dlq validate is_dict post (loads text) (λ p w. commit-reject dlq p w)
        (λ q. commits-attempts J R s dlq q post s.max_retries 0 (omega arith))

  -- A message is posted at most `max_retries` times, and no wait between the attempts is longer
  -- than `max_backoff`.
  pub attempts_are_bounded :
      (value : Option String)
      → let effects = process_message s dlq loads validate is_dict post value in
        (length (filter is_post effects) ≤ s.max_retries)
        × (any (λ (e : Effect J R). not (waits_at_most s.max_backoff e)) effects ≡ false)
  unfolding process_message any filter is_post waits_at_most
  attempts_are_bounded none = (omega arith, refl)
  attempts_are_bounded (some text) =
      message_cases
        (λ es bad.
          (length (filter is_post es) ≤ s.max_retries)
          × (any (λ (e : Effect J R). not (waits_at_most s.max_backoff e)) es ≡ false))
        s dlq validate is_dict post (loads text)
        (λ p w.
          (omega (arith, ap length (posts-reject dlq p w)), waits-reject dlq p w s.max_backoff))
        (λ q. (
          posts-attempts J R s dlq q post s.max_retries 0,
          waits-attempts J R s dlq q post s.max_retries 0,
        ))
