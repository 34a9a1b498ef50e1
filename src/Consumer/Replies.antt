-- ===== src/Consumer/Replies.antt =====
-- One reply to an attempt: what it settles, and how long the wait after it is.
use opencode_gateway.Prelude.{
  ℕ, zero, suc, ◌+◌, ◌-◌, ◌≤◌, ◌≡◌, refl, Bool, true, false, ◌&&◌, ◌||◌, not, List, [], ◌∷◌, arith,
  ltb, leb, any, filter, length,
}
use opencode_gateway.Consumer.{
  Settings, Reply, Dlq, DlqPayload, Reason, reject, send_to_dlq, Effect, is_success,
  is_client_error, backoff, retry, on_reply, is_commit,
}

-- A reply that is final: a success, or a client error.
unfoldable pub settles : Reply → Bool
settles Reply.request_error = false
settles (Reply.status code) = is_success code || is_client_error code

-- Some reply from the attempt `from` on is final, among the next `n`.
unfoldable pub settles_within : (ℕ → Reply) → ℕ → ℕ → Bool
settles_within post from zero = false
settles_within post from (suc n) = settles (post from) || settles_within post (suc from) n

-- Whether the message is rejected, by a reply or, where it is to be retried, later.
unfoldable pub rejects : Reply → Bool → Bool
rejects Reply.request_error later = later
rejects (Reply.status code) later = not (is_success code) && (is_client_error code || later)

-- The first final reply, if it is there, is a client error.
unfoldable pub rejected_within : (ℕ → Reply) → ℕ → ℕ → Bool
rejected_within post from zero = false
rejected_within post from (suc n) = rejects (post from) (rejected_within post (suc from) n)

-- The broker takes a record, or it refuses it.
unfoldable pub delivers : Dlq → Bool
delivers dlq = elim dlq [ Dlq.delivers ↦ true | _ ↦ false ]

unfoldable pub fails : Dlq → Bool
fails dlq = elim dlq [ Dlq.fails ↦ true | _ ↦ false ]

module _ {J R : Type 0} where
  unfoldable pub is_post : Effect J R → Bool
  is_post e = elim e [ Effect.posted _ ↦ true | _ ↦ false ]

  unfoldable pub is_dead_letter : Effect J R → Bool
  is_dead_letter e = elim e [ Effect.dead_lettered _ _ ↦ true | _ ↦ false ]

  unfoldable pub is_dlq_failure : Effect J R → Bool
  is_dlq_failure e = elim e [ Effect.dlq_failed _ _ ↦ true | _ ↦ false ]

  -- A wait is at most the given time.
  unfoldable pub waits_at_most : ℕ → Effect J R → Bool
  waits_at_most t e = elim e [ Effect.slept d ↦ leb d t | _ ↦ true ]

  pub posts-reject :
      (dlq : Dlq) (p : DlqPayload J R) (w : Reason) → filter is_post (reject dlq p w) ≡ []
  unfolding reject send_to_dlq filter is_post
  posts-reject Dlq.no_producer p w = refl
  posts-reject Dlq.delivers p w = refl
  posts-reject Dlq.fails p w = refl

  pub waits-reject :
      (dlq : Dlq) (p : DlqPayload J R) (w : Reason) (t : ℕ)
      → any (λ (e : Effect J R). not (waits_at_most t e)) (reject dlq p w) ≡ false
  unfolding reject send_to_dlq any waits_at_most
  waits-reject Dlq.no_producer p w t = refl
  waits-reject Dlq.delivers p w t = refl
  waits-reject Dlq.fails p w t = refl

  pub commit-reject :
      (dlq : Dlq) (p : DlqPayload J R) (w : Reason) → any is_commit (reject dlq p w) ≡ true
  unfolding reject send_to_dlq any is_commit
  commit-reject Dlq.no_producer p w = refl
  commit-reject Dlq.delivers p w = refl
  commit-reject Dlq.fails p w = refl

  pub dead_letter-reject :
      (dlq : Dlq) (p : DlqPayload J R) (w : Reason)
      → any is_dead_letter (reject dlq p w) ≡ delivers dlq
  unfolding reject send_to_dlq any is_dead_letter delivers
  dead_letter-reject Dlq.no_producer p w = refl
  dead_letter-reject Dlq.delivers p w = refl
  dead_letter-reject Dlq.fails p w = refl

  pub dlq_failure-reject :
      (dlq : Dlq) (p : DlqPayload J R) (w : Reason)
      → any is_dlq_failure (reject dlq p w) ≡ fails dlq
  unfolding reject send_to_dlq any is_dlq_failure fails
  dlq_failure-reject Dlq.no_producer p w = refl
  dlq_failure-reject Dlq.delivers p w = refl
  dlq_failure-reject Dlq.fails p w = refl

  pub posts-on_reply :
      (s : Settings) (dlq : Dlq) (q : R) (attempt : ℕ) (r : Reply) (rest : List (Effect J R))
      (n : ℕ)
      → length (filter is_post rest) ≤ n
      → length (filter is_post (on_reply s dlq q attempt r rest)) ≤ n
  unfolding on_reply retry filter is_post
  posts-on_reply s dlq q attempt Reply.request_error rest n h = ground arith
  posts-on_reply s dlq q attempt (Reply.status code) rest n h =
      ground (arith, posts-reject dlq (DlqPayload.request q) (Reason.http code))

  pub commit-on_reply :
      (s : Settings) (dlq : Dlq) (q : R) (attempt : ℕ) (r : Reply) (rest : List (Effect J R))
      → any is_commit (on_reply s dlq q attempt r rest)
        ≡ (settles r || ltb attempt (s.max_retries - 1) && any is_commit rest)
  unfolding on_reply retry any is_commit settles
  commit-on_reply s dlq q attempt Reply.request_error rest = ground arith
  commit-on_reply s dlq q attempt (Reply.status code) rest =
      ground (arith, commit-reject dlq (DlqPayload.request q) (Reason.http code))

  -- What of the DLQ an effect is about: a test that fails on all else, and that holds of some effect
  -- of a rejection exactly where `d` holds.
  module _ (about : Effect J R → Bool) (d : Bool)
      (not_posted : (q : R) → about (Effect.posted q) ≡ false)
      (not_slept : (t : ℕ) → about (Effect.slept t) ≡ false)
      (not_committed : about Effect.committed ≡ false) where
    pub about-on_reply :
        (s : Settings) (dlq : Dlq) (q : R) (attempt : ℕ) (r : Reply) (rest : List (Effect J R))
        (later : Bool)
        → ((p : DlqPayload J R) (w : Reason) → any about (reject dlq p w) ≡ d)
        → any about rest ≡ (d && later)
        → any about (on_reply s dlq q attempt r rest)
          ≡ (d && rejects r (ltb attempt (s.max_retries - 1) && later))
    unfolding on_reply retry any rejects
    about-on_reply s dlq q attempt Reply.request_error rest later hd h =
        ground (arith, not_slept (backoff s attempt), h)
    about-on_reply s dlq q attempt (Reply.status code) rest later hd h = ground (
      arith,
      not_slept (backoff s attempt),
      not_committed,
      hd (DlqPayload.request q) (Reason.http code),
      h,
    )

  -- Nothing follows a commit or an exception, and a record for the DLQ, taken or not, is directly
  -- before a commit.
  unfoldable pub commits_last : List (Effect J R) → Bool
  commits_last [] = true
  commits_last (Effect.posted _ ∷ rest) = commits_last rest
  commits_last (Effect.slept _ ∷ rest) = commits_last rest
  commits_last (Effect.dead_lettered _ _ ∷ Effect.committed ∷ []) = true
  commits_last (Effect.dead_lettered _ _ ∷ _) = false
  commits_last (Effect.dlq_failed _ _ ∷ Effect.committed ∷ []) = true
  commits_last (Effect.dlq_failed _ _ ∷ _) = false
  commits_last (Effect.committed ∷ []) = true
  commits_last (Effect.committed ∷ _ ∷ _) = false
  commits_last (Effect.raised ∷ []) = true
  commits_last (Effect.raised ∷ _ ∷ _) = false

  pub commits_last-reject :
      (dlq : Dlq) (p : DlqPayload J R) (w : Reason) → commits_last (reject dlq p w) ≡ true
  unfolding reject send_to_dlq commits_last
  commits_last-reject Dlq.no_producer p w = refl
  commits_last-reject Dlq.delivers p w = refl
  commits_last-reject Dlq.fails p w = refl

  pub commits_last-on_reply :
      (s : Settings) (dlq : Dlq) (q : R) (attempt : ℕ) (r : Reply) (rest : List (Effect J R))
      → commits_last rest ≡ true
      → commits_last (on_reply s dlq q attempt r rest) ≡ true
  unfolding on_reply retry commits_last
  commits_last-on_reply s dlq q attempt Reply.request_error rest h = ground arith
  commits_last-on_reply s dlq q attempt (Reply.status code) rest h =
      ground (arith, commits_last-reject dlq (DlqPayload.request q) (Reason.http code))

backoff_bound : (s : Settings) (attempt : ℕ) → leb (backoff s attempt) s.max_backoff ≡ true
unfolding backoff
backoff_bound s attempt = ground arith

pub waits-on_reply :
    {J R : Type 0} (s : Settings) (dlq : Dlq) (q : R) (attempt : ℕ) (r : Reply)
    (rest : List (Effect J R))
    → any (λ (e : Effect J R). not (waits_at_most s.max_backoff e)) rest ≡ false
    → any
        (λ (e : Effect J R). not (waits_at_most s.max_backoff e))
        (on_reply s dlq q attempt r rest)
      ≡ false
unfolding on_reply retry any waits_at_most
waits-on_reply s dlq q attempt Reply.request_error rest h = ground (arith, backoff_bound s attempt)
waits-on_reply {J = J} {R = R} s dlq q attempt (Reply.status code) rest h = ground (
  arith,
  backoff_bound s attempt,
  waits-reject {J = J} {R = R} dlq (DlqPayload.request q) (Reason.http code) s.max_backoff,
)

pub none_left : (attempt left n : ℕ) → suc left + attempt ≡ n → ltb attempt (n - 1) ≡ ltb 0 left
none_left attempt left n h = ground arith
