-- ===== src/Consumer.antt =====
-- app/consumer/consumer.py: what the usage consumer does with one Kafka message, as the sequence of
-- its effects. json.loads, pydantic and httpx are arguments. Times
-- are whole milliseconds.
pub mod Retry
pub mod Replies
use opencode_gateway.Prelude.{
  ℕ, zero, suc, ◌+◌, ◌-◌, ◌*◌, ◌^◌, String, Bool, true, false, ◌&&◌, ◌||◌, Option, none, some, List,
  [], ◌∷◌, ◌++◌, ltb, leb, if◌then◌else◌,
}

-- The settings of `Consumer.__init__` that a message depends on.
pub record Settings : Type 0 where
  pub max_retries : ℕ
  pub initial_backoff : ℕ
  pub max_backoff : ℕ

-- What a POST ends in: an `httpx.RequestError`, or a status code.
pub data Reply : Type 0 where
  request_error : Reply
  status : ℕ → Reply

-- The `payload` of a DLQ record: the raw text, a JSON value, `{}`, or the validated request.
pub data DlqPayload (J R : Type 0) : Type 0 where
  raw : DlqPayload J R
  value : J → DlqPayload J R
  nothing : DlqPayload J R
  request : R → DlqPayload J R

pub data Reason : Type 0 where
  decode_failure invalid_shape : Reason
  http : ℕ → Reason

-- What `_send_to_dlq` finds: no producer, a broker that takes the record, or a KafkaError, which it
-- logs and swallows.
pub data Dlq : Type 0 where
  no_producer delivers fails : Dlq

-- An effect of `_process_message`: a POST, a wait, a DLQ record that the broker took or one that it
-- did not, the call of `consumer.commit()`, or an exception that is raised out of it.
pub data Effect (J R : Type 0) : Type 0 where
  posted : R → Effect J R
  slept : ℕ → Effect J R
  dead_lettered : DlqPayload J R → Reason → Effect J R
  dlq_failed : DlqPayload J R → Reason → Effect J R
  committed : Effect J R
  raised : Effect J R

unfoldable pub is_success : ℕ → Bool
is_success code = leb 200 code && ltb code 300

unfoldable pub is_client_error : ℕ → Bool
is_client_error code = leb 400 code && ltb code 500

abbrev pub min : ℕ → ℕ → ℕ
min a b = if leb a b then a else b

-- `min(self._initial_backoff * (2**attempt), self._max_backoff)`
unfoldable pub backoff : Settings → ℕ → ℕ
backoff s attempt = min (s.initial_backoff * 2 ^ attempt) s.max_backoff

module _ {J R : Type 0} where
  -- `_send_to_dlq`
  unfoldable pub send_to_dlq : Dlq → DlqPayload J R → Reason → List (Effect J R)
  send_to_dlq Dlq.no_producer payload reason = []
  send_to_dlq Dlq.delivers payload reason = Effect.dead_lettered payload reason ∷ []
  send_to_dlq Dlq.fails payload reason = Effect.dlq_failed payload reason ∷ []

  -- The record to the DLQ, and then the commit.
  unfoldable pub reject : Dlq → DlqPayload J R → Reason → List (Effect J R)
  reject dlq payload reason = send_to_dlq dlq payload reason ++ Effect.committed ∷ []

  -- What follows a retryable reply: a wait and the next attempts, or the end of the retries.
  unfoldable pub retry : Settings → ℕ → List (Effect J R) → List (Effect J R)
  retry s attempt rest =
      if ltb attempt (s.max_retries - 1) then Effect.slept (backoff s attempt) ∷ rest else []

  -- What follows a reply.
  unfoldable pub on_reply : Settings → Dlq → R → ℕ → Reply → List (Effect J R) → List (Effect J R)
  on_reply s dlq q attempt Reply.request_error rest = retry s attempt rest
  on_reply s dlq q attempt (Reply.status code) rest =
      if is_success code
      then Effect.committed ∷ []
      else if is_client_error code
      then reject dlq (DlqPayload.request q) (Reason.http code)
      else retry s attempt rest

  -- The attempts that are left of `for attempt in range(self._max_retries)`.
  unfoldable pub attempts : Settings → Dlq → R → (ℕ → Reply) → ℕ → ℕ → List (Effect J R)
  attempts s dlq q post zero attempt = []
  attempts s dlq q post (suc left) attempt =
      let rest = attempts s dlq q post left (suc attempt) in
      Effect.posted q ∷ on_reply s dlq q attempt (post attempt) rest

  -- `_process_message`, once `model_validate` has returned or raised
  unfoldable pub on_validated :
      Settings → Dlq → (J → Bool) → (ℕ → Reply) → J → Option R → List (Effect J R)
  on_validated s dlq is_dict post v none =
      let payload = if is_dict v then DlqPayload.value v else DlqPayload.nothing in
      reject dlq payload Reason.invalid_shape
  on_validated s dlq is_dict post v (some q) = attempts s dlq q post s.max_retries 0

  -- `_process_message`, once `json.loads` has returned or raised
  unfoldable pub on_decoded :
      Settings → Dlq → (J → Option R) → (J → Bool) → (ℕ → Reply) → Option J → List (Effect J R)
  on_decoded s dlq validate is_dict post none = reject dlq DlqPayload.raw Reason.decode_failure
  on_decoded s dlq validate is_dict post (some v) = on_validated s dlq is_dict post v (validate v)

  -- `_process_message`; where the value of the message is null, the handler of the AttributeError
  -- reads `msg.value.decode` itself and raises.
  unfoldable pub process_message :
      Settings
      → Dlq
      → (String → Option J)
      → (J → Option R)
      → (J → Bool)
      → (ℕ → Reply)
      → Option String
      → List (Effect J R)
  process_message s dlq loads validate is_dict post none = Effect.raised ∷ []
  process_message s dlq loads validate is_dict post (some text) =
      on_decoded s dlq validate is_dict post (loads text)

  unfoldable pub is_commit : Effect J R → Bool
  is_commit e = elim e [ Effect.committed ↦ true | _ ↦ false ]
