-- ===== src/Tests/Web.antt =====
-- The response envelope and the page cursor at concrete responses.
use opencode_gateway.Prelude.{
  ℕ, zero, suc, ◌≡◌, refl, subst, ap, true, false, none, some, List, [], ◌∷◌, string_eq, nat_eq,
  ◌==◌, string_discrete, ℕ_discrete, contains, length, if◌then◌else◌,
}
use opencode_gateway.Envelope.{
  Json, Response, JsonCodec, dispatch, wrap, is_wrapped, success_body, http_exception_handler,
  validation_exception_handler, timeout_exception_handler, Detail,
}
use opencode_gateway.Envelope.Once.{body_of, envelope_is_put_once, handlers_send_envelopes}
use opencode_gateway.Pagination.{
  Codec, Decoded, decode_cursor, next_cursor, decode_cursor-next_cursor,
}

-- A codec of one body and its envelope.
abbrev small_codec : JsonCodec
small_codec = record {
  loads = λ s.
      if s == "1"
      then some (Json.number "1")
      else if s == "wrapped"
      then some (success_body (Json.number "1"))
      else none;
  dumps = λ _. "wrapped";
  str = λ _. "1";
  lower = λ s. s;
  is_json_type = λ s. s == "application/json";
}

abbrev one_response : Response
one_response = record {
  status_code = 200;
  content_type = "application/json";
  headers = ("content-length", "1") ∷ [];
  body = "1";
}

reads_back :
    (j : Json)
    → small_codec.loads "1" ≡ some j
    → small_codec.loads (small_codec.dumps (body_of small_codec 200 j))
      ≡ some (body_of small_codec 200 j)
unfolding body_of wrap is_wrapped string_discrete
reads_back j h =
    let same : Json.number "1" ≡ j = cc in
    subst (λ (k : Json). some (success_body (Json.number "1")) ≡ some (body_of small_codec 200 k))
      same refl

envelope_is_put_once_example :
    dispatch small_codec (dispatch small_codec one_response) ≡ dispatch small_codec one_response
envelope_is_put_once_example = envelope_is_put_once small_codec one_response reads_back

handlers_send_envelopes_example :
    (is_wrapped (http_exception_handler (λ _. "") 409 (Detail.plain "Conflict")).content ≡ true)
    × (is_wrapped validation_exception_handler.content ≡ true)
    × (is_wrapped timeout_exception_handler.content ≡ true)
handlers_send_envelopes_example = handlers_send_envelopes (λ _. "") 409 (Detail.plain "Conflict")

-- A codec of characters as numbers, which writes a number in unary.
abbrev ones : ℕ → List ℕ
ones zero = []
ones (suc n) = 1 ∷ ones n

abbrev unary : Codec ℕ ℕ
unary = record {
  colon = 58;
  str = ones;
  int = λ cs. some (length cs);
  uuid = λ cs. some (length cs);
  urlsafe_b64encode = λ cs. cs;
  urlsafe_b64decode = λ cs. some cs;
}

length-ones : (n : ℕ) → length (ones n) ≡ n
length-ones zero = refl
length-ones (suc n) = ap suc (length-ones n)

contains-ones : (n : ℕ) → contains 58 (ones n) ≡ false
unfolding contains ℕ_discrete
contains-ones zero = refl
contains-ones (suc n) = contains-ones n

decode_cursor-next_cursor_example :
    decode_cursor unary (next_cursor unary (some 7) (2 ∷ 3 ∷ [])) ≡ Decoded.decoded 7 2
decode_cursor-next_cursor_example =
    decode_cursor-next_cursor unary (some 7) (2 ∷ 3 ∷ []) 2 (λ raw. refl)
      (λ n. ap some (length-ones n)) contains-ones refl
