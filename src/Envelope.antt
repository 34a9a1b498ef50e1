-- ===== src/Envelope.antt =====
-- app/core/envelope.py: the middleware that wraps JSON responses, and the exception handlers. The
-- JSON codec, str of a JSON value and str.lower are arguments. A response carries its content type
-- apart from its other headers.
pub mod Once
use opencode_gateway.Prelude.Dict.{get}
use opencode_gateway.Prelude.{
  ℕ, String, Bool, true, false, ◌&&◌, ◌||◌, not, Option, none, some, List, [], ◌∷◌, ◌==◌, nat_eq,
  string_eq, ltb, leb, if◌then◌else◌, filter, is_some,
}

mutual
  -- A JSON value, as `json.loads` returns it.
  pub data Json : Type 0 where
    null : Json
    boolean : Bool → Json
    number : String → Json
    text : String → Json
    array : Items → Json
    object : Fields → Json

  pub data Items : Type 0 where
    no_items : Items
    item : Json → Items → Items

  pub data Fields : Type 0 where
    no_fields : Fields
    field : String → Json → Fields → Fields

-- `data.get(key)`
unfoldable pub get_field : String → Fields → Option Json
get_field key Fields.no_fields = none
get_field key (Fields.field k v fs) =
    let rest = get_field key fs in if k == key then some v else rest

pub record Response : Type 0 where
  pub status_code : ℕ
  pub content_type : String
  pub headers : List (String × String)
  pub body : String

-- `_STATUS_TO_ERROR_CODE`
abbrev pub status_to_error_code : List (ℕ × String)
status_to_error_code =
    (400, "BAD_REQUEST")
    ∷ (401, "UNAUTHORIZED")
    ∷ (403, "FORBIDDEN")
    ∷ (404, "NOT_FOUND")
    ∷ (409, "CONFLICT")
    ∷ (422, "VALIDATION_ERROR")
    ∷ (424, "FAILED_DEPENDENCY")
    ∷ (500, "INTERNAL_ERROR")
    ∷ (503, "SERVICE_UNAVAILABLE")
    ∷ (504, "GATEWAY_TIMEOUT")
    ∷ []

-- `_status_to_code`
unfoldable pub status_to_code : ℕ → String
status_to_code code = elim (get code status_to_error_code) [ none ↦ "HTTP_ERROR" | some c ↦ c ]

abbrev pub success_body : Json → Json
success_body data_ =
    Json.object
      (Fields.field "status" (Json.text "ok") (Fields.field "data" data_ Fields.no_fields))

abbrev pub error_body : String → String → Json
error_body code message = Json.object (
    Fields.field "status" (Json.text "error") (
      Fields.field "error"
        (Json.object (
          Fields.field "code" (Json.text code)
            (Fields.field "message" (Json.text message) Fields.no_fields)))
        Fields.no_fields))

-- `data.get("status") in ("ok", "error")`
unfoldable pub has_status : Fields → Bool
has_status fs = elim (get_field "status" fs) [
  | some (Json.text s) ↦ s == "ok" || s == "error"
  | _ ↦ false
]

-- The body already carries an envelope.
unfoldable pub is_wrapped : Json → Bool
is_wrapped (Json.object fs) =
    has_status fs && (is_some (get_field "data" fs) || is_some (get_field "error" fs))
is_wrapped _ = false

-- What the middleware relies on outside the repository.
pub record JsonCodec : Type 0 where
  pub loads : String → Option Json
  pub dumps : Json → String
  pub str : Json → String
  pub lower : String → String
  pub is_json_type : String → Bool

-- `dict(response.headers)`: a header that is repeated stands once, with its first value.
unfoldable pub first_values : List (String × String) → List (String × String)
first_values [] = []
first_values (h ∷ headers) =
    h ∷ filter (λ (x : String × String). not (x.0 == h.0)) (first_values headers)

-- `{k: v for k, v in dict(response.headers).items() if k.lower() != "content-length"}`
unfoldable pub new_headers : JsonCodec → List (String × String) → List (String × String)
new_headers codec headers =
    filter (λ (h : String × String). not (codec.lower h.0 == "content-length"))
      (first_values headers)

-- The envelope of a body that has none.
unfoldable pub wrap : JsonCodec → ℕ → Json → Json
wrap codec code data_ =
    if leb 200 code && ltb code 300
    then success_body data_
    else error_body (status_to_code code) (codec.str data_)

abbrev pub with_body : JsonCodec → Response → String → Response
with_body codec r body = record r { headers = new_headers codec r.headers; body = body }

unfoldable pub enveloped : JsonCodec → Response → Option Json → Response
enveloped codec r none = with_body codec r r.body
enveloped codec r (some data_) =
    let body = if is_wrapped data_ then data_ else wrap codec r.status_code data_ in
    with_body codec r (codec.dumps body)

-- `ResponseEnvelopeMiddleware.dispatch`, on the response of the inner application
unfoldable pub dispatch : JsonCodec → Response → Response
dispatch codec r =
    if r.status_code == 204 || not (codec.is_json_type r.content_type)
    then r
    else enveloped codec r (codec.loads r.body)

-- An `HTTPException`: its detail is a text, or a JSON object.
pub data Detail : Type 0 where
  plain : String → Detail
  structured : Fields → Detail

unfoldable pub message_of : (Json → String) → Detail → Json
message_of str (Detail.plain s) = Json.text s
message_of str (Detail.structured fs) = elim (get_field "message" fs) [
  | none ↦ Json.text (str (Json.object fs))
  | some m ↦ m
]

-- An error response: its status code and its content.
pub record ErrorResponse : Type 0 where
  pub status_code : ℕ
  pub content : Json

abbrev pub error_content : String → Json → Json
error_content code message = Json.object (
    Fields.field "status" (Json.text "error") (
      Fields.field "error"
        (Json.object
          (Fields.field "code" (Json.text code) (Fields.field "message" message Fields.no_fields)))
        Fields.no_fields))

-- `http_exception_handler`
unfoldable pub http_exception_handler : (Json → String) → ℕ → Detail → ErrorResponse
http_exception_handler str code detail = record {
  status_code = code;
  content = error_content (status_to_code code) (message_of str detail);
}

-- `validation_exception_handler`, less its logging
unfoldable pub validation_exception_handler : ErrorResponse
validation_exception_handler = record {
  status_code = 422;
  content = error_body "VALIDATION_ERROR" "Request validation failed";
}

-- `timeout_exception_handler`
unfoldable pub timeout_exception_handler : ErrorResponse
timeout_exception_handler = record {
  status_code = 504;
  content = error_body "GATEWAY_TIMEOUT" "The request exceeded its configured time budget";
}
