-- ===== src/Envelope/Once.antt =====
-- The envelope is put on once: a response that went through the middleware passes it unchanged.
use opencode_gateway.Prelude.{
  ℕ, String, ◌≡◌, refl, ap, sym, ◌∙◌, inl, inr, Bool, true, false, ◌&&◌, ◌||◌, not, Option, none,
  some, List, [], ◌∷◌, arith, ◌==◌, nat_eq, string_eq, string_discrete, ltb, leb, if◌then◌else◌,
  filter, any, Bool-cases,
}
use opencode_gateway.Envelope.{
  Json, Response, get_field, has_status, is_wrapped, error_content, JsonCodec, first_values,
  new_headers, wrap, with_body, enveloped, dispatch, Detail, http_exception_handler,
  validation_exception_handler, timeout_exception_handler,
}

wrapped-error_content : (code : String) (m : Json) → is_wrapped (error_content code m) ≡ true
unfolding is_wrapped has_status get_field string_discrete
wrapped-error_content code m = refl

wrapped-wrap : (codec : JsonCodec) (code : ℕ) (j : Json) → is_wrapped (wrap codec code j) ≡ true
unfolding wrap is_wrapped has_status get_field string_discrete
wrapped-wrap codec code j = elim (Bool-cases (leb 200 code && ltb code 300)) [
  | inl e ↦ rw e refl
  | inr e ↦ rw e refl
]

-- No name stands twice.
are_distinct : List (String × String) → Bool
are_distinct [] = true
are_distinct (h ∷ headers) = not (any (λ x. x.0 == h.0) headers) && are_distinct headers

any-filter_none :
    (p q : String × String → Bool) (headers : List (String × String))
    → any q headers ≡ false
    → any q (filter p headers) ≡ false
unfolding any filter
any-filter_none p q [] none_of = refl
any-filter_none p q (h ∷ headers) none_of = ground (arith, any-filter_none p q headers)

any-filter-not :
    (q : String × String → Bool) (headers : List (String × String))
    → any q (filter (λ x. not (q x)) headers) ≡ false
unfolding any filter
any-filter-not q [] = refl
any-filter-not q (h ∷ headers) = ground (arith, any-filter-not q headers)

distinct-filter :
    (p : String × String → Bool) (headers : List (String × String))
    → are_distinct headers ≡ true
    → are_distinct (filter p headers) ≡ true
unfolding are_distinct filter
distinct-filter p [] distinct = refl
distinct-filter p (h ∷ headers) distinct =
    ground (arith, any-filter_none p (λ x. x.0 == h.0) headers, distinct-filter p headers)

distinct-first_values :
    (headers : List (String × String)) → are_distinct (first_values headers) ≡ true
unfolding are_distinct first_values
distinct-first_values [] = refl
distinct-first_values (h ∷ headers) = ground (
  arith,
  any-filter-not (λ x. x.0 == h.0) (first_values headers),
  distinct-filter (λ x. not (x.0 == h.0)) (first_values headers) (distinct-first_values headers),
)

filter-filter_same {ℓ} :
    {A : Type ℓ} (p : A → Bool) (xs : List A) → filter p (filter p xs) ≡ filter p xs
unfolding filter
filter-filter_same p [] = refl
filter-filter_same p (x ∷ xs) = ground (arith, filter-filter_same p xs)

filter_all :
    (q : String × String → Bool) (headers : List (String × String))
    → any q headers ≡ false
    → filter (λ x. not (q x)) headers ≡ headers
unfolding any filter
filter_all q [] none_of = refl
filter_all q (h ∷ headers) none_of = ground (arith, filter_all q headers)

first_values_of_distinct :
    (headers : List (String × String))
    → are_distinct headers ≡ true
    → first_values headers ≡ headers
unfolding are_distinct first_values
first_values_of_distinct [] distinct = refl
first_values_of_distinct (h ∷ headers) distinct =
    let rest = first_values_of_distinct headers (ground arith) in
    let kept = filter_all (λ x. x.0 == h.0) headers (ground arith) in
    ap (λ (hs : List (String × String)). h ∷ hs)
      (ap (filter (λ (x : String × String). not (x.0 == h.0))) rest ∙ kept)

twice_headers :
    (codec : JsonCodec) (h : List (String × String))
    → new_headers codec (new_headers codec h) ≡ new_headers codec h
unfolding new_headers
twice_headers codec h =
    let p = λ (x : String × String). not (codec.lower x.0 == "content-length") in
    ap (filter p) (
      first_values_of_distinct (filter p (first_values h))
        (distinct-filter p (first_values h) (distinct-first_values h)))
    ∙ filter-filter_same p (first_values h)

-- The JSON value that the middleware sends for the one it reads.
unfoldable pub body_of : JsonCodec → ℕ → Json → Json
body_of codec code j = if is_wrapped j then j else wrap codec code j

wrapped-body_of :
    (codec : JsonCodec) (code : ℕ) (j : Json) → is_wrapped (body_of codec code j) ≡ true
unfolding body_of
wrapped-body_of codec code j = ground (arith, wrapped-wrap codec code j)

same_body :
    (codec : JsonCodec) (r : Response) (a b : String)
    → with_body codec (with_body codec r a) b ≡ with_body codec r b
same_body codec r a b =
    ap (λ (h : List (String × String)). record r { headers = h; body = b })
      (twice_headers codec r.headers)

kept_body :
    (codec : JsonCodec) (code : ℕ) (j : Json)
    → is_wrapped j ≡ true
    → (if is_wrapped j then j else wrap codec code j) ≡ j
kept_body codec code j h = ground arith

twice_enveloped :
    (codec : JsonCodec) (r : Response) (parsed : Option Json)
    → ((j : Json)
        → codec.loads r.body ≡ some j
        → codec.loads (codec.dumps (body_of codec r.status_code j))
          ≡ some (body_of codec r.status_code j))
    → codec.loads r.body ≡ parsed
    → let once = enveloped codec r parsed in enveloped codec once (codec.loads once.body) ≡ once
unfolding enveloped body_of
twice_enveloped codec r none h e =
    ap (enveloped codec (with_body codec r r.body)) e ∙ same_body codec r r.body r.body
twice_enveloped codec r (some j) h e =
    let w = body_of codec r.status_code j in
    let once = with_body codec r (codec.dumps w) in
    ap (enveloped codec once) (h j e)
    ∙ (ap (λ (b : Json). with_body codec once (codec.dumps b))
          (kept_body codec r.status_code w (wrapped-body_of codec r.status_code j))
        ∙ same_body codec r (codec.dumps w) (codec.dumps w))

passes : JsonCodec → Response → Bool
passes codec r = r.status_code == 204 || not (codec.is_json_type r.content_type)

untouched : (codec : JsonCodec) (r : Response) → passes codec r ≡ true → dispatch codec r ≡ r
unfolding dispatch passes
untouched codec r h = ground arith

touched :
    (codec : JsonCodec) (r : Response)
    → passes codec r ≡ false
    → dispatch codec r ≡ enveloped codec r (codec.loads r.body)
unfolding dispatch passes
touched codec r h = ground arith

passes-enveloped :
    (codec : JsonCodec) (r : Response) (parsed : Option Json)
    → passes codec (enveloped codec r parsed) ≡ passes codec r
unfolding enveloped passes
passes-enveloped codec r none = refl
passes-enveloped codec r (some j) = refl

-- A response that went through the middleware passes it again unchanged, whatever it is: its body
-- gets one envelope, never two. The JSON codec is assumed to read back what it writes for that body.
pub envelope_is_put_once :
    (codec : JsonCodec) (r : Response)
    → ((j : Json)
        → codec.loads r.body ≡ some j
        → codec.loads (codec.dumps (body_of codec r.status_code j))
          ≡ some (body_of codec r.status_code j))
    → dispatch codec (dispatch codec r) ≡ dispatch codec r
envelope_is_put_once codec r h = elim (Bool-cases (passes codec r)) [
  | inl e ↦ ap (dispatch codec) (untouched codec r e)
  | inr e ↦
      let once = enveloped codec r (codec.loads r.body) in
      ap (dispatch codec) (touched codec r e)
      ∙ (touched codec once (passes-enveloped codec r (codec.loads r.body) ∙ e)
          ∙ (twice_enveloped codec r (codec.loads r.body) h refl ∙ sym (touched codec r e)))
]

-- The content of an error handler, sent with the content type of JSON, is an envelope already: the
-- middleware does not wrap it.
pub handlers_send_envelopes :
    (str : Json → String) (code : ℕ) (detail : Detail)
    → (is_wrapped (http_exception_handler str code detail).content ≡ true)
      × (is_wrapped validation_exception_handler.content ≡ true)
      × (is_wrapped timeout_exception_handler.content ≡ true)
unfolding http_exception_handler validation_exception_handler timeout_exception_handler is_wrapped
    has_status get_field string_discrete
handlers_send_envelopes str code detail = (refl, refl, refl)
