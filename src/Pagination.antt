-- ===== src/Pagination.antt =====
-- app/api/pagination.py: the keyset cursor of the list endpoints. A text is a list of characters;
-- base64, str and int of numbers, and UUID are arguments.
use opencode_gateway.Prelude.{
  ℕ, ◌^◌, ◌≡◌, ◌∙◌, ap, ap₂, false, Option, none, some, List, [], ◌∷◌, ◌++◌, arith, Eq, ◌==◌,
  if◌then◌else◌, contains,
}

-- What the code relies on outside the repository.
pub record Codec (C U : Type 0) : Type 0 where
  pub colon : C
  pub str : ℕ → List C
  pub int : List C → Option ℕ
  pub uuid : List C → Option U
  pub urlsafe_b64encode : List C → List C
  pub urlsafe_b64decode : List C → Option (List C)

-- `NULL_CURSOR_SENTINEL`
abbrev pub null_cursor_sentinel : ℕ
null_cursor_sentinel = 2 ^ 62

-- A decoded cursor, or the 400 that `decode_cursor` raises.
pub data Decoded (U : Type 0) : Type 0 where
  decoded : ℕ → U → Decoded U
  bad_request : Decoded U

-- `source_created_at if source_created_at is not None else NULL_CURSOR_SENTINEL`
abbrev pub sort_time : Option ℕ → ℕ
sort_time none = null_cursor_sentinel
sort_time (some t) = t

module _ {C : Type 0} ⦃eq : Eq C⦄ where
  -- `raw.split(":", 1)`, none where there is no colon and the pair cannot be unpacked
  unfoldable pub split_once : C → List C → Option (List C × List C)
  split_once colon [] = none
  split_once colon (c ∷ cs) =
      let rest = split_once colon cs in
      if c == colon then some ([], cs) else elim rest [ none ↦ none | some p ↦ some (c ∷ p.0, p.1) ]

  split_once-append :
      (colon : C) (xs ys : List C)
      → contains colon xs ≡ false
      → split_once colon (xs ++ colon ∷ ys) ≡ some (xs, ys)
  unfolding split_once contains
  split_once-append colon [] ys h = ground arith
  split_once-append colon (x ∷ xs) ys h = ground (arith, split_once-append colon xs ys)

-- The pair that is returned, from what int and UUID return or raise.
unfoldable pub decode_pair : {U : Type 0} → Option ℕ → Option U → Decoded U
decode_pair none id = Decoded.bad_request
decode_pair (some ms) none = Decoded.bad_request
decode_pair (some ms) (some u) = Decoded.decoded ms u

module _ {C U : Type 0} ⦃eq : Eq C⦄ where
  -- `encode_cursor`
  unfoldable pub encode_cursor : Codec C U → ℕ → List C → List C
  encode_cursor codec source_created_at row_id =
      codec.urlsafe_b64encode (codec.str source_created_at ++ codec.colon ∷ row_id)

  unfoldable pub decode_parts : Codec C U → Option (List C × List C) → Decoded U
  decode_parts codec none = Decoded.bad_request
  decode_parts codec (some p) = decode_pair (codec.int p.0) (codec.uuid p.1)

  unfoldable pub decode_raw : Codec C U → Option (List C) → Decoded U
  decode_raw codec none = Decoded.bad_request
  decode_raw codec (some raw) = decode_parts codec (split_once codec.colon raw)

  -- `decode_cursor`
  unfoldable pub decode_cursor : Codec C U → List C → Decoded U
  decode_cursor codec cursor = decode_raw codec (codec.urlsafe_b64decode cursor)

  -- `next_cursor`
  unfoldable pub next_cursor : Codec C U → Option ℕ → List C → List C
  next_cursor codec source_created_at row_id =
      encode_cursor codec (sort_time source_created_at) row_id

  -- The cursor of a row decodes to the place of the row in the order of the pages: its time, or the
  -- sentinel where it has none, and its id. The codec is assumed to be as documented at that row:
  -- base64 decodes what it encodes, int reads what str writes, which has no colon, and the id of
  -- the row is that of a UUID.
  pub decode_cursor-next_cursor :
      (codec : Codec C U) (t : Option ℕ) (row_id : List C) (u : U)
      → ((raw : List C) → codec.urlsafe_b64decode (codec.urlsafe_b64encode raw) ≡ some raw)
      → ((n : ℕ) → codec.int (codec.str n) ≡ some n)
      → ((n : ℕ) → contains codec.colon (codec.str n) ≡ false)
      → codec.uuid row_id ≡ some u
      → decode_cursor codec (next_cursor codec t row_id) ≡ Decoded.decoded (sort_time t) u
  unfolding decode_cursor next_cursor encode_cursor decode_raw decode_parts decode_pair
  decode_cursor-next_cursor codec t row_id u base64 number no_colon is_id =
      let time = sort_time t in
      let split = split_once-append codec.colon (codec.str time) row_id (no_colon time) in
      ap (decode_raw codec) (base64 (codec.str time ++ codec.colon ∷ row_id))
      ∙ (ap (decode_parts codec) split ∙ ap₂ decode_pair (number time) is_id)
