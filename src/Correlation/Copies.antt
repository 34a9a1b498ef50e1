-- ===== src/Correlation/Copies.antt =====
-- The copies of an entity: one is kept, and it is the owner's where there is one.
use opencode_gateway.Prelude.{
  ◌+◌, String, ◌≡◌, refl, Bool, false, ◌&&◌, ◌||◌, not, Option, none, some, List, [], ◌∷◌, arith,
  string_eq, option_eq, ◌==◌, any, filter, length, indicator,
}
use opencode_gateway.Correlation.{EngineeringEntity, TextReader}
use opencode_gateway.Correlation.Links.{
  is_preferred, keep_copy, keep_copies, owner_id, dedupe_entities,
}

unfoldable pub is_copy : String → EngineeringEntity → Bool
is_copy k e = e.entity_id == k

-- A copy of the entity that belongs to the owner.
unfoldable pub is_owned_copy : String → Option String → EngineeringEntity → Bool
is_owned_copy k none e = false
is_owned_copy k (some owner) e = e.entity_id == k && e.owning_change_request_id == some owner

any-keep_copy :
    (k : String) (owner : Option String) (e : EngineeringEntity) (d : List EngineeringEntity)
    → any (is_copy k) (keep_copy owner e d) ≡ (is_copy k e || any (is_copy k) d)
unfolding keep_copy any is_copy
any-keep_copy k owner e [] = ground arith
any-keep_copy k owner e (x ∷ d) = ground (arith, any-keep_copy k owner e d)

count-keep_copy :
    (k : String) (owner : Option String) (e : EngineeringEntity) (d : List EngineeringEntity)
    → length (filter (is_copy k) (keep_copy owner e d))
      ≡ length (filter (is_copy k) d) + indicator (is_copy k e && not (any (is_copy k) d))
unfolding keep_copy filter any is_copy
count-keep_copy k owner e [] = ground arith
count-keep_copy k owner e (x ∷ d) = ground (arith, count-keep_copy k owner e d)

-- An owned copy stays, and is taken where it comes.
owned-keep_copy :
    (k : String) (owner : Option String) (e : EngineeringEntity) (d : List EngineeringEntity)
    → any (is_owned_copy k owner) (keep_copy owner e d)
      ≡ (is_owned_copy k owner e || any (is_owned_copy k owner) d)
unfolding keep_copy any is_owned_copy is_preferred
owned-keep_copy k none e [] = refl
owned-keep_copy k none e (x ∷ d) = ground (arith, owned-keep_copy k none e d)
owned-keep_copy k (some o) e [] = refl
owned-keep_copy k (some o) e (x ∷ d) = ground (arith, owned-keep_copy k (some o) e d)

count-keep_copies :
    (k : String) (owner : Option String) (es d : List EngineeringEntity)
    → length (filter (is_copy k) d) ≡ indicator (any (is_copy k) d)
    → length (filter (is_copy k) (keep_copies owner es d))
      ≡ indicator (any (is_copy k) es || any (is_copy k) d)
unfolding keep_copies any
count-keep_copies k owner [] d h = ground (arith, h)
count-keep_copies k owner (e ∷ es) d h = ground (
  arith,
  h,
  count-keep_copies k owner es (keep_copy owner e d),
  count-keep_copy k owner e d,
  any-keep_copy k owner e d,
)

owned-keep_copies :
    (k : String) (owner : Option String) (es d : List EngineeringEntity)
    → any (is_owned_copy k owner) (keep_copies owner es d)
      ≡ (any (is_owned_copy k owner) es || any (is_owned_copy k owner) d)
unfolding keep_copies any
owned-keep_copies k owner [] d = ground arith
owned-keep_copies k owner (e ∷ es) d =
    ground (arith, owned-keep_copies k owner es (keep_copy owner e d), owned-keep_copy k owner e d)

-- Of the copies of an entity exactly one is kept, none of an entity that is not there, and the copy
-- that is kept is one of the owning change request exactly when there is such a copy.
pub one_copy_kept :
    (reader : TextReader) (entities : List EngineeringEntity) (owning : Option EngineeringEntity)
    (entity_id : String)
    → let kept = dedupe_entities reader entities owning in
      (length (filter (is_copy entity_id) kept) ≡ indicator (any (is_copy entity_id) entities))
      × (any (is_owned_copy entity_id (owner_id reader owning)) kept
          ≡ any (is_owned_copy entity_id (owner_id reader owning)) entities)
unfolding dedupe_entities any filter
one_copy_kept reader entities owning entity_id = (
  ground (arith, count-keep_copies entity_id (owner_id reader owning) entities [] (omega arith)),
  ground (arith, owned-keep_copies entity_id (owner_id reader owning) entities []),
)
