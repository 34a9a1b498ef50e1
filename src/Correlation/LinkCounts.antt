-- ===== src/Correlation/LinkCounts.antt =====
-- How many links of an entity each loop of `_entity_links` adds.
use opencode_gateway.Prelude.{
  ℕ, ◌≤◌, String, ◌≡◌, refl, subst, inl, inr, Bool, true, false, ◌&&◌, ◌||◌, Option, none, some,
  List, [], ◌∷◌, map, arith, string_eq, option_eq, ◌==◌, leb, any, filter, contains, length,
  Bool-cases,
}
use opencode_gateway.Domain.{EntityType, entity_eq}
use opencode_gateway.Correlation.{EngineeringEntity, TextReader, Correlation, of_type}
use opencode_gateway.Correlation.Engine.{binds}
use opencode_gateway.Correlation.Copies.{is_copy}
use opencode_gateway.Correlation.Links.{
  RunEntityLink, direct_link, noise_link, inherits, lineage, lineage_links, owning_confidence,
}

unfoldable pub links_to : String → RunEntityLink → Bool
links_to k l = l.entity_id == k

unfoldable pub bound_ids : List Correlation → List String
bound_ids cs = map (λ (c : Correlation). c.entity_id) cs

pub count-direct_link :
    (k : String) (cs : List Correlation)
    → length (filter (links_to k) (map direct_link cs)) ≡ length (filter (binds k) cs)
unfolding filter links_to binds
count-direct_link k [] = refl
count-direct_link k (c ∷ cs) = ground (arith, count-direct_link k cs)

pub contains-bound_ids :
    (k : String) (cs : List Correlation) → contains k (bound_ids cs) ≡ any (binds k) cs
unfolding bound_ids contains any binds
contains-bound_ids k [] = refl
contains-bound_ids k (c ∷ cs) = ground (arith, contains-bound_ids k cs)

-- A copy of one of two types.
unfoldable pub copy_of : String → (EngineeringEntity → Bool) → EngineeringEntity → Bool
copy_of k p e = is_copy k e && p e

unfoldable pub is_lineage : EngineeringEntity → Bool
is_lineage e = e.entity_type == EntityType.commit || e.entity_type == EntityType.review

of_commit : EngineeringEntity → Bool
of_commit e = e.entity_type == EntityType.commit

of_change_request : EngineeringEntity → Bool
of_change_request e = e.entity_type == EntityType.change_request

-- The noise links to an entity: no more than its copies of the type, and none where they are left
-- out by a test on the id.
pub count-noise_link :
    (k : String) (t : EntityType) (p : EngineeringEntity → Bool) (es : List EngineeringEntity)
    → length (filter (links_to k) (map noise_link (filter p (of_type t es))))
      ≤ length (filter (copy_of k (λ (e : EngineeringEntity). e.entity_type == t)) es)
unfolding filter links_to of_type copy_of is_copy
count-noise_link k t p [] = omega arith
count-noise_link k t p (e ∷ es) = ground (arith, count-noise_link k t p es)

pub no_noise_link :
    (k : String) (t : EntityType) (p : EngineeringEntity → Bool) (es : List EngineeringEntity)
    → ((e : EngineeringEntity) → e.entity_id ≡ k → p e ≡ false)
    → length (filter (links_to k) (map noise_link (filter p (of_type t es)))) ≡ 0
unfolding filter links_to of_type
no_noise_link k t p [] h = refl
no_noise_link k t p (e ∷ es) h = ground (arith, h e, no_noise_link k t p es h)

inherits_cases :
    (k owner : String) (linked : List String) (e : EngineeringEntity)
    → inherits owner linked e ≡ true
    → e.entity_id ≡ k
    → (contains k linked ≡ false) × (is_lineage e ≡ true)
unfolding inherits is_lineage
inherits_cases k owner linked e h same =
    let here : contains e.entity_id linked ≡ false = ground arith in
    (subst (λ i. contains i linked ≡ false) same here, ground arith)

stays_linked :
    (k j : String) (linked : List String)
    → contains k linked ≡ true
    → contains k (j ∷ linked) ≡ true
unfolding contains
stays_linked k j linked h = ground arith

now_linked : (k j : String) (linked : List String) → j == k ≡ true → contains k (j ∷ linked) ≡ true
unfolding contains
now_linked k j linked h = ground arith

unfoldable pub count_lineage : String → List RunEntityLink × List String → ℕ
count_lineage k result = length (filter (links_to k) result.0)

-- An entity that is linked already gets no lineage link, and stays linked.
no_lineage :
    (k owner : String) (confidence : ℕ) (es : List EngineeringEntity) (linked : List String)
    → contains k linked ≡ true
    → (count_lineage k (lineage owner confidence es linked) ≡ 0)
      × (contains k (lineage owner confidence es linked).1 ≡ true)
unfolding lineage filter count_lineage links_to
no_lineage k owner confidence [] linked h = (refl, h)
no_lineage k owner confidence (e ∷ es) linked h = elim (Bool-cases (inherits owner linked e)) [
  | inl inh ↦
      let later =
        no_lineage k owner confidence es (e.entity_id ∷ linked)
          (stays_linked k e.entity_id linked h) in
      let other = inherits_cases k owner linked e inh in
      let elsewhere : (e.entity_id == k) ≡ false = ground (arith, h, other) in
      rw inh (ground (arith, elsewhere, later.0), later.1)
  | inr skip ↦ rw skip (no_lineage k owner confidence es linked h)
]

-- The lineage links to an entity: at most its copies on the branch, and where there is one the
-- entity is linked afterwards.
lineage_counts :
    (k owner : String) (confidence : ℕ) (es : List EngineeringEntity) (linked : List String)
    → (count_lineage k (lineage owner confidence es linked)
        ≤ length (filter (copy_of k is_lineage) es))
      × ((leb (count_lineage k (lineage owner confidence es linked)) 0
            || contains k (lineage owner confidence es linked).1)
          ≡ true)
unfolding lineage filter count_lineage links_to copy_of is_copy
lineage_counts k owner confidence [] linked = (omega arith, ground arith)
lineage_counts k owner confidence (e ∷ es) linked = elim (Bool-cases (inherits owner linked e)) [
  | inl inh ↦ elim (Bool-cases (e.entity_id == k)) [
    | inl same ↦
        let later =
          no_lineage k owner confidence es (e.entity_id ∷ linked)
            (now_linked k e.entity_id linked same) in
        let copy : copy_of k is_lineage e ≡ true =
          ground (arith, same, inherits_cases k owner linked e inh) in
        rw inh (ground (arith, same, copy, later.0), ground (arith, later.1))
    | inr other ↦
        let rest = lineage_counts k owner confidence es (e.entity_id ∷ linked) in
        rw inh (ground (arith, other, rest.0), ground (arith, other, rest.1))
  ]
  | inr skip ↦
      let rest = lineage_counts k owner confidence es linked in
      rw skip (ground (arith, rest.0), rest.1)
]

pub lineage_links_counts :
    (k : String) (reader : TextReader) (owning : Option EngineeringEntity) (cs : List Correlation)
    (es : List EngineeringEntity) (linked : List String)
    → (count_lineage k (lineage_links reader owning cs es linked)
        ≤ length (filter (copy_of k is_lineage) es))
      × ((leb (count_lineage k (lineage_links reader owning cs es linked)) 0
            || contains k (lineage_links reader owning cs es linked).1)
          ≡ true)
unfolding lineage_links count_lineage filter
lineage_links_counts k reader none cs es linked = (omega arith, refl)
lineage_links_counts k reader (some owning) cs es linked =
    lineage_counts k (reader.after_colon owning.entity_id) (owning_confidence owning cs) es linked

pub no_lineage_links :
    (k : String) (reader : TextReader) (owning : Option EngineeringEntity) (cs : List Correlation)
    (es : List EngineeringEntity) (linked : List String)
    → contains k linked ≡ true
    → (count_lineage k (lineage_links reader owning cs es linked) ≡ 0)
      × (contains k (lineage_links reader owning cs es linked).1 ≡ true)
unfolding lineage_links count_lineage filter
no_lineage_links k reader none cs es linked h = (refl, h)
no_lineage_links k reader (some owning) cs es linked h =
    no_lineage k (reader.after_colon owning.entity_id) (owning_confidence owning cs) es linked h
