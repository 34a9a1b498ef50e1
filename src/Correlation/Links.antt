-- ===== src/Correlation/Links.antt =====
-- afk_outcomes/correlation.py: the copies of an entity, and the links of a run with entities.
use opencode_gateway.Prelude.{
  ℕ, String, Bool, false, ◌&&◌, ◌||◌, not, Option, none, some, List, [], ◌∷◌, ◌++◌, map, string_eq,
  option_eq, nat_eq, ◌==◌, ◌/=◌, leb, if◌then◌else◌, filter, find?, any, contains,
}
use opencode_gateway.Domain.{EntityType, entity_eq}
use opencode_gateway.Associations.Sort.{sort_by}
use opencode_gateway.Correlation.{
  EngineeringEntity, TextReader, Correlation, confidence_issue_resolved, resolved_role_threshold,
  of_type,
}
use opencode_gateway.Correlation.Rules.{read_numbers, by_entity_id}
use opencode_gateway.Correlation.Engine.{binds}

-- A copy replaces the one that is kept, in `_dedupe_entities`.
unfoldable pub is_preferred : Option String → EngineeringEntity → EngineeringEntity → Bool
is_preferred none kept e = false
is_preferred (some owner) kept e =
    kept.owning_change_request_id /= some owner && e.owning_change_request_id == some owner

-- One turn of the loop of `_dedupe_entities`.
unfoldable pub keep_copy :
    Option String → EngineeringEntity → List EngineeringEntity → List EngineeringEntity
keep_copy owner e [] = e ∷ []
keep_copy owner e (kept ∷ deduped) =
    let rest = keep_copy owner e deduped in
    if kept.entity_id == e.entity_id
    then (if is_preferred owner kept e then e else kept) ∷ deduped
    else kept ∷ rest

unfoldable pub keep_copies :
    Option String → List EngineeringEntity → List EngineeringEntity → List EngineeringEntity
keep_copies owner [] deduped = deduped
keep_copies owner (e ∷ entities) deduped = keep_copies owner entities (keep_copy owner e deduped)

unfoldable pub owner_id : TextReader → Option EngineeringEntity → Option String
owner_id reader none = none
owner_id reader (some owning) = some (reader.after_colon owning.entity_id)

-- `_dedupe_entities`
unfoldable pub dedupe_entities :
    TextReader → List EngineeringEntity → Option EngineeringEntity → List EngineeringEntity
dedupe_entities reader entities owning = keep_copies (owner_id reader owning) entities []

-- `RunEntityLink`
pub record RunEntityLink : Type 0 where
  pub entity_id : String
  pub role : String
  pub correlation_confidence : ℕ
  pub correlation_source : String

unfoldable pub role_of : ℕ → String
role_of confidence = if leb resolved_role_threshold confidence then "resolved" else "referenced"

abbrev pub direct_link : Correlation → RunEntityLink
direct_link c = record {
  entity_id = c.entity_id;
  role = role_of c.correlation_confidence;
  correlation_confidence = c.correlation_confidence;
  correlation_source = "direct";
}

abbrev pub noise_link : EngineeringEntity → RunEntityLink
noise_link e = record {
  entity_id = e.entity_id;
  role = "noise";
  correlation_confidence = 0;
  correlation_source = "direct";
}

-- An entity on the branch of the owning change request that has no link yet.
unfoldable pub inherits : String → List String → EngineeringEntity → Bool
inherits owner linked e =
    (e.entity_type == EntityType.commit || e.entity_type == EntityType.review)
    && not (contains e.entity_id linked)
    && e.owning_change_request_id == some owner

-- The lineage loop: the links that it adds, and the ids that are linked after it.
unfoldable pub lineage :
    String → ℕ → List EngineeringEntity → List String → List RunEntityLink × List String
lineage owner confidence [] linked = ([], linked)
lineage owner confidence (e ∷ entities) linked =
    let skipped = lineage owner confidence entities linked in
    let rest = lineage owner confidence entities (e.entity_id ∷ linked) in
    if inherits owner linked e
    then (
      (record {
        entity_id = e.entity_id;
        role = role_of confidence;
        correlation_confidence = confidence;
        correlation_source = "owning_change_request";
      })
          ∷ rest.0,
      rest.1,
    )
    else skipped

-- The confidence that the lineage inherits.
unfoldable pub owning_confidence : EngineeringEntity → List Correlation → ℕ
owning_confidence owning correlations = elim (find? (binds owning.entity_id) correlations) [
  | none ↦ confidence_issue_resolved
  | some c ↦ c.correlation_confidence
]

unfoldable pub lineage_links :
    TextReader
    → Option EngineeringEntity
    → List Correlation
    → List EngineeringEntity
    → List String
    → List RunEntityLink × List String
lineage_links reader none correlations entities linked = ([], linked)
lineage_links reader (some owning) correlations entities linked =
    lineage (reader.after_colon owning.entity_id) (owning_confidence owning correlations) entities
      linked

-- The numbers that the run knows.
unfoldable pub known_numbers : TextReader → Option EngineeringEntity → List ℕ
known_numbers reader none = []
known_numbers reader (some owning) =
    read_numbers reader.resolved_refs owning.description
    ++ (elim owning.number [ none ↦ [] | some n ↦ n ∷ [] ])

-- A commit that refers to a number outside the known ones.
unfoldable pub is_noise : TextReader → List ℕ → List String → EngineeringEntity → Bool
is_noise reader known linked commit =
    not (contains commit.entity_id linked)
    && any (λ (n : ℕ). not (contains n known)) (read_numbers reader.issue_refs commit.title)

-- `_entity_links`
unfoldable pub run_entity_links :
    TextReader
    → List Correlation
    → List EngineeringEntity
    → Option EngineeringEntity
    → List RunEntityLink
run_entity_links reader correlations entities owning =
    let sorted = sort_by by_entity_id entities in
    let bound = map (λ (c : Correlation). c.entity_id) correlations in
    let inherited = lineage_links reader owning correlations sorted bound in
    let known = known_numbers reader owning in
    map direct_link correlations
    ++ inherited.0
    ++ map noise_link (
        filter (λ (cr : EngineeringEntity). not (contains cr.entity_id bound))
          (of_type EntityType.change_request sorted))
    ++ map noise_link
        (filter (is_noise reader known inherited.1) (of_type EntityType.commit sorted))
