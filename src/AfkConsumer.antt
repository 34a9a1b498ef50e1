-- ===== src/AfkConsumer.antt =====
-- app/consumer/afk_consumer.py: the vocabulary of the normalized events, their validation, and what
-- they map to. The normalization of a repository URL is an argument. An event type is the pair of
-- its two parts, and the text of a violation is its kind.
pub mod Frontier
pub mod Process
pub mod Mapping
pub mod Commit
pub mod Steps
use opencode_gateway.Prelude.{
  ℕ, String, Bool, true, false, ◌&&◌, ◌||◌, not, Option, none, some, List, [], ◌∷◌, string_eq, ◌==◌,
  ◌/=◌, if◌then◌else◌, contains, is_none, is_some,
}
use opencode_gateway.Prelude.Dict.{get}
use opencode_gateway.Domain.{Provider, EntityType, provider_value}

-- The fields of `NormalizedProviderEvent` that are read.
pub record NormalizedEvent : Type 0 where
  pub schema_version : String
  pub event_type : String
  pub provider : Provider
  pub delivery_id : String
  pub resource_type : String
  pub repository_url : String
  pub number : Option ℕ
  pub action : String
  pub occurred_at : Option ℕ
  pub ingested_at : ℕ
  pub actor : Option String
  pub reference_provider : String
  pub reference_delivery_id : String

-- `_CANONICAL_EVENT_TYPES`, by the entity type
abbrev pub canonical_actions : EntityType → List String
canonical_actions EntityType.issue = "opened" ∷ "updated" ∷ "reopened" ∷ "closed" ∷ []
canonical_actions EntityType.change_request =
    "opened" ∷ "updated" ∷ "reopened" ∷ "closed" ∷ "merged" ∷ []
canonical_actions EntityType.commit = []
canonical_actions EntityType.review = []
canonical_actions EntityType.merge_event = []

-- `_ACTION_TO_CANONICAL`
abbrev pub action_to_canonical : List (String × String)
action_to_canonical =
    ("opened", "opened")
    ∷ ("edited", "updated")
    ∷ ("updated", "updated")
    ∷ ("reopened", "reopened")
    ∷ ("closed", "closed")
    ∷ ("merged", "merged")
    ∷ []

-- `_PRODUCER_ALLOWED_ACTIONS`
abbrev pub producer_allowed_actions : List (String × List String)
producer_allowed_actions =
    ("issue", "opened" ∷ "edited" ∷ "updated" ∷ "reopened" ∷ "closed" ∷ [])
    ∷ ("pull_request", "opened" ∷ "edited" ∷ "reopened" ∷ "closed" ∷ "merged" ∷ [])
    ∷ ("merge_request", "opened" ∷ "updated" ∷ "reopened" ∷ "closed" ∷ "merged" ∷ [])
    ∷ []

-- `_RESOURCE_TYPE_TO_ENTITY_TYPE`
abbrev pub resource_type_to_entity_type : List (String × EntityType)
resource_type_to_entity_type =
    ("issue", EntityType.issue)
    ∷ ("pull_request", EntityType.change_request)
    ∷ ("merge_request", EntityType.change_request)
    ∷ []

-- The violation classes of `validate_normalized_event`.
pub data Violation : Type 0 where
  bad_schema_version bad_event_type bad_resource_type bad_action bad_repository : Violation
  other_provider other_delivery_id : Violation

-- `message.action not in _PRODUCER_ALLOWED_ACTIONS[resource_type]`; the two tables have the same
-- keys.
unfoldable pub is_allowed : String → String → Bool
is_allowed resource_type action = elim (get resource_type producer_allowed_actions) [
  | none ↦ false
  | some actions ↦ contains action actions
]

-- `validate_normalized_event`: the violation that it raises, or none.
unfoldable pub validate_normalized_event :
    (String → Option String) → NormalizedEvent → Option Violation
validate_normalized_event normalize m =
    if m.schema_version /= "1.0"
    then some Violation.bad_schema_version
    else if m.event_type /= "normalized"
    then some Violation.bad_event_type
    else if is_none (get m.resource_type resource_type_to_entity_type)
    then some Violation.bad_resource_type
    else if not (is_allowed m.resource_type m.action)
    then some Violation.bad_action
    else if is_none (normalize m.repository_url)
    then some Violation.bad_repository
    else if m.reference_provider /= provider_value m.provider
    then some Violation.other_provider
    else if m.reference_delivery_id /= m.delivery_id
    then some Violation.other_delivery_id
    else none

-- The entity and the event that a message maps to, as far as they do not only copy it.
pub record MappedEvent : Type 0 where
  pub entity_type : EntityType
  pub repository : String
  pub number : Option ℕ
  pub canonical_action : String
  pub occurred_at : ℕ
  pub source_resource_type : String
  pub source_action : String

-- `message.occurred_at or message.ingested_at`
abbrev occurrence : NormalizedEvent → ℕ
occurrence m = elim m.occurred_at [ none ↦ m.ingested_at | some t ↦ t ]

unfoldable pub mapped_event :
    NormalizedEvent → EntityType → String → Option String → Option MappedEvent
mapped_event m entity_type canonical none = none
mapped_event m entity_type canonical (some repository) = some (record {
  entity_type = entity_type;
  repository = repository;
  number = m.number;
  canonical_action = canonical;
  occurred_at = occurrence m;
  source_resource_type = m.resource_type;
  source_action = m.action;
})

unfoldable pub mapped_action :
    (String → Option String) → NormalizedEvent → EntityType → Option String → Option MappedEvent
mapped_action normalize m entity_type none = none
mapped_action normalize m entity_type (some canonical) =
    if contains canonical (canonical_actions entity_type)
    then mapped_event m entity_type canonical (normalize m.repository_url)
    else none

unfoldable pub mapped_type :
    (String → Option String) → NormalizedEvent → Option EntityType → Option MappedEvent
mapped_type normalize m none = none
mapped_type normalize m (some entity_type) =
    mapped_action normalize m entity_type (get m.action action_to_canonical)

-- `map_normalized_event`
unfoldable pub map_normalized_event :
    (String → Option String) → NormalizedEvent → Option MappedEvent
map_normalized_event normalize m =
    mapped_type normalize m (get m.resource_type resource_type_to_entity_type)
