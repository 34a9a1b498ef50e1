-- ===== src/Correlation/Outcome.antt =====
-- afk_outcomes/correlation.py: the links of a run with sessions, what is left unresolved, and the
-- outcome.
use opencode_gateway.Prelude.{
  ℕ, ◌+◌, String, Bool, true, false, ◌&&◌, ◌||◌, Option, none, some, List, [], ◌∷◌, ◌++◌, map,
  string_eq, option_eq, nat_eq, ◌==◌, leb, if◌then◌else◌, filter, find?, is_some, is_none, is_empty,
}
use opencode_gateway.Domain.{EntityType, entity_eq}
use opencode_gateway.Associations.{text_leb, tuple_leb}
use opencode_gateway.Associations.Sort.{sort_by}
use opencode_gateway.Correlation.{
  EngineeringEntity, AfkRun, TextReader, CorrelationEvidence, Ambiguity, Correlation,
  resolved_role_threshold, of_type, overlaps, owning_change_request,
}
use opencode_gateway.Correlation.Rules.{by_entity_id}
use opencode_gateway.Correlation.Engine.{Locks, Resolver}

-- `SessionDescriptor`
pub record SessionDescriptor : Type 0 where
  pub session_id : Option String
  pub external_session_id : Option String
  pub started_at : Option ℕ
  pub finished_at : Option ℕ
  pub agent : Option String
  pub client : Option String
  pub project : Option String

-- `a is not None and b is not None and a == b`
unfoldable pub same_known : Option String → Option String → Bool
same_known (some a) (some b) = a == b
same_known _ _ = false

-- `_session_heuristic`
unfoldable pub session_heuristic :
    AfkRun → Option String → Option String → Option String → SessionDescriptor → Option String
session_heuristic run run_agent run_client run_project s =
    if same_known s.agent run_agent
    then some "agent_identity"
    else if same_known s.client run_client
    then some "client_identity"
    else if same_known s.project run_project
    then some "project_match"
    else if overlaps s.started_at s.finished_at run.started_at run.finished_at
    then some "temporal_overlap"
    else none

-- `RunSessionLink`
pub record RunSessionLink : Type 0 where
  pub session : SessionDescriptor
  pub inferred : Bool
  pub method : String

abbrev text_or_empty : Option String → String
text_or_empty none = ""
text_or_empty (some s) = s

abbrev session_leb : SessionDescriptor → SessionDescriptor → Bool
session_leb a b =
    tuple_leb (text_or_empty a.external_session_id ∷ text_or_empty a.session_id ∷ [])
      (text_or_empty b.external_session_id ∷ text_or_empty b.session_id ∷ [])

unfoldable pub link_descriptors :
    (SessionDescriptor → Option String) → List SessionDescriptor → List RunSessionLink
link_descriptors heuristic [] = []
link_descriptors heuristic (s ∷ sessions) = elim (heuristic s) [
  | none ↦ link_descriptors heuristic sessions
  | some m ↦
      (record { session = s; inferred = true; method = m }) ∷ link_descriptors heuristic sessions
]

-- `_session_links`
unfoldable pub run_session_links :
    AfkRun
    → Option String
    → Option String
    → Option String
    → List SessionDescriptor
    → List RunSessionLink
run_session_links run run_agent run_client run_project sessions =
    link_descriptors (session_heuristic run run_agent run_client run_project)
      (sort_by session_leb sessions)

-- `UnresolvedReason` and `UnresolvedCorrelation`
pub data UnresolvedReason : Type 0 where
  ambiguous unmatched : UnresolvedReason

pub record UnresolvedCorrelation : Type 0 where
  pub unresolved_id : String
  pub entity_id : String
  pub reason : UnresolvedReason
  pub candidates : List String
  pub evidence : List CorrelationEvidence

unfoldable pub surface : Resolver → ℕ → List Ambiguity → List UnresolvedCorrelation
surface r drawn [] = []
surface r drawn (a ∷ ambiguities) =
    (record {
      unresolved_id = r.ulid drawn;
      entity_id = a.entity_id;
      reason = UnresolvedReason.ambiguous;
      candidates = a.candidates;
      evidence = a.evidence;
    })
    ∷ surface r (drawn + 1) ambiguities

abbrev ambiguity_leb : Ambiguity → Ambiguity → Bool
ambiguity_leb a b = text_leb a.entity_id b.entity_id

-- `_unresolved`
unfoldable pub unresolved_correlations :
    Resolver → AfkRun → List EngineeringEntity → Locks → List UnresolvedCorrelation
unresolved_correlations r run entities s =
    let unmatched =
      is_none (owning_change_request run entities)
      && is_empty s.ambiguities
      && is_empty s.correlations in
    surface r s.drawn (sort_by ambiguity_leb s.ambiguities)
    ++ (if unmatched
        then (record {
          unresolved_id = r.ulid s.drawn;
          entity_id = r.afk_run_id;
          reason = UnresolvedReason.unmatched;
          candidates = [];
          evidence = [];
        })
          ∷ []
        else [])

-- `EngineeringOutcomeStatus`, as far as the engine sets it, and `EngineeringOutcome`
pub data OutcomeStatus : Type 0 where
  merged closed still_open : OutcomeStatus

pub record EngineeringOutcome : Type 0 where
  pub status : OutcomeStatus
  pub change_request_ids : List String
  pub resolved_issue_ids : List String
  pub merge_event_id : Option String
  pub merged_at : Option ℕ

unfoldable pub outcome_status :
    TextReader → EngineeringEntity → Option EngineeringEntity → OutcomeStatus
outcome_status reader owning merge =
    let state = reader.lower (text_or_empty owning.state) in
    if is_some merge || state == "merged"
    then OutcomeStatus.merged
    else if state == "closed"
    then OutcomeStatus.closed
    else OutcomeStatus.still_open

unfoldable pub outcome_of_owning :
    TextReader → EngineeringEntity → List EngineeringEntity → List Correlation → EngineeringOutcome
outcome_of_owning reader owning entities correlations =
    let merge =
      find? (λ (m : EngineeringEntity). m.number == owning.number)
        (sort_by by_entity_id (of_type EntityType.merge_event entities)) in
    let resolved =
      filter
        (λ (c : Correlation).
          reader.is_issue_id c.entity_id && leb resolved_role_threshold c.correlation_confidence)
        correlations in
    record {
      status = outcome_status reader owning merge;
      change_request_ids = owning.entity_id ∷ [];
      resolved_issue_ids = sort_by text_leb (map (λ (c : Correlation). c.entity_id) resolved);
      merge_event_id = elim merge [ none ↦ none | some m ↦ some m.entity_id ];
      merged_at = elim merge [ none ↦ none | some m ↦ m.created_at ];
    }

-- `_outcome`
unfoldable pub outcome_of_run :
    TextReader → AfkRun → List EngineeringEntity → List Correlation → Option EngineeringOutcome
outcome_of_run reader run entities correlations = elim (owning_change_request run entities) [
  | none ↦ none
  | some owning ↦ some (outcome_of_owning reader owning entities correlations)
]
