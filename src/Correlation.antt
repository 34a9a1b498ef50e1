-- ===== src/Correlation.antt =====
-- afk_outcomes/correlation.py: the entities, the proposals and the locks of the correlation engine.
-- Regular expressions and string methods are arguments; a confidence is a number of tenths.
pub mod Rules
pub mod Engine
pub mod Links
pub mod Outcome
pub mod Resolve
pub mod Locks
pub mod Copies
pub mod OneLink
pub mod LinkCounts
use opencode_gateway.Prelude.{
  ℕ, ◌+◌, String, Bool, true, false, ◌&&◌, ◌||◌, not, Option, none, some, List, [], ◌∷◌, ◌++◌,
  string_eq, option_eq, ◌==◌, leb, if◌then◌else◌, filter, any,
}
use opencode_gateway.Domain.{Provider, EntityType, entity_eq}

-- The fields of `EngineeringEntity` that the engine reads.
pub record EngineeringEntity : Type 0 where
  pub entity_id : String
  pub entity_type : EntityType
  pub repository : String
  pub number : Option ℕ
  pub title : Option String
  pub state : Option String
  pub author : Option String
  pub description : Option String
  pub branch : Option String
  pub created_at : Option ℕ
  pub updated_at : Option ℕ
  pub owning_change_request_id : Option String

-- `EngineeringEvent`, with the two keys of its payload that are read.
pub record EngineeringEvent : Type 0 where
  pub event_id : String
  pub entity_id : String
  pub occurred_at : ℕ
  pub run_id : Option String
  pub afk_run_id : Option String

-- The fields of `AFKRun` that the engine reads.
pub record AfkRun : Type 0 where
  pub afk_run_id : String
  pub title : Option String
  pub started_at : Option ℕ
  pub finished_at : Option ℕ

-- What the engine reads out of texts.
pub record TextReader : Type 0 where
  pub issue_refs : String → List ℕ
  pub resolved_refs : String → List ℕ
  pub numbers : String → List ℕ
  pub after_colon : String → String
  pub lower : String → String
  pub is_issue_id : String → Bool

-- The detail of an evidence, in place of its text.
pub data EvidenceDetail : Type 0 where
  run_key : String → EvidenceDetail
  title_is : Option String → EvidenceDetail
  resolves : ℕ → EvidenceDetail
  mentioned : ℕ → EvidenceDetail
  branch_is : String → EvidenceDetail
  commit_is : String → EvidenceDetail
  overlaps_window : EvidenceDetail

-- `CorrelationEvidence`
pub record CorrelationEvidence : Type 0 where
  pub kind : String
  pub source_entity_id : String
  pub detail : EvidenceDetail
  pub weight : ℕ

-- `Proposal`
pub record Proposal : Type 0 where
  pub entity_id : String
  pub confidence : ℕ
  pub method : String
  pub evidence : List CorrelationEvidence

-- `Ambiguity`
pub record Ambiguity : Type 0 where
  pub entity_id : String
  pub candidates : List String
  pub evidence : List CorrelationEvidence

-- `RuleResult`
pub record RuleResult : Type 0 where
  pub proposals : List Proposal
  pub ambiguities : List Ambiguity

-- `Correlation`
pub record Correlation : Type 0 where
  pub correlation_id : String
  pub afk_run_id : String
  pub entity_id : String
  pub correlation_confidence : ℕ
  pub method : String
  pub evidence : List CorrelationEvidence
  pub resolver_version : String

-- The confidences, in tenths.
abbrev pub confidence_explicit_run_id : ℕ
confidence_explicit_run_id = 10

abbrev pub confidence_issue_resolved : ℕ
confidence_issue_resolved = 10

abbrev pub confidence_issue_mention : ℕ
confidence_issue_mention = 1

abbrev pub confidence_branch_issue : ℕ
confidence_branch_issue = 8

abbrev pub confidence_commit_issue : ℕ
confidence_commit_issue = 6

abbrev pub confidence_temporal : ℕ
confidence_temporal = 4

abbrev pub resolved_role_threshold : ℕ
resolved_role_threshold = 5

-- `_change_requests`, `_commits` and `_merge_events`
unfoldable pub of_type : EntityType → List EngineeringEntity → List EngineeringEntity
of_type t entities = filter (λ (e : EngineeringEntity). e.entity_type == t) entities

-- `_overlaps`
unfoldable pub overlaps : Option ℕ → Option ℕ → Option ℕ → Option ℕ → Bool
overlaps (some a_start) (some a_end) (some b_start) (some b_end) =
    leb a_start b_end && leb b_start a_end
overlaps _ _ _ _ = false

-- `CorrelationEngine._owning_change_request`, on the change requests with the title of the run
unfoldable pub single_match : List EngineeringEntity → Option EngineeringEntity
single_match (cr ∷ []) = some cr
single_match _ = none

unfoldable pub title_matches : AfkRun → List EngineeringEntity → List EngineeringEntity
title_matches run entities =
    filter (λ (cr : EngineeringEntity). cr.title == run.title)
      (of_type EntityType.change_request entities)

unfoldable pub owning_change_request : AfkRun → List EngineeringEntity → Option EngineeringEntity
owning_change_request run entities = single_match (title_matches run entities)
