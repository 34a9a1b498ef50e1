-- ===== src/Correlation/Rules.antt =====
-- afk_outcomes/correlation.py: the five rules.
use opencode_gateway.Prelude.{
  ℕ, String, Bool, ◌&&◌, not, Option, none, some, List, [], ◌∷◌, ◌++◌, map, string_eq, option_eq,
  nat_eq, ◌==◌, leb, if◌then◌else◌, filter, contains, dedupe,
}
use opencode_gateway.Prelude.Dict.{get, put}
use opencode_gateway.Domain.{EntityType, entity_eq}
use opencode_gateway.Associations.{text_leb}
use opencode_gateway.Associations.Sort.{sort_by}
use opencode_gateway.Correlation.{
  EngineeringEntity, EngineeringEvent, AfkRun, TextReader, EvidenceDetail, CorrelationEvidence,
  Proposal, RuleResult, confidence_explicit_run_id, confidence_issue_resolved,
  confidence_issue_mention, confidence_branch_issue, confidence_commit_issue, confidence_temporal,
  of_type, overlaps, title_matches,
}

-- `sorted` of a set of numbers
abbrev pub sorted_set : List ℕ → List ℕ
sorted_set ns = sort_by leb (dedupe ns)

abbrev pub by_entity_id : EngineeringEntity → EngineeringEntity → Bool
by_entity_id a b = text_leb a.entity_id b.entity_id

-- Nothing is read from a text that is missing or empty.
unfoldable pub read_numbers : (String → List ℕ) → Option String → List ℕ
read_numbers read none = []
read_numbers read (some text) = if text == "" then [] else read text

-- `_issues`: a later entity of the same number replaces an earlier one.
unfoldable pub put_issues :
    List EngineeringEntity → List (ℕ × EngineeringEntity) → List (ℕ × EngineeringEntity)
put_issues [] d = d
put_issues (e ∷ entities) d = elim e.number [
  | none ↦ put_issues entities d
  | some n ↦ put_issues entities (put n e d)
]

unfoldable pub issues_of : List EngineeringEntity → List (ℕ × EngineeringEntity)
issues_of entities = put_issues (of_type EntityType.issue entities) []

-- A proposal with one evidence of the same weight.
abbrev pub propose : String → ℕ → String → String → String → EvidenceDetail → Proposal
propose entity_id confidence method kind source detail = record {
  entity_id = entity_id;
  confidence = confidence;
  method = method;
  evidence =
      (record { kind = kind; source_entity_id = source; detail = detail; weight = confidence })
      ∷ [];
}

-- The key of the payload that names the run.
unfoldable pub matched_key : AfkRun → EngineeringEvent → Option String
matched_key run e =
    if e.run_id == some run.afk_run_id
    then some "run_id"
    else if e.afk_run_id == some run.afk_run_id
    then some "afk_run_id"
    else none

unfoldable pub propose_events : AfkRun → List EngineeringEvent → List Proposal
propose_events run [] = []
propose_events run (e ∷ events) = elim (matched_key run e) [
  | none ↦ propose_events run events
  | some key ↦
      propose e.entity_id confidence_explicit_run_id "explicit_run_id" "explicit_run_id" e.entity_id
        (EvidenceDetail.run_key key)
      ∷ propose_events run events
]

-- `ExplicitRunIdRule.evaluate`
unfoldable pub explicit_run_id : AfkRun → List EngineeringEvent → RuleResult
explicit_run_id run events = record {
  proposals =
      propose_events run
        (sort_by (λ (a b : EngineeringEvent). text_leb a.event_id b.event_id) events);
  ambiguities = [];
}

-- A proposal for each of the numbers that is an issue.
unfoldable pub propose_issues :
    List (ℕ × EngineeringEntity) → (ℕ → EngineeringEntity → Proposal) → List ℕ → List Proposal
propose_issues issues make [] = []
propose_issues issues make (n ∷ ns) = elim (get n issues) [
  | none ↦ propose_issues issues make ns
  | some issue ↦ make n issue ∷ propose_issues issues make ns
]

abbrev title_evidence : AfkRun → EngineeringEntity → CorrelationEvidence
title_evidence run cr = record {
  kind = "title_match";
  source_entity_id = cr.entity_id;
  detail = EvidenceDetail.title_is run.title;
  weight = 10;
}

-- What the issue reference rule proposes for the owning change request.
unfoldable pub propose_owning :
    TextReader → AfkRun → List (ℕ × EngineeringEntity) → EngineeringEntity → List Proposal
propose_owning reader run issues owning =
    let resolved = sorted_set (read_numbers reader.resolved_refs owning.description) in
    let refs = sorted_set (read_numbers reader.issue_refs owning.description) in
    let mentions = filter (λ (n : ℕ). not (contains n resolved)) refs in
    propose owning.entity_id confidence_issue_resolved "issue_reference" "title_match"
      owning.entity_id (EvidenceDetail.title_is run.title)
    ∷ (propose_issues issues
          (λ n issue.
            propose issue.entity_id confidence_issue_resolved "issue_reference" "issue_reference"
              owning.entity_id (EvidenceDetail.resolves n))
          resolved
        ++ propose_issues issues
            (λ n issue.
              propose issue.entity_id confidence_issue_mention "issue_reference" "issue_reference"
                owning.entity_id (EvidenceDetail.mentioned n))
            mentions)

unfoldable pub reference_result :
    TextReader → AfkRun → List (ℕ × EngineeringEntity) → List EngineeringEntity → RuleResult
reference_result reader run issues [] = record { proposals = []; ambiguities = [] }
reference_result reader run issues (cr ∷ []) = record {
  proposals = propose_owning reader run issues cr;
  ambiguities = [];
}
reference_result reader run issues (cr ∷ other ∷ rest) =
    let matches = sort_by by_entity_id (cr ∷ other ∷ rest) in
    record {
      proposals = [];
      ambiguities =
          (record {
            entity_id = run.afk_run_id;
            candidates = map (λ (c : EngineeringEntity). c.entity_id) matches;
            evidence = map (title_evidence run) matches;
          })
          ∷ [];
    }

-- `IssueReferenceRule.evaluate`
unfoldable pub issue_reference : TextReader → AfkRun → List EngineeringEntity → RuleResult
issue_reference reader run entities =
    reference_result reader run (issues_of entities) (title_matches run entities)

-- The text that a proposal names; it is there wherever a number was read from it.
abbrev branch_text : Option String → String
branch_text none = ""
branch_text (some s) = s

unfoldable pub propose_branches :
    TextReader → List (ℕ × EngineeringEntity) → List EngineeringEntity → List Proposal
propose_branches reader issues [] = []
propose_branches reader issues (cr ∷ crs) =
    propose_issues issues
      (λ n issue.
        propose issue.entity_id confidence_branch_issue "branch_issue_reference" "branch_reference"
          cr.entity_id (EvidenceDetail.branch_is (branch_text cr.branch)))
      (sorted_set (read_numbers reader.numbers cr.branch))
    ++ propose_branches reader issues crs

-- `BranchIssueReferenceRule.evaluate`
unfoldable pub branch_issue_reference : TextReader → List EngineeringEntity → RuleResult
branch_issue_reference reader entities = record {
  proposals =
      propose_branches reader (issues_of entities)
        (sort_by by_entity_id (of_type EntityType.change_request entities));
  ambiguities = [];
}

unfoldable pub propose_commits :
    TextReader → List (ℕ × EngineeringEntity) → List EngineeringEntity → List Proposal
propose_commits reader issues [] = []
propose_commits reader issues (commit ∷ commits) =
    propose_issues issues
      (λ n issue.
        propose issue.entity_id confidence_commit_issue "commit_issue_reference" "commit_reference"
          commit.entity_id (EvidenceDetail.commit_is commit.entity_id))
      (sorted_set (read_numbers reader.issue_refs commit.title))
    ++ propose_commits reader issues commits

-- `CommitIssueReferenceRule.evaluate`
unfoldable pub commit_issue_reference : TextReader → List EngineeringEntity → RuleResult
commit_issue_reference reader entities = record {
  proposals =
      propose_commits reader (issues_of entities)
        (sort_by by_entity_id (of_type EntityType.commit entities));
  ambiguities = [];
}

unfoldable pub in_window : AfkRun → EngineeringEntity → Bool
in_window run e =
    not (e.entity_type == EntityType.merge_event)
    && overlaps e.created_at e.updated_at run.started_at run.finished_at

-- `TemporalInferenceRule.evaluate`
unfoldable pub temporal_inference : AfkRun → List EngineeringEntity → RuleResult
temporal_inference run entities = record {
  proposals =
      map
        (λ (e : EngineeringEntity).
          propose e.entity_id confidence_temporal "temporal_inference" "temporal_overlap"
            e.entity_id EvidenceDetail.overlaps_window)
        (filter (in_window run) (sort_by by_entity_id entities));
  ambiguities = [];
}

-- What `DEFAULT_RULES` evaluate to, in their order.
unfoldable pub default_results :
    TextReader → AfkRun → List EngineeringEntity → List EngineeringEvent → List RuleResult
default_results reader run entities events =
    explicit_run_id run events
    ∷ issue_reference reader run entities
    ∷ branch_issue_reference reader entities
    ∷ commit_issue_reference reader entities
    ∷ temporal_inference run entities
    ∷ []
