-- ===== src/Tests/Runs.antt =====
-- The correlation engine at a change request that resolves an issue, with a commit on its branch.
use opencode_gateway.Prelude.{
  ℕ, ◌≤◌, ◌≡◌, refl, true, String, none, some, List, [], ◌∷◌, string_eq, ◌==◌, string_discrete,
  filter, find?, any, length, All,
}
use opencode_gateway.Domain.{EntityType}
use opencode_gateway.Correlation.{EngineeringEntity, AfkRun, TextReader, Proposal, RuleResult}
use opencode_gateway.Correlation.Engine.{
  Resolver, binds, is_decided, lock, note_all, lock_all, apply_result, apply_results, no_locks,
  correlation_of,
}
use opencode_gateway.Correlation.Resolve.{resolve}
use opencode_gateway.Correlation.Locks.{first_lock_wins, proposals_are_decided}
use opencode_gateway.Correlation.OneLink.{one_link_per_entity}
use opencode_gateway.Correlation.LinkCounts.{links_to}

abbrev bare : String → EntityType → EngineeringEntity
bare id t = record {
  entity_id = id;
  entity_type = t;
  repository = "o/r";
  number = none;
  title = none;
  state = none;
  author = none;
  description = none;
  branch = none;
  created_at = none;
  updated_at = none;
  owning_change_request_id = none;
}

abbrev entities_3 : List EngineeringEntity
entities_3 =
    (record (bare "issue:5" EntityType.issue) { number = some 5 })
    ∷ (record (bare "change_request:9" EntityType.change_request) {
      number = some 9;
      title = some "Run";
      description = some "mentions #5";
      branch = some "fix-5";
    })
    ∷ (record (bare "commit:a" EntityType.commit) { owning_change_request_id = some "9" })
    ∷ []

abbrev fives : TextReader
fives = record {
  issue_refs = λ _. 5 ∷ [];
  resolved_refs = λ _. [];
  numbers = λ _. 5 ∷ [];
  after_colon = λ _. "9";
  lower = λ s. s;
  is_issue_id = λ s. s == "issue:5";
}

abbrev run_1 : AfkRun
run_1 = record { afk_run_id = "old"; title = some "Run"; started_at = none; finished_at = none }

abbrev ulid_1 : ℕ → String
ulid_1 _ = "01"

one_link_per_entity_example :
    length (
      filter
        (links_to "commit:a")
        (resolve ulid_1 "1" fives run_1 entities_3 [] [] none).entity_links)
    ≤ 1
one_link_per_entity_example =
    one_link_per_entity ulid_1 "1" fives run_1 entities_3 [] [] none "commit:a"

abbrev resolver_1 : Resolver
resolver_1 = record { ulid = ulid_1; afk_run_id = "01"; resolver_version = "1" }

abbrev proposal_of : ℕ → String → Proposal
proposal_of confidence method = record {
  entity_id = "issue:5";
  confidence = confidence;
  method = method;
  evidence = [];
}

-- The change request mentions the issue, and its branch names it.
abbrev mention : RuleResult
mention = record { proposals = proposal_of 1 "issue_reference" ∷ []; ambiguities = [] }

abbrev branch : RuleResult
branch = record { proposals = proposal_of 8 "branch_issue_reference" ∷ []; ambiguities = [] }

-- The mention, of confidence 0.1, keeps the issue from the branch rule, of confidence 0.8.
first_lock_wins_example :
    find? (binds "issue:5") (apply_results resolver_1 (mention ∷ branch ∷ []) no_locks).correlations
    ≡ some (correlation_of resolver_1 1 (proposal_of 1 "issue_reference"))
unfolding apply_results apply_result note_all lock_all lock is_decided any find? binds
    string_discrete
first_lock_wins_example =
    first_lock_wins resolver_1 (mention ∷ []) (branch ∷ []) "issue:5"
      (correlation_of resolver_1 1 (proposal_of 1 "issue_reference")) refl

proposals_are_decided_example :
    All
      (λ (p : Proposal).
        is_decided p.entity_id (apply_results resolver_1 (mention ∷ branch ∷ []) no_locks) ≡ true)
      branch.proposals
proposals_are_decided_example = proposals_are_decided resolver_1 (mention ∷ []) branch []
