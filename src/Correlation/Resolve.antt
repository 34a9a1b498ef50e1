-- ===== src/Correlation/Resolve.antt =====
-- afk_outcomes/correlation.py: CorrelationEngine.resolve with the default rules.
use opencode_gateway.Prelude.{
  ℕ, String, Bool, Option, none, some, List, [], ◌∷◌, nat_eq, ◌==◌, leb, if◌then◌else◌,
}
use opencode_gateway.Associations.{text_leb}
use opencode_gateway.Associations.Sort.{sort_by}
use opencode_gateway.Correlation.{
  EngineeringEntity, EngineeringEvent, AfkRun, TextReader, Correlation, owning_change_request,
}
use opencode_gateway.Correlation.Rules.{by_entity_id, default_results}
use opencode_gateway.Correlation.Engine.{Resolver, apply_results, no_locks}
use opencode_gateway.Correlation.Links.{dedupe_entities, RunEntityLink, run_entity_links}
use opencode_gateway.Correlation.Outcome.{
  SessionDescriptor, RunSessionLink, run_session_links, UnresolvedCorrelation,
  unresolved_correlations, EngineeringOutcome, outcome_of_run,
}

-- `ResolutionResult`, with the run that it reconstructs.
pub record ResolutionResult : Type 0 where
  pub run : AfkRun
  pub entities : List EngineeringEntity
  pub events : List EngineeringEvent
  pub correlations : List Correlation
  pub outcome : Option EngineeringOutcome
  pub entity_links : List RunEntityLink
  pub session_links : List RunSessionLink
  pub unresolved : List UnresolvedCorrelation

unfoldable pub author_of : Option EngineeringEntity → Option String
author_of none = none
author_of (some owning) = owning.author

-- `run_project`
unfoldable pub project_of : Option EngineeringEntity → List EngineeringEntity → Option String
project_of (some owning) entities = some owning.repository
project_of none [] = none
project_of none (e ∷ entities) = some e.repository

abbrev occurrence_leb : EngineeringEvent → EngineeringEvent → Bool
occurrence_leb a b =
    if a.occurred_at == b.occurred_at
    then text_leb a.event_id b.event_id
    else leb a.occurred_at b.occurred_at

-- `CorrelationEngine.resolve`
unfoldable pub resolve :
    (ℕ → String)
    → String
    → TextReader
    → AfkRun
    → List EngineeringEntity
    → List EngineeringEvent
    → List SessionDescriptor
    → Option String
    → ResolutionResult
resolve ulid version reader run entities events sessions client =
    let r : Resolver = record { ulid = ulid; afk_run_id = ulid 0; resolver_version = version } in
    let seed : AfkRun = record run { afk_run_id = ulid 0 } in
    let locks = apply_results r (default_results reader seed entities events) no_locks in
    let owning = owning_change_request seed entities in
    let copies = dedupe_entities reader entities owning in
    record {
      run = seed;
      entities = sort_by by_entity_id copies;
      events = sort_by occurrence_leb events;
      correlations = locks.correlations;
      outcome = outcome_of_run reader seed copies locks.correlations;
      entity_links = run_entity_links reader locks.correlations copies owning;
      session_links =
          run_session_links seed (author_of owning) client (project_of owning copies) sessions;
      unresolved = unresolved_correlations r seed copies locks;
    }
