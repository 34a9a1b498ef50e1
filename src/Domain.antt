-- ===== src/Domain.antt =====
-- afk_outcomes/models.py: the enumerations and identities that the repository and the projections
-- share. A `str` enumeration is a data type with its `.value`. A timestamp is a natural number
-- (microseconds since a fixed midnight in UTC); Python compares aware datetimes by instant.
use opencode_gateway.Prelude.{ℕ, Bool, true, false, String, Option, none, Eq}
use opencode_gateway.Prelude.Tests.{string_discrete, option_discrete}

pub data Provider : Type 0 where
  github gitlab : Provider

unfoldable pub provider_value : Provider → String
provider_value Provider.github = "github"
provider_value Provider.gitlab = "gitlab"

pub data EntityType : Type 0 where
  issue change_request commit review merge_event : EntityType

unfoldable pub entity_value : EntityType → String
entity_value EntityType.issue = "issue"
entity_value EntityType.change_request = "change_request"
entity_value EntityType.commit = "commit"
entity_value EntityType.review = "review"
entity_value EntityType.merge_event = "merge_event"

pub data ExecutionOutcome : Type 0 where
  running completed failed cancelled : ExecutionOutcome

unfoldable pub outcome_value : ExecutionOutcome → String
outcome_value ExecutionOutcome.running = "running"
outcome_value ExecutionOutcome.completed = "completed"
outcome_value ExecutionOutcome.failed = "failed"
outcome_value ExecutionOutcome.cancelled = "cancelled"

-- `ExecutionOutcome.is_terminal`
abbrev pub is_terminal : ExecutionOutcome → Bool
is_terminal ExecutionOutcome.running = false
is_terminal ExecutionOutcome.completed = true
is_terminal ExecutionOutcome.failed = true
is_terminal ExecutionOutcome.cancelled = true

pub data TriggerType : Type 0 where
  eda manual scheduled backfill recovery : TriggerType

abbrev pub Time : Type 0
Time = ℕ

unfoldable pub provider_discrete : Discrete Provider
provider_discrete = hlevel

unfoldable pub entity_discrete : Discrete EntityType
entity_discrete = hlevel

unfoldable pub outcome_discrete : Discrete ExecutionOutcome
outcome_discrete = hlevel

unfoldable pub trigger_discrete : Discrete TriggerType
trigger_discrete = hlevel

instance abbrev pub provider_eq : Eq Provider
provider_eq = record { dec = provider_discrete }

instance abbrev pub entity_eq : Eq EntityType
entity_eq = record { dec = entity_discrete }

instance abbrev pub outcome_eq : Eq ExecutionOutcome
outcome_eq = record { dec = outcome_discrete }

instance abbrev pub trigger_eq : Eq TriggerType
trigger_eq = record { dec = trigger_discrete }

-- The three nullable `change_request_*` columns of one `afk_runs` row.
pub record ChangeRequest : Type 0 where
  pub provider : Option Provider
  pub repository : Option String
  pub external_id : Option String

unfoldable pub change_request_discrete : Discrete ChangeRequest
unfolding provider_discrete string_discrete option_discrete
change_request_discrete = hlevel (string_discrete)

instance abbrev pub change_request_eq : Eq ChangeRequest
change_request_eq = record { dec = change_request_discrete }

abbrev pub unbound : ChangeRequest
unbound = record { provider = none; repository = none; external_id = none }
