-- ===== src/Correlation/Engine.antt =====
-- afk_outcomes/correlation.py: the loop of CorrelationEngine.resolve over the results of its rules.
use opencode_gateway.Prelude.{
  ℕ, ◌+◌, String, Bool, ◌||◌, List, [], ◌∷◌, ◌++◌, string_eq, ◌==◌, if◌then◌else◌, any,
}
use opencode_gateway.Correlation.{Proposal, Ambiguity, RuleResult, Correlation}

-- `locked` and `correlations`, which hold the same entries, `ambiguities`, and the number of ULIDs
-- drawn so far.
pub record Locks : Type 0 where
  pub correlations : List Correlation
  pub ambiguities : List Ambiguity
  pub drawn : ℕ

-- What the loop reads besides: the ULID source, the id of the run and the version.
pub record Resolver : Type 0 where
  pub ulid : ℕ → String
  pub afk_run_id : String
  pub resolver_version : String

unfoldable pub binds : String → Correlation → Bool
binds entity_id c = c.entity_id == entity_id

unfoldable pub concerns : String → Ambiguity → Bool
concerns entity_id a = a.entity_id == entity_id

-- `entity_id in locked or entity_id in ambiguities`
unfoldable pub is_decided : String → Locks → Bool
is_decided entity_id s =
    any (binds entity_id) s.correlations || any (concerns entity_id) s.ambiguities

unfoldable pub note_ambiguity : Ambiguity → Locks → Locks
note_ambiguity a s =
    if is_decided a.entity_id s then s else record s { ambiguities = s.ambiguities ++ a ∷ [] }

abbrev pub correlation_of : Resolver → ℕ → Proposal → Correlation
correlation_of r drawn p = record {
  correlation_id = r.ulid drawn;
  afk_run_id = r.afk_run_id;
  entity_id = p.entity_id;
  correlation_confidence = p.confidence;
  method = p.method;
  evidence = p.evidence;
  resolver_version = r.resolver_version;
}

unfoldable pub lock : Resolver → Proposal → Locks → Locks
lock r p s = if is_decided p.entity_id s then s else record s {
  correlations = s.correlations ++ correlation_of r s.drawn p ∷ [];
  drawn = s.drawn + 1;
}

unfoldable pub note_all : List Ambiguity → Locks → Locks
note_all [] s = s
note_all (a ∷ ambiguities) s = note_all ambiguities (note_ambiguity a s)

unfoldable pub lock_all : Resolver → List Proposal → Locks → Locks
lock_all r [] s = s
lock_all r (p ∷ proposals) s = lock_all r proposals (lock r p s)

-- One rule of the loop.
unfoldable pub apply_result : Resolver → RuleResult → Locks → Locks
apply_result r result s = lock_all r result.proposals (note_all result.ambiguities s)

-- `for rule in self._rules`
unfoldable pub apply_results : Resolver → List RuleResult → Locks → Locks
apply_results r [] s = s
apply_results r (result ∷ results) s = apply_results r results (apply_result r result s)

-- The locks before the first rule: the id of the run is drawn already.
abbrev pub no_locks : Locks
no_locks = record { correlations = []; ambiguities = []; drawn = 1 }
