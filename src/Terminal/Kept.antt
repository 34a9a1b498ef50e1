-- ===== src/Terminal/Kept.antt =====
-- What a terminal update may overwrite in its row.
use opencode_gateway.Prelude.{
  ◌≡◌, refl, Bool, true, false, ◌&&◌, ◌||◌, not, String, Option, none, some, Eq, is_none, coalesce,
  if◌then◌else◌, arith, nat_eq, string_eq, option_eq, ◌==◌,
}
use opencode_gateway.Domain.{provider_eq, entity_eq, outcome_eq}
use opencode_gateway.Store.{Binding}
use opencode_gateway.Terminal.{
  UpdateRequest, contradicts, provided, fill_session, stored_has_resource, failure_reason_conflict,
  session_conflict, failure_summary_conflict, resource_conflict, merged, rejected,
}

-- A stored value stays.
unfoldable pub is_kept {ℓ} : {A : Type ℓ} ⦃e : Eq A⦄ → Option A → Option A → Bool
is_kept before after = is_none before || before == after

-- A stored text stays, or is cleared.
unfoldable pub is_kept_or_cleared : Option String → Option String → Bool
is_kept_or_cleared before after = is_none after || is_kept before after

-- The resource of a row that has a complete one stays.
unfoldable pub is_same_resource : Binding → Binding → Bool
is_same_resource before after =
    before.provider == after.provider
    && (before.repository_url == after.repository_url
        && (before.entity_type == after.entity_type && before.entity_number == after.entity_number))

-- No value that the row holds is replaced by another one.
unfoldable pub overwrites_nothing : Binding → Binding → Bool
overwrites_nothing before after =
    is_kept before.external_session_id after.external_session_id
    && (is_kept_or_cleared before.failure_reason after.failure_reason
        && (is_kept_or_cleared before.failure_summary after.failure_summary
            && (not (stored_has_resource before) || is_same_resource before after)))

kept_session :
    (new stored : Option String)
    → contradicts new stored ≡ false
    → is_kept stored (coalesce new stored) ≡ true
unfolding is_kept
kept_session none none h = refl
kept_session none (some s) h = ground arith
kept_session (some n) none h = refl
kept_session (some n) (some s) h = ground arith

kept_failure :
    (given : Bool) (new stored : Option String)
    → (given && contradicts new stored) ≡ false
    → is_kept_or_cleared stored (if given then new else stored) ≡ true
unfolding is_kept is_kept_or_cleared
kept_failure false new none h = refl
kept_failure false new (some s) h = ground arith
kept_failure true none stored h = refl
kept_failure true (some n) none h = refl
kept_failure true (some n) (some s) h = ground arith

kept_resource :
    (q : UpdateRequest) (b : Binding)
    → resource_conflict q b ≡ false
    → (not (stored_has_resource b) || is_same_resource b (merged q b)) ≡ true
unfolding resource_conflict is_same_resource merged
kept_resource q b h = ground arith

pub overwrites_nothing-merged :
    (q : UpdateRequest) (b : Binding)
    → rejected q b ≡ false
    → overwrites_nothing b (merged q b) ≡ true
unfolding rejected overwrites_nothing merged session_conflict failure_reason_conflict
    failure_summary_conflict
overwrites_nothing-merged q b h = ground (
  arith,
  kept_session (fill_session q) b.external_session_id,
  kept_failure (provided q.failure_reason_provided q.failure_reason) q.failure_reason
      b.failure_reason,
  kept_failure (provided q.failure_summary_provided q.failure_summary) q.failure_summary
      b.failure_summary,
  kept_resource q b,
)
