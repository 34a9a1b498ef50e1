-- ===== src/History/Authority.antt =====
-- The lifecycle authority: what it is for an execution binding not to contradict its lifecycle.
pub mod Runs
pub mod Rows
pub mod Invariant
use opencode_gateway.Prelude.{
  ℕ, zero, suc, ◌+◌, ◌-◌, ◌≤◌, ◌<◌, String, ◌≡◌, refl, sym, ap, subst, ◌∙◌, ◌≢◌, ◌↔◌, ◌⊎◌, inl, inr,
  Bool, true, false, ◌&&◌, ◌||◌, not, Option, none, some, List, [], ◌∷◌, ◌++◌, map, arith, Eq,
  nat_eq, string_eq, option_eq, list_eq, ◌==◌, ◌/=◌, ltb, leb, if◌then◌else◌, is_none, is_some,
  coalesce, Bool-cases, Option-cases, ℕ_discrete, length, length-append, length-filter_none,
  filter-filter, nil_of_length, any-find, find-append, find-append_found, find-holds,
  length-filter-append, length-filter-ext, head?, is_empty, find?, filter, any, All, contains,
  dedupe_from, dedupe, DistinctFrom, dedupe_from-DistinctFrom, contains-append,
  contains-dedupe_from,
}
use opencode_gateway.Domain.{Provider, ChangeRequest, change_request_eq, is_terminal}
use opencode_gateway.Store.{Run, Binding, Db, empty, has_id, has_job, find_run, find_binding}
use opencode_gateway.Result.{ok}
use opencode_gateway.Lifecycle.{
  set_title, set_change_request, update_afk_run, owns, bind_change_request,
  apply_change_request_binding,
}
use opencode_gateway.Lifecycle.Ownership.{owned, apply-conflict}
use opencode_gateway.Lifecycle.Lookup.{owned_stays}
use opencode_gateway.Lifecycle.Frame.{claimed, apply_cases}
use opencode_gateway.Provisioning.Keys.{provision-IsKeyed}
use opencode_gateway.Provisioning.{
  Provision, ProvisionResult, provisioned, insert_run, predecessor_missing, has_key,
  provision_afk_run,
}
use opencode_gateway.Creation.{
  CreateRequest, Interference, new_binding, bind_resource, create_or_replay,
}
use opencode_gateway.Creation.Frame.{inserted, create_keeps}
use opencode_gateway.Terminal.{
  UpdateRequest, stored_terminal, rejected, merged, write_binding, transition, authorise,
  update_terminal,
}
use opencode_gateway.Terminal.Frame.{update_keeps}
use opencode_gateway.Terminal.Transition.{
  IsLocked, find-write_other, find-write_self, authorise-find,
}
use opencode_gateway.Checkpoints.{create_checkpoint}
use opencode_gateway.History.{Reach, IsKept, Reach_induction}
use opencode_gateway.History.Bindings.{update_afk_run-bindings, create_checkpoint-bindings}
use opencode_gateway.History.Keys.{
  IsKeyed-nil, Keyed, Keyed-IsKept, apply-IsKeyed_at, retitle_cases, checkpoint-runs,
}
use opencode_gateway.History.Ownership.{owned-append, owned-set_title, ownership_stays}

-- The change request that a row names.
abbrev pub named : Binding → ChangeRequest
named b = record {
  provider = b.provider;
  repository = b.repository_url;
  external_id = b.entity_number;
}

-- A row with a lifecycle and a provider names the change request that its lifecycle holds.
unfoldable pub authorised : List Run → Binding → Bool
unfolding find_run
authorised rs b = elim b.afk_run_id [
  | none ↦ true
  | some run ↦ if is_some b.provider then owned run (named b) rs else true
]

pub authorised_stays :
    (rs ss : List Run) (b : Binding)
    → ((i : String) (d : ChangeRequest)
        → is_some d.provider ≡ true
        → owned i d rs ≡ true
        → owned i d ss ≡ true)
    → authorised rs b ≡ true
    → authorised ss b ≡ true
unfolding authorised
authorised_stays rs ss b more h = elim (Option-cases b.afk_run_id) [
  | inl legacy ↦ rw (legacy, authorised) refl
  | inr (run, there) ↦ elim (Bool-cases (is_some b.provider)) [
    | inl given ↦ let grown = more run (named b) given in ground arith
    | inr bare ↦ ground arith
  ]
]

pub authorised_orphan : (rs : List Run) (b : Binding) → b.afk_run_id ≡ none → authorised rs b ≡ true
unfolding authorised
authorised_orphan rs b e = ground arith

pub authorised_bare : (rs : List Run) (b : Binding) → b.provider ≡ none → authorised rs b ≡ true
unfolding authorised
authorised_bare rs b e = ground arith

pub authorised_owner :
    (rs : List Run) (b : Binding) (run : String)
    → b.afk_run_id ≡ some run
    → owned run (named b) rs ≡ true
    → authorised rs b ≡ true
unfolding authorised
authorised_owner rs b run e h = ground arith

abbrev pub AllAuthorised : List Run → List Binding → Type 0
AllAuthorised rs bs =
    (job : ℕ) (b : Binding) → find_binding job bs ≡ some b → authorised rs b ≡ true

-- The uniqueness rules and the authority, together.
pub record IsConsistent (e : Db) : Type 0 where
  pub keys : Keyed e
  pub authority : AllAuthorised e.runs e.bindings
