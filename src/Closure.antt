-- ===== src/Closure.antt =====
-- afk_outcomes/closure_episodes.py: the links, closure episodes and unresolved records that are
-- projected from the facts of issues and change requests. The triple (provider, repository,
-- external id) that the source spells out in three fields of a record is one EndpointKey here.
pub mod Snapshot
pub mod Links
pub mod Episodes
pub mod LinkLaws
pub mod Webhook
pub mod Timeline
pub mod Intervals
pub mod Merges
pub mod Attribution
pub mod Candidates
use opencode_gateway.Prelude.{
  ℕ, ◌<◌, String, ◌≡◌, refl, Bool, true, false, ◌&&◌, ◌||◌, not, Option, none, some, List, [], ◌∷◌,
  ◌++◌, map, Eq, string_eq, option_eq, ◌==◌, ltb, leb, if◌then◌else◌, is_none, is_some, filter, any,
  contains, dedupe, string_discrete,
}
use opencode_gateway.Prelude.Dict.{get, put_least}
use opencode_gateway.Domain.{Provider, EntityType, provider_value, provider_eq, entity_eq}
use opencode_gateway.Associations.{tuple_leb}
use opencode_gateway.Associations.Sort.{sort_by}
use opencode_gateway.Closure.Snapshot.{
  LinkKey, LinkKind, LinkState, kind_value, kind_eq, link_leb, link_key_eq, state_eq, Fact,
  fact_key, EndpointKey, endpoint_eq,
}
use opencode_gateway.Closure.Links.{derive_link_states}
use opencode_gateway.Closure.Episodes.{
  Episode, Unresolved, Entry, Event, IssueView, key_leb, project_issue_episodes,
}

-- `fact.event_type in _ISSUE_EVENT_TYPES`, of a fact of an issue
unfoldable pub is_issue_event : Fact → Bool
is_issue_event f =
    f.entity_type == EntityType.issue
    && (f.event_type == "issue.opened"
        || f.event_type == "issue.reopened"
        || f.event_type == "issue.closed")

unfoldable pub is_cr_fact : Fact → Bool
is_cr_fact f = f.entity_type == EntityType.change_request

unfoldable pub is_merge : Fact → Bool
is_merge f = is_cr_fact f && f.event_type == "change_request.merged"

-- `issue_events[key]`
unfoldable pub issue_events : EndpointKey → List Fact → List Event
issue_events key facts =
    map (λ (f : Fact). (f.occurred_at, f.event_type))
      (filter (λ (f : Fact). is_issue_event f && fact_key f == key) facts)

-- `cr_facts[key]`
unfoldable pub cr_facts : EndpointKey → List Fact → List Fact
cr_facts key facts = filter (λ (f : Fact). is_cr_fact f && fact_key f == key) facts

-- One turn of the loop over the facts, for `cr_merged`.
unfoldable pub note_merge : Fact → List (EndpointKey × ℕ) → List (EndpointKey × ℕ)
note_merge f cr_merged =
    if is_merge f then put_least (fact_key f) f.occurred_at cr_merged else cr_merged

unfoldable pub note_merges : List Fact → List (EndpointKey × ℕ) → List (EndpointKey × ℕ)
note_merges [] cr_merged = cr_merged
note_merges (f ∷ facts) cr_merged = note_merges facts (note_merge f cr_merged)

-- The keys of `link_states`.
unfoldable pub cr_keys : List Fact → List EndpointKey
cr_keys facts = dedupe (map fact_key (filter is_cr_fact facts))

-- The link that declares to close an issue.
abbrev pub closing : EndpointKey → LinkKey
closing issue = record {
  kind = LinkKind.declares_closure;
  repository = issue.repository;
  number = issue.external_id;
}

-- `link_states[cr_key].get(("declares_closure", issue))`, for an issue of the same provider
unfoldable pub declared_state : List Fact → EndpointKey → EndpointKey → Option LinkState
declared_state facts issue cr =
    let found = get (closing issue) (derive_link_states (cr_facts cr facts)) in
    if cr.provider == issue.provider then found else none

-- `sorted(set(active_declaring.get(issue_key, ())))`, and the same of `parked_declaring`
unfoldable pub declaring : List Fact → LinkState → EndpointKey → List EndpointKey
declaring facts state issue =
    sort_by key_leb
      (filter (λ (cr : EndpointKey). declared_state facts issue cr == some state) (cr_keys facts))

-- The issue of a link; it has the provider of the change request.
abbrev pub linked_issue : EndpointKey → LinkKey → EndpointKey
linked_issue cr k = record {
  provider = cr.provider;
  repository = k.repository;
  external_id = k.number;
}

-- The issues that the change request `cr` declares to close, in the order of its links.
unfoldable pub declared_by : EndpointKey → List (LinkKey × LinkState) → List EndpointKey
declared_by cr [] = []
declared_by cr (item ∷ states) =
    let rest = declared_by cr states in
    if (item.0).kind == LinkKind.declares_closure && not (item.1 == LinkState.revoked)
    then linked_issue cr item.0 ∷ rest
    else rest

unfoldable pub declared_issues : List Fact → List EndpointKey → List EndpointKey
declared_issues facts [] = []
declared_issues facts (cr ∷ crs) =
    declared_by cr (derive_link_states (cr_facts cr facts)) ++ declared_issues facts crs

-- `sorted(all_issue_keys)`, before the restriction to `issues` and after it
unfoldable pub all_issues : List Fact → List EndpointKey
all_issues facts =
    sort_by key_leb
      (dedupe (map fact_key (filter is_issue_event facts) ++ declared_issues facts (cr_keys facts)))

unfoldable pub issue_keys : Option (List EndpointKey) → List Fact → List EndpointKey
issue_keys none facts = all_issues facts
issue_keys (some issues) facts =
    filter (λ (key : EndpointKey). contains key issues) (all_issues facts)

abbrev pub issue_view : String → List Fact → EndpointKey → IssueView
issue_view version facts issue = record {
  issue = issue;
  active_crs = declaring facts LinkState.active issue;
  parked_crs = declaring facts LinkState.parked issue;
  cr_merged = note_merges facts [];
  resolver_version = version;
}

unfoldable pub entries_of : String → List Fact → List EndpointKey → List Entry
entries_of version facts [] = []
entries_of version facts (issue ∷ issues) =
    project_issue_episodes (issue_view version facts issue) (issue_events issue facts)
    ++ entries_of version facts issues

unfoldable pub records_of : List Entry → List Unresolved
records_of [] = []
records_of (entry ∷ entries) = elim entry.unresolved [
  | none ↦ records_of entries
  | some r ↦ r ∷ records_of entries
]

-- `ClosureLink`
pub record ClosureLink : Type 0 where
  pub change_request : EndpointKey
  pub issue : EndpointKey
  pub kind : LinkKind
  pub state : LinkState
  pub resolver_version : String

abbrev pub closure_link : String → EndpointKey → LinkKey × LinkState → ClosureLink
closure_link version cr item = record {
  change_request = cr;
  issue = linked_issue cr item.0;
  kind = (item.0).kind;
  state = item.1;
  resolver_version = version;
}

abbrev pub item_leb : LinkKey × LinkState → LinkKey × LinkState → Bool
item_leb a b = link_leb a.0 b.0

unfoldable pub links_of : String → List Fact → List EndpointKey → List ClosureLink
links_of version facts [] = []
links_of version facts (cr ∷ crs) =
    map (closure_link version cr) (sort_by item_leb (derive_link_states (cr_facts cr facts)))
    ++ links_of version facts crs

-- `ClosureProjection`
pub record Projection : Type 0 where
  pub links : List ClosureLink
  pub episodes : List Episode
  pub unresolved : List Unresolved
  pub resolver_version : String

-- `project_closure_episodes`
unfoldable pub project_closure_episodes :
    List Fact → Option (List EndpointKey) → String → Projection
project_closure_episodes facts issues version =
    let entries = entries_of version facts (issue_keys issues facts) in
    record {
      links = links_of version facts (sort_by key_leb (cr_keys facts));
      episodes = map (λ (e : Entry). e.episode) entries;
      unresolved = records_of entries;
      resolver_version = version;
    }
