-- ===== src/Tests/Issues.antt =====
-- The closure episodes at concrete facts: an issue that is opened and closed, and a change request
-- that declares to close it and is merged in between.
use opencode_gateway.Prelude.{
  ℕ, ◌≡◌, refl, true, String, Option, none, some, List, [], ◌∷◌, string_eq, nat_eq, option_eq,
  string_discrete, filter, any, contains, dedupe_from, length, find?, map, ℕ_discrete, All,
}
use opencode_gateway.Prelude.Dict.{get}
use opencode_gateway.Domain.{Provider, EntityType}
use opencode_gateway.Associations.Sort.{sort_by, insert_by}
use opencode_gateway.Closure.Snapshot.{
  LinkKey, LinksSnapshot, Fact, EndpointKey, link_key_eq, endpoint_eq, snapshot_key, keys_where,
  from_webhook, distinct_from, same_set, is_subset, resolve_sets, resolve_timestamp_group,
  link_key_discrete, kind_discrete,
}
use opencode_gateway.Closure.Links.{derive_link_states, snapshot_times}
use opencode_gateway.Closure.Episodes.{
  is_opened, is_reopened, Event, Episode, IssueView, project_issue_episodes,
}
use opencode_gateway.Closure.{closing, project_closure_episodes}
use opencode_gateway.Closure.LinkLaws.{link_trace, resolutions, link_states_refine_traces}
use opencode_gateway.Closure.Timeline.{
  last?, at_most_one, one_episode_per_close, last_episode_is_current,
}
use opencode_gateway.Closure.Intervals.{
  interval, intervals, opening, first_time, closes, is_closed, is_current,
}
use opencode_gateway.Closure.Attribution.{is_earned, attributions_are_earned}
use opencode_gateway.Closure.Webhook.{settled_view_agrees_with_webhooks}

abbrev issue_fact : String → ℕ → Fact
issue_fact event_type t = record {
  provider = Provider.github;
  repository = "o/r";
  entity_type = EntityType.issue;
  external_id = "5";
  event_type = event_type;
  occurred_at = t;
  observed_via = "webhook";
  issue_links = none;
}

abbrev cr_fact : String → ℕ → Option LinksSnapshot → Fact
cr_fact event_type t snapshot = record {
  provider = Provider.github;
  repository = "o/r";
  entity_type = EntityType.change_request;
  external_id = "9";
  event_type = event_type;
  occurred_at = t;
  observed_via = "webhook";
  issue_links = snapshot;
}

abbrev closes_5 : LinksSnapshot
closes_5 = record {
  references = [];
  declares_closure = (record { repository = "o/r"; number = "5" }) ∷ [];
}

abbrev facts_5 : List Fact
facts_5 =
    issue_fact "issue.closed" 30
    ∷ cr_fact "change_request.opened" 10 (some closes_5)
    ∷ cr_fact "change_request.merged" 20 none
    ∷ issue_fact "issue.opened" 0
    ∷ []

abbrev issue_5 : EndpointKey
issue_5 = record { provider = Provider.github; repository = "o/r"; external_id = "5" }

abbrev cr_9 : EndpointKey
cr_9 = record { provider = Provider.github; repository = "o/r"; external_id = "9" }

abbrev events_5 : List Event
events_5 = (30, "issue.closed") ∷ (40, "issue.reopened") ∷ (0, "issue.opened") ∷ []

abbrev view_5 : IssueView
view_5 = record {
  issue = issue_5;
  active_crs = cr_9 ∷ [];
  parked_crs = [];
  cr_merged = (cr_9, 20) ∷ [];
  resolver_version = "1";
}

abbrev snapshots_10 : List Fact
snapshots_10 =
    cr_fact "change_request.opened" 10 (some closes_5)
    ∷ cr_fact "change_request.updated" 10 (some closes_5)
    ∷ []

link_states_refine_traces_example :
    get (closing issue_5) (derive_link_states facts_5)
    ≡ link_trace (closing issue_5) (resolutions facts_5 (snapshot_times facts_5)) none
link_states_refine_traces_example = link_states_refine_traces (closing issue_5) facts_5

one_episode_per_close_example :
    (map interval (filter is_closed (project_issue_episodes view_5 events_5))
      ≡ (some 0, some 30) ∷ [])
    × (length (filter is_closed (project_issue_episodes view_5 events_5)) ≡ 1)
unfolding intervals opening find? closes is_opened is_reopened first_time sort_by insert_by filter
    string_discrete ℕ_discrete
one_episode_per_close_example = one_episode_per_close view_5 events_5

last_episode_is_current_example :
    filter is_current (project_issue_episodes view_5 events_5)
    ≡ at_most_one (last? (project_issue_episodes view_5 events_5))
last_episode_is_current_example = last_episode_is_current view_5 events_5

attributions_are_earned_example :
    All
      (λ (e : Episode). is_earned facts_5 e ≡ true)
      (project_closure_episodes facts_5 none "1").episodes
attributions_are_earned_example = attributions_are_earned facts_5 none "1"

settled_view_agrees_with_webhooks_example :
    All
      (λ (w : List LinkKey). same_set w (closing issue_5 ∷ []) ≡ true)
      (keys_where from_webhook snapshots_10)
unfolding resolve_timestamp_group keys_where snapshot_key dedupe_from contains distinct_from
    same_set is_subset any resolve_sets string_discrete link_key_discrete kind_discrete
settled_view_agrees_with_webhooks_example =
    settled_view_agrees_with_webhooks snapshots_10 (closing issue_5 ∷ []) refl
