-- ===== src/Closure/Episodes.antt =====
-- afk_outcomes/closure_episodes.py: the episodes of one issue, from its events and the change
-- requests that declare to close it.
use opencode_gateway.Prelude.{
  ℕ, String, Bool, ◌&&◌, ◌||◌, not, Option, none, some, List, [], ◌∷◌, ◌++◌, string_eq, nat_eq,
  ◌==◌, leb, if◌then◌else◌, filter, any, dedupe, is_some, is_empty,
}
use opencode_gateway.Prelude.Dict.{get, has_less}
use opencode_gateway.Domain.{provider_value}
use opencode_gateway.Associations.{tuple_leb, text_leb}
use opencode_gateway.Associations.Sort.{sort_by}
use opencode_gateway.Closure.Snapshot.{EndpointKey, endpoint_eq}

-- `ClosureEpisodeStatus`
pub data EpisodeStatus : Type 0 where
  pending awaiting_closure unmatched ambiguous inferred superseded : EpisodeStatus

-- `ClosureEpisode`
pub record Episode : Type 0 where
  pub issue : EndpointKey
  pub opened_at : Option ℕ
  pub closed_at : Option ℕ
  pub status : EpisodeStatus
  pub change_request : Option EndpointKey
  pub resolver_version : String

-- `ClosureUnresolved`
pub record Unresolved : Type 0 where
  pub issue : EndpointKey
  pub closed_at : ℕ
  pub reason : String
  pub candidates : List EndpointKey
  pub resolver_version : String

pub record Entry : Type 0 where
  pub episode : Episode
  pub unresolved : Option Unresolved

-- Python's `<=` on the keys.
abbrev pub key_leb : EndpointKey → EndpointKey → Bool
key_leb j k =
    tuple_leb (provider_value j.provider ∷ j.repository ∷ j.external_id ∷ [])
      (provider_value k.provider ∷ k.repository ∷ k.external_id ∷ [])

-- What the episodes of one issue are computed from.
pub record IssueView : Type 0 where
  pub issue : EndpointKey
  pub active_crs : List EndpointKey
  pub parked_crs : List EndpointKey
  pub cr_merged : List (EndpointKey × ℕ)
  pub resolver_version : String

-- `(merged_at := cr_merged.get(cr)) is not None and merged_at < closed_at`
unfoldable pub is_eligible : List (EndpointKey × ℕ) → ℕ → EndpointKey → Bool
is_eligible cr_merged closed_at cr = has_less closed_at cr cr_merged

unfoldable pub eligible : List (EndpointKey × ℕ) → ℕ → List EndpointKey → List EndpointKey
eligible cr_merged closed_at crs = sort_by key_leb (filter (is_eligible cr_merged closed_at) crs)

-- The status of a closed episode, from the eligible active and parked declarations, and the change
-- request that it is attributed to.
unfoldable pub closed_status :
    List EndpointKey → List EndpointKey → EpisodeStatus × Option EndpointKey
closed_status active_crs (p ∷ parked_crs) = (EpisodeStatus.ambiguous, none)
closed_status [] [] = (EpisodeStatus.unmatched, none)
closed_status (cr ∷ []) [] = (EpisodeStatus.inferred, some cr)
closed_status (cr ∷ _ ∷ _) [] = (EpisodeStatus.ambiguous, none)

abbrev pub unresolved_record : IssueView → ℕ → String → List EndpointKey → Unresolved
unresolved_record v closed_at reason candidates = record {
  issue = v.issue;
  closed_at = closed_at;
  reason = reason;
  candidates = candidates;
  resolver_version = v.resolver_version;
}

-- The unresolved record of a closed episode.
unfoldable pub unresolved_of : IssueView → ℕ → EpisodeStatus → List EndpointKey → Option Unresolved
unresolved_of v closed_at EpisodeStatus.unmatched candidates =
    some (unresolved_record v closed_at "unmatched" [])
unresolved_of v closed_at EpisodeStatus.ambiguous candidates =
    some (unresolved_record v closed_at "ambiguous" candidates)
unresolved_of v closed_at EpisodeStatus.inferred candidates = none
unresolved_of v closed_at EpisodeStatus.pending candidates = none
unresolved_of v closed_at EpisodeStatus.awaiting_closure candidates = none
unresolved_of v closed_at EpisodeStatus.superseded candidates = none

-- `_closed_episode`
unfoldable pub closed_episode : IssueView → Option ℕ → ℕ → Entry
closed_episode v opened_at closed_at =
    let eligible_active = eligible v.cr_merged closed_at v.active_crs in
    let eligible_parked = eligible v.cr_merged closed_at v.parked_crs in
    let candidates = sort_by key_leb (dedupe (eligible_active ++ eligible_parked)) in
    let outcome = closed_status eligible_active eligible_parked in
    record {
      episode = record {
        issue = v.issue;
        opened_at = opened_at;
        closed_at = some closed_at;
        status = outcome.0;
        change_request = outcome.1;
        resolver_version = v.resolver_version;
      };
      unresolved = unresolved_of v closed_at outcome.0 candidates;
    }

-- `_open_episode`
unfoldable pub open_episode : IssueView → Option ℕ → Entry
open_episode v opened_at = record {
  episode = record {
    issue = v.issue;
    opened_at = opened_at;
    closed_at = none;
    status =
        if any (λ (cr : EndpointKey). is_some (get cr v.cr_merged)) v.active_crs
        then EpisodeStatus.awaiting_closure
        else EpisodeStatus.pending;
    change_request = none;
    resolver_version = v.resolver_version;
  };
  unresolved = none;
}

-- An event of an issue: its time and its type.
abbrev pub Event : Type 0
Event = ℕ × String

abbrev pub event_leb : Event → Event → Bool
event_leb a b = if a.0 == b.0 then text_leb a.1 b.1 else leb a.0 b.0

unfoldable pub is_opened : Event → Bool
is_opened e = e.1 == "issue.opened"

unfoldable pub is_reopened : Event → Bool
is_reopened e = e.1 == "issue.reopened"

-- The start of the open interval after an event that does not close the issue.
unfoldable pub start_after : Event → Option ℕ → Option ℕ
start_after e (some start) = if is_opened e then some start else some e.0
start_after e none = some e.0

-- The episodes of the closes in the sorted events.
unfoldable pub closed_entries : IssueView → List Event → Option ℕ → List Entry
closed_entries v [] open_start = []
closed_entries v (e ∷ es) open_start =
    let still_open = closed_entries v es (start_after e open_start) in
    let closed = closed_episode v open_start e.0 ∷ closed_entries v es none in
    if is_opened e || is_reopened e then still_open else closed

-- `open_start` after the sorted events.
unfoldable pub final_start : List Event → Option ℕ → Option ℕ
final_start [] open_start = open_start
final_start (e ∷ es) open_start =
    let still_open = final_start es (start_after e open_start) in
    let closed = final_start es none in if is_opened e || is_reopened e then still_open else closed

-- The episode of the interval that is still open.
unfoldable pub open_entries : IssueView → List Event → List Entry → Option ℕ → List Entry
open_entries v events closed open_start = elim open_start [
  | some start ↦
      if not (is_empty v.active_crs) || not (is_empty closed)
      then open_episode v (some start) ∷ []
      else []
  | none ↦ if is_empty events && not (is_empty v.active_crs) then open_episode v none ∷ [] else []
]

abbrev pub supersede : Entry → Entry
supersede entry = record entry {
  episode = record (entry.episode) { status = EpisodeStatus.superseded };
}

-- `for episode, _ in episodes[:-1]`
unfoldable pub supersede_earlier : List Entry → List Entry
supersede_earlier [] = []
supersede_earlier (entry ∷ []) = entry ∷ []
supersede_earlier (entry ∷ next ∷ rest) = supersede entry ∷ supersede_earlier (next ∷ rest)

-- `_project_issue_episodes`
unfoldable pub project_issue_episodes : IssueView → List Event → List Entry
project_issue_episodes v events =
    let sorted = sort_by event_leb events in
    let closed = closed_entries v sorted none in
    supersede_earlier (closed ++ open_entries v events closed (final_start sorted none))
