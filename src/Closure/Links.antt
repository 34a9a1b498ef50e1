-- ===== src/Closure/Links.antt =====
-- afk_outcomes/closure_episodes.py: the states of the links of one change request, by the
-- differences between its snapshots.
use opencode_gateway.Prelude.{
  ℕ, Bool, true, ◌&&◌, ◌||◌, not, List, [], ◌∷◌, ◌++◌, map, string_eq, nat_eq, ◌==◌, leb,
  if◌then◌else◌, filter, contains, dedupe, is_some,
}
use opencode_gateway.Prelude.Dict.{put_all, update_values}
use opencode_gateway.Associations.Sort.{sort_by}
use opencode_gateway.Closure.Snapshot.{
  LinkKey, LinkState, link_key_eq, state_eq, Fact, Resolution, resolve_timestamp_group,
}

-- `fact.event_type in _SNAPSHOT_EVENT_TYPES and fact.issue_links is not None`
unfoldable pub has_snapshot : Fact → Bool
has_snapshot f =
    (f.event_type == "change_request.opened" || f.event_type == "change_request.updated")
    && is_some f.issue_links

-- The keys of `groups`, sorted.
unfoldable pub snapshot_times : List Fact → List ℕ
snapshot_times facts =
    sort_by leb (dedupe (map (λ (f : Fact). f.occurred_at) (filter has_snapshot facts)))

-- `groups[occurred_at]`
unfoldable pub group_at : List Fact → ℕ → List Fact
group_at facts t = filter (λ (f : Fact). has_snapshot f && f.occurred_at == t) facts

-- What a link that is not in a view becomes: an active or parked one is revoked.
unfoldable pub revoke_absent : List LinkKey → LinkKey → LinkState → LinkState
revoke_absent view k s =
    if (s == LinkState.active || s == LinkState.parked) && not (contains k view)
    then LinkState.revoked
    else s

-- `frozenset.intersection` and `frozenset.union` of the conflicting snapshots
unfoldable pub in_all : LinkKey → List (List LinkKey) → Bool
in_all k [] = true
in_all k (s ∷ ss) = contains k s && in_all k ss

unfoldable pub common_of : List (List LinkKey) → List LinkKey
common_of [] = []
common_of (s ∷ ss) = filter (λ (k : LinkKey). in_all k ss) s

unfoldable pub union_of : List (List LinkKey) → List LinkKey
union_of [] = []
union_of (s ∷ ss) = s ++ union_of ss

-- One turn of the loop over the times.
unfoldable pub apply_resolution :
    Resolution → List (LinkKey × LinkState) → List (LinkKey × LinkState)
apply_resolution (Resolution.ok current) states =
    update_values (revoke_absent current) (put_all current LinkState.active states)
apply_resolution (Resolution.park candidates) states =
    let common = common_of candidates in
    let union = union_of candidates in
    let differing = filter (λ (k : LinkKey). not (contains k common)) union in
    update_values (revoke_absent union)
      (put_all differing LinkState.parked (put_all common LinkState.active states))

unfoldable pub apply_groups :
    List Fact → List ℕ → List (LinkKey × LinkState) → List (LinkKey × LinkState)
apply_groups facts [] states = states
apply_groups facts (t ∷ ts) states =
    apply_groups facts ts (apply_resolution (resolve_timestamp_group (group_at facts t)) states)

-- `_derive_link_states`
unfoldable pub derive_link_states : List Fact → List (LinkKey × LinkState)
derive_link_states facts = apply_groups facts (snapshot_times facts) []
