-- ===== src/Closure/LinkLaws.antt =====
-- The state of one link, seen on its own: what a resolved view of a time makes of it. The states
-- that are derived for a change request are those of its links, each followed alone.
use opencode_gateway.Prelude.{
  ℕ, ◌≡◌, refl, ap, ◌∙◌, ◌&&◌, not, Option, none, some, List, [], ◌∷◌, arith, if◌then◌else◌, filter,
  any, contains, contains-append, contains-filter,
}
use opencode_gateway.Prelude.Dict.{get, put_all, get-put_all, get-update_values, map_found}
use opencode_gateway.Closure.Snapshot.{
  LinkKey, LinkState, link_key_eq, state_eq, state_discrete, Fact, Resolution,
  resolve_timestamp_group,
}
use opencode_gateway.Closure.Links.{
  snapshot_times, group_at, revoke_absent, in_all, common_of, union_of, apply_resolution,
  apply_groups, derive_link_states,
}

-- What the resolution of one time makes of a link.
unfoldable pub view_step : LinkKey → Resolution → Option LinkState → Option LinkState
view_step k (Resolution.ok current) state =
    if contains k current
    then some LinkState.active
    else map_found (λ (_ : LinkState). LinkState.revoked) state
view_step k (Resolution.park candidates) state =
    if in_all k candidates && any (contains k) candidates
    then some LinkState.active
    else if any (contains k) candidates
    then some LinkState.parked
    else map_found (λ (_ : LinkState). LinkState.revoked) state

-- The link through the resolutions of all times.
unfoldable pub link_trace : LinkKey → List Resolution → Option LinkState → Option LinkState
link_trace k [] state = state
link_trace k (r ∷ rs) state = link_trace k rs (view_step k r state)

-- The resolutions of the snapshots of a change request, in the order of time.
unfoldable pub resolutions : List Fact → List ℕ → List Resolution
resolutions facts [] = []
resolutions facts (t ∷ ts) = resolve_timestamp_group (group_at facts t) ∷ resolutions facts ts

contains-union_of :
    (k : LinkKey) (ss : List (List LinkKey)) → contains k (union_of ss) ≡ any (contains k) ss
unfolding contains union_of any
contains-union_of k [] = refl
contains-union_of k (s ∷ ss) =
    ground (arith, contains-append k s (union_of ss), contains-union_of k ss)

contains-common_of :
    (k : LinkKey) (ss : List (List LinkKey))
    → contains k (common_of ss) ≡ (in_all k ss && any (contains k) ss)
unfolding contains common_of any in_all
contains-common_of k [] = refl
contains-common_of k (s ∷ ss) = ground (arith, contains-filter (λ (j : LinkKey). in_all j ss) k s)

revoke_absent_cases :
    (view : List LinkKey) (k : LinkKey) (s : LinkState)
    → revoke_absent view k s ≡ (if contains k view then s else LinkState.revoked)
unfolding revoke_absent state_discrete
revoke_absent_cases view k LinkState.active = ground arith
revoke_absent_cases view k LinkState.revoked = ground arith
revoke_absent_cases view k LinkState.parked = ground arith

found_if_absent :
    (view : List LinkKey) (k : LinkKey) (o : Option LinkState)
    → map_found (revoke_absent view k) o
      ≡ (if contains k view then o else map_found (λ (_ : LinkState). LinkState.revoked) o)
found_if_absent view k none = ground arith
found_if_absent view k (some s) = ground (arith, revoke_absent_cases view k s)

get-apply_resolution :
    (k : LinkKey) (r : Resolution) (states : List (LinkKey × LinkState))
    → get k (apply_resolution r states) ≡ view_step k r (get k states)
unfolding apply_resolution view_step
get-apply_resolution k (Resolution.ok current) states =
    let marked = put_all current LinkState.active states in
    ground (
      arith,
      get-update_values (revoke_absent current) k marked,
      found_if_absent current k (get k marked),
      get-put_all k current LinkState.active states,
    )
get-apply_resolution k (Resolution.park ss) states =
    let common = common_of ss in
    let union = union_of ss in
    let differing = filter (λ (j : LinkKey). not (contains j common)) union in
    let marked = put_all common LinkState.active states in
    let both = put_all differing LinkState.parked marked in
    ground (
      arith,
      get-update_values (revoke_absent union) k both,
      found_if_absent union k (get k both),
      get-put_all k differing LinkState.parked marked,
      get-put_all k common LinkState.active states,
      contains-filter (λ (j : LinkKey). not (contains j common)) k union,
      contains-common_of k ss,
      contains-union_of k ss,
    )

get-apply_groups :
    (k : LinkKey) (facts : List Fact) (ts : List ℕ) (states : List (LinkKey × LinkState))
    → get k (apply_groups facts ts states) ≡ link_trace k (resolutions facts ts) (get k states)
unfolding apply_groups link_trace resolutions
get-apply_groups k facts [] states = refl
get-apply_groups k facts (t ∷ ts) states =
    let r = resolve_timestamp_group (group_at facts t) in
    get-apply_groups k facts ts (apply_resolution r states)
    ∙ ap (link_trace k (resolutions facts ts)) (get-apply_resolution k r states)

-- The state that is derived for a link of a change request is that of the link followed alone
-- through the resolved views, in the order of their times: in an agreed view it is active, in some
-- of the conflicting views parked, in none of them revoked where it was known.
pub link_states_refine_traces :
    (k : LinkKey) (facts : List Fact)
    → get k (derive_link_states facts)
      ≡ link_trace k (resolutions facts (snapshot_times facts)) none
unfolding derive_link_states get
link_states_refine_traces k facts = get-apply_groups k facts (snapshot_times facts) []
