-- ===== src/Closure/Attribution.antt =====
-- To which change request a closed episode is attributed.
use opencode_gateway.Prelude.{
  ℕ, String, ◌≡◌, refl, ◌∙◌, inl, inr, Bool, true, false, ◌&&◌, ◌||◌, not, Option, none, some, List,
  [], ◌∷◌, ◌++◌, arith, ◌==◌, nat_eq, option_eq, All, All-append, All-imp, All-map, contains-filter,
  filter, any, contains, is_empty, Bool-cases, Option-cases,
}
use opencode_gateway.Associations.Sort.{sort_by}
use opencode_gateway.Closure.Snapshot.{EndpointKey, endpoint_eq, Fact, LinkState, state_eq}
use opencode_gateway.Closure.Episodes.{
  Episode, Entry, IssueView, Event, event_leb, is_opened, is_reopened, eligible, is_eligible,
  closed_status, closed_episode, open_episode, start_after, closed_entries, final_start,
  open_entries, supersede, supersede_earlier, project_issue_episodes,
}
use opencode_gateway.Closure.Merges.{merged_before, eligible_when_merged}
use opencode_gateway.Closure.{
  declared_state, declaring, cr_keys, issue_view, issue_events, issue_keys, entries_of,
  project_closure_episodes,
}
use opencode_gateway.Closure.Candidates.{
  contains-sort_by, contains-eligible, attributed_is_candidate,
}

-- Exactly one active declaration, and no parked one.

-- The attribution of an episode, where it has one, is to an active declaration that was merged
-- before the close of the episode.
unfoldable pub view_earns : IssueView → Episode → Bool
view_earns v e = elim e.change_request [
  | none ↦ true
  | some cr ↦ elim e.closed_at [
    | none ↦ false
    | some t ↦ contains cr v.active_crs && is_eligible v.cr_merged t cr && e.issue == v.issue
  ]
]

view_earns-closed_episode :
    (v : IssueView) (o : Option ℕ) (t : ℕ) → view_earns v (closed_episode v o t).episode ≡ true
unfolding closed_episode view_earns
view_earns-closed_episode v o t =
    let active = eligible v.cr_merged t v.active_crs in
    let parked = eligible v.cr_merged t v.parked_crs in
    elim (Option-cases (closed_status active parked).1) [
      | inl e ↦ rw e refl
      | inr (cr, e) ↦
          let is_among = attributed_is_candidate active parked cr e in
          let both = contains-eligible v.cr_merged t v.active_crs cr in rw e (ground arith)
    ]

view_earns-open_episode :
    (v : IssueView) (o : Option ℕ) → view_earns v (open_episode v o).episode ≡ true
unfolding open_episode view_earns
view_earns-open_episode v o = refl

view_earns-supersede :
    (v : IssueView) (e : Entry)
    → view_earns v e.episode ≡ true
    → view_earns v (supersede e).episode ≡ true
unfolding view_earns
view_earns-supersede v e h = h

AllEarned : IssueView → List Entry → Type 0
AllEarned v es = All (λ (e : Entry). view_earns v e.episode ≡ true) es

AllEarned-closed_entries :
    (v : IssueView) (es : List Event) (start : Option ℕ) → AllEarned v (closed_entries v es start)
unfolding closed_entries AllEarned
AllEarned-closed_entries v [] start = tt
AllEarned-closed_entries v (e ∷ es) start = elim (Bool-cases (is_opened e || is_reopened e)) [
  | inl h ↦ rw h (AllEarned-closed_entries v es (start_after e start))
  | inr h ↦ rw h (view_earns-closed_episode v start e.0, AllEarned-closed_entries v es none)
]

AllEarned-open_entries :
    (v : IssueView) (es : List Event) (closed : List Entry) (start : Option ℕ)
    → AllEarned v (open_entries v es closed start)
unfolding open_entries AllEarned
AllEarned-open_entries v es closed none =
    elim (Bool-cases (is_empty es && not (is_empty v.active_crs))) [
      | inl h ↦ rw h (view_earns-open_episode v none, tt)
      | inr h ↦ rw h tt
    ]
AllEarned-open_entries v es closed (some t) =
    elim (Bool-cases (not (is_empty v.active_crs) || not (is_empty closed))) [
      | inl h ↦ rw h (view_earns-open_episode v (some t), tt)
      | inr h ↦ rw h tt
    ]

AllEarned-supersede_earlier :
    (v : IssueView) (es : List Entry) → AllEarned v es → AllEarned v (supersede_earlier es)
unfolding supersede_earlier AllEarned
AllEarned-supersede_earlier v [] h = tt
AllEarned-supersede_earlier v (e ∷ []) h = h
AllEarned-supersede_earlier v (e ∷ d ∷ es) h =
    (view_earns-supersede v e h.0, AllEarned-supersede_earlier v (d ∷ es) h.1)

AllEarned-project_issue_episodes :
    (v : IssueView) (events : List Event) → AllEarned v (project_issue_episodes v events)
unfolding project_issue_episodes AllEarned
AllEarned-project_issue_episodes v events =
    let sorted = sort_by event_leb events in
    let closed = closed_entries v sorted none in
    let opened = open_entries v events closed (final_start sorted none) in
    AllEarned-supersede_earlier v (closed ++ opened) (
      All-append (λ (e : Entry). view_earns v e.episode ≡ true) closed opened
        (AllEarned-closed_entries v sorted none)
        (AllEarned-open_entries v events closed (final_start sorted none)))

-- The attribution of an episode, where it has one, is to a change request with an active
-- declaration to close the issue of the episode, with a merge of it before the close.
unfoldable pub is_earned : List Fact → Episode → Bool
is_earned facts e = elim e.change_request [
  | none ↦ true
  | some cr ↦ elim e.closed_at [
    | none ↦ false
    | some t ↦
        any (merged_before t cr) facts && declared_state facts e.issue cr == some LinkState.active
  ]
]

contains-declaring :
    (facts : List Fact) (state : LinkState) (issue cr : EndpointKey)
    → contains cr (declaring facts state issue)
      ≡ (contains cr (cr_keys facts) && declared_state facts issue cr == some state)
unfolding declaring
contains-declaring facts state issue cr =
    let declares = λ (k : EndpointKey). declared_state facts issue k == some state in
    contains-sort_by cr (filter declares (cr_keys facts))
    ∙ contains-filter declares cr (cr_keys facts)

earned_of_view :
    (version : String) (facts : List Fact) (issue : EndpointKey) (e : Episode)
    → view_earns (issue_view version facts issue) e ≡ true
    → is_earned facts e ≡ true
unfolding view_earns is_earned
earned_of_view version facts issue e h = elim (Option-cases e.change_request) [
  | inl no_cr ↦ rw no_cr refl
  | inr (cr, is_cr) ↦ elim (Option-cases e.closed_at) [
    | inl no_close ↦ absurd (cc (h, is_cr, no_close))
    | inr (t, is_t) ↦
        let declared = contains-declaring facts LinkState.active issue cr in
        let merged = eligible_when_merged cr t facts in rw (is_cr, is_t) (ground arith)
  ]
]

AllEarned-entries_of :
    (version : String) (facts : List Fact) (issues : List EndpointKey)
    → All (λ (e : Entry). is_earned facts e.episode ≡ true) (entries_of version facts issues)
unfolding entries_of AllEarned
AllEarned-entries_of version facts [] = tt
AllEarned-entries_of version facts (issue ∷ issues) =
    let entries =
      project_issue_episodes (issue_view version facts issue) (issue_events issue facts) in
    All-append (λ (e : Entry). is_earned facts e.episode ≡ true) entries
      (entries_of version facts issues)
      (All-imp (λ (e : Entry). view_earns (issue_view version facts issue) e.episode ≡ true)
        (λ (e : Entry). is_earned facts e.episode ≡ true)
        (λ e h. earned_of_view version facts issue e.episode h) entries
        (AllEarned-project_issue_episodes (issue_view version facts issue)
          (issue_events issue facts)))
      (AllEarned-entries_of version facts issues)

-- Every attribution in the projection of any facts is earned: the change request has an active
-- declaration to close that issue, and a merge of it is strictly before the close.
pub attributions_are_earned :
    (facts : List Fact) (issues : Option (List EndpointKey)) (version : String)
    → All
        (λ (e : Episode). is_earned facts e ≡ true)
        (project_closure_episodes facts issues version).episodes
unfolding project_closure_episodes
attributions_are_earned facts issues version =
    let entries = entries_of version facts (issue_keys issues facts) in
    All-map (λ (e : Entry). e.episode) (λ (e : Episode). is_earned facts e ≡ true) entries
      (AllEarned-entries_of version facts (issue_keys issues facts))
