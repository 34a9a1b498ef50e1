-- ===== src/Closure/Timeline.antt =====
-- The episodes of one issue: one for each close, and only the latest one is current.
use opencode_gateway.Prelude.{
  ℕ, ◌≡◌, refl, sym, ap, ◌∙◌, inl, inr, true, false, ◌&&◌, ◌||◌, not, Option, none, some, List, [],
  ◌∷◌, ◌++◌, arith, nat_eq, All, All-append, filter, length, filter-append_none, length-map, map,
  find?, string_eq, is_empty, Bool-cases,
}
use opencode_gateway.Associations.Sort.{sort_by, length-filter-sort_by}
use opencode_gateway.Closure.Snapshot.{EndpointKey}
use opencode_gateway.Closure.Episodes.{
  EpisodeStatus, Entry, IssueView, Event, event_leb, is_opened, is_reopened, eligible,
  closed_status, closed_episode, open_episode, start_after, closed_entries, final_start,
  open_entries, supersede, supersede_earlier, project_issue_episodes,
}
use opencode_gateway.Closure.Intervals.{
  closes, is_closed, is_current, interval, first_time, opening, intervals, length-intervals,
  intervals-supersede_earlier, intervals-closed_entries, nothing_closed-open_entries,
}

-- However the events of an issue arrive, its closed episodes are, in order, those of the closes in
-- its sorted events: one for each close, closed at its time, and opened at the last reopening since
-- the close before it, or else at the first opening since then.
pub one_episode_per_close :
    (v : IssueView) (events : List Event)
    → (map interval (filter is_closed (project_issue_episodes v events))
        ≡ intervals (sort_by event_leb events) [])
      × (length (filter is_closed (project_issue_episodes v events))
          ≡ length (filter closes events))
unfolding project_issue_episodes opening find? first_time
one_episode_per_close v events =
    let sorted = sort_by event_leb events in
    let closed = closed_entries v sorted none in
    let opened = open_entries v events closed (final_start sorted none) in
    let all =
      intervals-supersede_earlier (closed ++ opened)
      ∙ (ap (map interval) (
            filter-append_none is_closed closed opened
              (nothing_closed-open_entries v events closed (final_start sorted none)))
          ∙ intervals-closed_entries v sorted []) in
    (
      all,
      sym (length-map interval (filter is_closed (supersede_earlier (closed ++ opened))))
          ∙ (ap length all
              ∙ (length-intervals sorted [] ∙ length-filter-sort_by event_leb closes events)),
    )

not_current-supersede : (e : Entry) → is_current (supersede e) ≡ false
unfolding is_current
not_current-supersede e = refl

current-closed_status :
    (crs ps : List EndpointKey)
    → (elim (closed_status crs ps).0 [ EpisodeStatus.superseded ↦ false | _ ↦ true ]) ≡ true
unfolding closed_status
current-closed_status [] [] = refl
current-closed_status (a ∷ []) [] = refl
current-closed_status (a ∷ b ∷ crs) [] = refl
current-closed_status [] (p ∷ ps) = refl
current-closed_status (a ∷ crs) (p ∷ ps) = refl

current-closed_episode :
    (v : IssueView) (o : Option ℕ) (t : ℕ) → is_current (closed_episode v o t) ≡ true
unfolding is_current closed_episode
current-closed_episode v o t =
    current-closed_status (eligible v.cr_merged t v.active_crs)
      (eligible v.cr_merged t v.parked_crs)

current-open_episode : (v : IssueView) (o : Option ℕ) → is_current (open_episode v o) ≡ true
unfolding is_current open_episode
current-open_episode v o = ground arith

AllCurrent : List Entry → Type 0
AllCurrent es = All (λ (e : Entry). is_current e ≡ true) es

AllCurrent-closed_entries :
    (v : IssueView) (es : List Event) (start : Option ℕ) → AllCurrent (closed_entries v es start)
unfolding closed_entries AllCurrent
AllCurrent-closed_entries v [] start = tt
AllCurrent-closed_entries v (e ∷ es) start = elim (Bool-cases (is_opened e || is_reopened e)) [
  | inl h ↦ rw h (AllCurrent-closed_entries v es (start_after e start))
  | inr h ↦ rw h (current-closed_episode v start e.0, AllCurrent-closed_entries v es none)
]

AllCurrent-open_entries :
    (v : IssueView) (es : List Event) (closed : List Entry) (start : Option ℕ)
    → AllCurrent (open_entries v es closed start)
unfolding open_entries AllCurrent
AllCurrent-open_entries v es closed none =
    elim (Bool-cases (is_empty es && not (is_empty v.active_crs))) [
      | inl h ↦ rw h (current-open_episode v none, tt)
      | inr h ↦ rw h tt
    ]
AllCurrent-open_entries v es closed (some t) =
    elim (Bool-cases (not (is_empty v.active_crs) || not (is_empty closed))) [
      | inl h ↦ rw h (current-open_episode v (some t), tt)
      | inr h ↦ rw h tt
    ]

-- `episodes[-1]`
unfoldable pub last? : List Entry → Option Entry
last? [] = none
last? (e ∷ []) = some e
last? (e ∷ d ∷ es) = last? (d ∷ es)

-- A list of at most one element.
unfoldable pub at_most_one : Option Entry → List Entry
at_most_one none = []
at_most_one (some e) = e ∷ []

current_supersede_earlier :
    (es : List Entry)
    → AllCurrent es
    → filter is_current (supersede_earlier es) ≡ at_most_one (last? es)
unfolding supersede_earlier filter AllCurrent last? at_most_one
current_supersede_earlier [] h = refl
current_supersede_earlier (e ∷ []) h = ground (arith, h.0)
current_supersede_earlier (e ∷ d ∷ es) h =
    ground (arith, not_current-supersede e, current_supersede_earlier (d ∷ es) h.1)

last_supersede_earlier : (es : List Entry) → last? (supersede_earlier es) ≡ last? es
unfolding supersede_earlier last?
last_supersede_earlier [] = refl
last_supersede_earlier (e ∷ []) = refl
last_supersede_earlier (e ∷ d ∷ []) = refl
last_supersede_earlier (e ∷ d ∷ c ∷ es) = last_supersede_earlier (d ∷ c ∷ es)

-- Of the episodes of an issue, exactly the last one is current: all before it are superseded, and
-- where there is any episode the last one is not.
pub last_episode_is_current :
    (v : IssueView) (events : List Event)
    → filter is_current (project_issue_episodes v events)
      ≡ at_most_one (last? (project_issue_episodes v events))
unfolding project_issue_episodes AllCurrent
last_episode_is_current v events =
    let sorted = sort_by event_leb events in
    let closed = closed_entries v sorted none in
    let opened = open_entries v events closed (final_start sorted none) in
    let current =
      All-append (λ (e : Entry). is_current e ≡ true) closed opened
        (AllCurrent-closed_entries v sorted none)
        (AllCurrent-open_entries v events closed (final_start sorted none)) in
    current_supersede_earlier (closed ++ opened) current
    ∙ ap at_most_one (sym (last_supersede_earlier (closed ++ opened)))
