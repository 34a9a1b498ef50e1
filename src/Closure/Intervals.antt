-- ===== src/Closure/Intervals.antt =====
-- The intervals of the closed episodes of an issue, from its sorted events.
use opencode_gateway.Prelude.{
  ℕ, ◌≡◌, refl, ap, inl, inr, Bool, true, false, ◌||◌, not, Option, none, some, List, [], ◌∷◌,
  arith, nat_eq, filter, length, map, find?, string_eq, string_discrete, ◌==◌, if◌then◌else◌,
  is_some, Bool-cases,
}
use opencode_gateway.Closure.Episodes.{
  EpisodeStatus, Entry, IssueView, Event, is_opened, is_reopened, closed_episode, open_episode,
  start_after, closed_entries, open_entries, supersede, supersede_earlier,
}

unfoldable pub closes : Event → Bool
closes e = not (is_opened e || is_reopened e)

unfoldable pub is_closed : Entry → Bool
is_closed entry = is_some entry.episode.closed_at

unfoldable pub is_current : Entry → Bool
is_current entry = elim entry.episode.status [ EpisodeStatus.superseded ↦ false | _ ↦ true ]

closed-supersede : (e : Entry) → is_closed (supersede e) ≡ is_closed e
unfolding is_closed
closed-supersede e = refl

closed-closed_episode :
    (v : IssueView) (o : Option ℕ) (t : ℕ) → is_closed (closed_episode v o t) ≡ true
unfolding is_closed closed_episode
closed-closed_episode v o t = refl

closed-open_episode : (v : IssueView) (o : Option ℕ) → is_closed (open_episode v o) ≡ false
unfolding is_closed open_episode
closed-open_episode v o = refl

-- The interval of an episode.
unfoldable pub interval : Entry → Option ℕ × Option ℕ
interval entry = (entry.episode.opened_at, entry.episode.closed_at)

abbrev closed_intervals : List Entry → List (Option ℕ × Option ℕ)
closed_intervals es = map interval (filter is_closed es)

-- The time of the first of some events, of which the latest stands first.
unfoldable pub first_time : List Event → Option ℕ
first_time [] = none
first_time (e ∷ []) = some e.0
first_time (e ∷ d ∷ es) = first_time (d ∷ es)

-- When an interval begins, from the events since the close before it, of which the latest stands
-- first: with the last reopening, or else with the first event.
unfoldable pub opening : List Event → Option ℕ
opening run = elim (find? is_reopened run) [ some e ↦ some e.0 | none ↦ first_time run ]

-- The intervals that the closes in the sorted events end, given the events since the last close.
unfoldable pub intervals : List Event → List Event → List (Option ℕ × Option ℕ)
intervals [] run = []
intervals (e ∷ es) run =
    let ended = (opening run, some e.0) ∷ intervals es [] in
    let still_open = intervals es (e ∷ run) in if closes e then ended else still_open

pub length-intervals : (es run : List Event) → length (intervals es run) ≡ length (filter closes es)
unfolding intervals filter
length-intervals [] run = refl
length-intervals (e ∷ es) run =
    ground (arith, length-intervals es [], length-intervals es (e ∷ run))

first_time_found : (e : Event) (es : List Event) → (t : ℕ) × (first_time (e ∷ es) ≡ some t)
unfolding first_time
first_time_found e [] = (e.0, refl)
first_time_found e (d ∷ es) = first_time_found d es

not_both : (e : Event) → is_reopened e ≡ true → is_opened e ≡ false
unfolding is_reopened is_opened string_discrete
not_both e h = elim (Bool-cases (e.1 == "issue.opened")) [
  | inl o ↦
      let a : e.1 ≡ "issue.opened" = ground arith in
      let b : e.1 ≡ "issue.reopened" = ground arith in absurd (cc (a, b))
  | inr o ↦ o
]

opening-start_after :
    (e : Event) (run : List Event)
    → closes e ≡ false
    → opening (e ∷ run) ≡ start_after e (opening run)
unfolding opening start_after find? closes first_time
opening-start_after e [] h = ground (arith, not_both e)
opening-start_after e (d ∷ run) h =
    let (t, found) = first_time_found d run in ground (arith, not_both e, found)

pub intervals-supersede_earlier :
    (es : List Entry) → closed_intervals (supersede_earlier es) ≡ closed_intervals es
unfolding supersede_earlier filter interval
intervals-supersede_earlier [] = refl
intervals-supersede_earlier (e ∷ []) = refl
intervals-supersede_earlier (e ∷ d ∷ es) =
    ground (arith, closed-supersede e, intervals-supersede_earlier (d ∷ es))

pub intervals-closed_entries :
    (v : IssueView) (es run : List Event)
    → closed_intervals (closed_entries v es (opening run)) ≡ intervals es run
unfolding closed_entries filter closes intervals is_closed closed_episode interval opening find?
    first_time
intervals-closed_entries v [] run = refl
intervals-closed_entries v (e ∷ es) run = elim (Bool-cases (is_opened e || is_reopened e)) [
  | inl h ↦
      let opens : closes e ≡ false = ground arith in
      rw (h, ← (opening-start_after e run opens)) (intervals-closed_entries v es (e ∷ run))
  | inr h ↦ rw h (ap (λ is. (opening run, some e.0) ∷ is) (intervals-closed_entries v es []))
]

pub nothing_closed-open_entries :
    (v : IssueView) (es : List Event) (closed : List Entry) (start : Option ℕ)
    → filter is_closed (open_entries v es closed start) ≡ []
unfolding open_entries filter
nothing_closed-open_entries v es closed none = ground (arith, closed-open_episode v none)
nothing_closed-open_entries v es closed (some t) = ground (arith, closed-open_episode v (some t))
