-- ===== src/AfkConsumer/Mapping.antt =====
-- What passes the validation of a normalized event can be mapped.
use opencode_gateway.Prelude.{
  ℕ, String, ◌≡◌, ◌≢◌, refl, subst, All, inl, inr, Bool, true, false, Option, none, some, List, [],
  ◌∷◌, arith, string_eq, string_discrete, ◌==◌, contains, is_none, is_some, Bool-cases,
  Option-cases,
}
use opencode_gateway.Prelude.Dict.{get}
use opencode_gateway.Domain.{EntityType}
use opencode_gateway.AfkConsumer.Process.{
  DeadReason, on_mapped, on_checked, on_parsed, on_loaded, dead_reason,
}
use opencode_gateway.AfkConsumer.{
  NormalizedEvent, canonical_actions, action_to_canonical, is_allowed, Violation,
  validate_normalized_event, MappedEvent, mapped_event, mapped_action, mapped_type,
  map_normalized_event,
}

-- What holds of each element holds of one of them.
one_of :
    (P : String → Type 0) (a : String) (xs : List String) → contains a xs ≡ true → All P xs → P a
unfolding contains
one_of P a [] h all = absurd cc
one_of P a (x ∷ xs) h all = elim (Bool-cases (a == x)) [
  | inl e ↦ let same : x ≡ a = ground (arith, e) in subst P same all.0
  | inr e ↦ one_of P a xs (ground (arith, h, e)) all.1
]

-- The action has a canonical one, which is an event type of the entity.
has_canonical : EntityType → String → Bool
has_canonical t action = elim (get action action_to_canonical) [
  | none ↦ false
  | some canonical ↦ contains canonical (canonical_actions t)
]

Canonical : EntityType → String → Type 0
Canonical t action = has_canonical t action ≡ true

abbrev issue_actions : List String
issue_actions = "opened" ∷ "edited" ∷ "updated" ∷ "reopened" ∷ "closed" ∷ []

abbrev pull_actions : List String
pull_actions = "opened" ∷ "edited" ∷ "reopened" ∷ "closed" ∷ "merged" ∷ []

abbrev merge_actions : List String
merge_actions = "opened" ∷ "updated" ∷ "reopened" ∷ "closed" ∷ "merged" ∷ []

allowed_of_issue :
    (action : String) → contains action issue_actions ≡ true → Canonical EntityType.issue action
unfolding Canonical has_canonical get contains string_discrete
allowed_of_issue action h =
    one_of (Canonical EntityType.issue) action issue_actions h
      (refl, (refl, (refl, (refl, (refl, tt)))))

allowed_of_pull :
    (action : String)
    → contains action pull_actions ≡ true
    → Canonical EntityType.change_request action
unfolding Canonical has_canonical get contains string_discrete
allowed_of_pull action h =
    one_of (Canonical EntityType.change_request) action pull_actions h
      (refl, (refl, (refl, (refl, (refl, tt)))))

allowed_of_merge :
    (action : String)
    → contains action merge_actions ≡ true
    → Canonical EntityType.change_request action
unfolding Canonical has_canonical get contains string_discrete
allowed_of_merge action h =
    one_of (Canonical EntityType.change_request) action merge_actions h
      (refl, (refl, (refl, (refl, (refl, tt)))))

in_table :
    (normalize : String → Option String) (m : NormalizedEvent) (t : EntityType) (canonical : String)
    → is_none (normalize m.repository_url) ≡ false
    → contains canonical (canonical_actions t) ≡ true
    → is_some (mapped_action normalize m t (some canonical)) ≡ true
unfolding mapped_action mapped_event
in_table normalize m t canonical h e = elim (Option-cases (normalize m.repository_url)) [
  | inl n ↦ absurd (cc (h, n))
  | inr (r, n) ↦ rw (e, n) refl
]

mapped_action_found :
    (normalize : String → Option String) (m : NormalizedEvent) (t : EntityType)
    → is_none (normalize m.repository_url) ≡ false
    → Canonical t m.action
    → is_some (mapped_action normalize m t (get m.action action_to_canonical)) ≡ true
unfolding Canonical has_canonical
mapped_action_found normalize m t h c = go (get m.action action_to_canonical) c
  where
    go :
        (o : Option String)
        → (elim o [ none ↦ false | some canonical ↦ contains canonical (canonical_actions t) ])
          ≡ true
        → is_some (mapped_action normalize m t o) ≡ true
    go none e = absurd cc
    go (some canonical) e = in_table normalize m t canonical h e

maps_when :
    (normalize : String → Option String) (m : NormalizedEvent)
    → is_none (normalize m.repository_url) ≡ false
    → is_allowed m.resource_type m.action ≡ true
    → is_some (map_normalized_event normalize m) ≡ true
unfolding map_normalized_event mapped_type is_allowed get
maps_when normalize m h a =
    let found = mapped_action_found normalize m in
    let issue = λ (e : contains m.action issue_actions ≡ true).
      found EntityType.issue h (allowed_of_issue m.action e) in
    let pull = λ (e : contains m.action pull_actions ≡ true).
      found EntityType.change_request h (allowed_of_pull m.action e) in
    let merge = λ (e : contains m.action merge_actions ≡ true).
      found EntityType.change_request h (allowed_of_merge m.action e) in
    ground (arith, issue, pull, merge)

-- A message that passes the validation is never unmappable: its resource type and its action have
-- an entity type and a canonical event type, and its repository an identity.
pub valid_events_map :
    (normalize : String → Option String) (m : NormalizedEvent)
    → validate_normalized_event normalize m ≡ none
    → is_some (map_normalized_event normalize m) ≡ true
unfolding validate_normalized_event
valid_events_map normalize m h = maps_when normalize m (ground (arith, h)) (ground (arith, h))

kept_or_failed :
    (persist : ℕ → Bool) (max_retries : ℕ) (o : Option MappedEvent)
    → is_some o ≡ true
    → on_mapped persist max_retries o ≢ some DeadReason.unmappable
unfolding on_mapped
kept_or_failed persist max_retries none h e = absurd cc
kept_or_failed persist max_retries (some x) h e = ground (arith, e)

after_validation :
    (normalize : String → Option String) (persist : ℕ → Bool) (max_retries : ℕ)
    (m : NormalizedEvent) (v : Option Violation)
    → validate_normalized_event normalize m ≡ v
    → on_checked normalize persist max_retries m v ≢ some DeadReason.unmappable
unfolding on_checked
after_validation normalize persist max_retries m none h e =
    kept_or_failed persist max_retries (map_normalized_event normalize m)
      (valid_events_map normalize m h) e
after_validation normalize persist max_retries m (some v) h e = absurd cc

after_parse :
    (normalize : String → Option String) (persist : ℕ → Bool) (max_retries : ℕ)
    (o : Option NormalizedEvent)
    → on_parsed normalize persist max_retries o ≢ some DeadReason.unmappable
unfolding on_parsed
after_parse normalize persist max_retries none e = absurd cc
after_parse normalize persist max_retries (some m) e =
    after_validation normalize persist max_retries m (validate_normalized_event normalize m) refl e

-- No message goes to the DLQ as unmappable, whatever its text is and whatever the database does:
-- one that cannot be mapped violates the validation before.
pub never_unmappable :
    (parse_message : String → Option (Option NormalizedEvent)) (normalize : String → Option String)
    (persist : ℕ → Bool) (max_retries : ℕ) (text : String)
    → dead_reason parse_message normalize persist max_retries text ≢ some DeadReason.unmappable
unfolding dead_reason on_loaded
never_unmappable parse_message normalize persist max_retries text = go (parse_message text)
  where
    go :
        (o : Option (Option NormalizedEvent))
        → on_loaded normalize persist max_retries o ≢ some DeadReason.unmappable
    go none e = absurd cc
    go (some parsed) e = after_parse normalize persist max_retries parsed e
