-- ===== src/RunStatus/Precedence.antt =====
-- The status is a function of the set of outcomes, and the outcome of the highest precedence.
use opencode_gateway.Prelude.{
  inl, inr, string_discrete, Bool, true, false, ◌||◌, not, String, List, [], ◌∷◌, ◌≡◌, refl, map,
  arith, string_eq, ◌==◌, if◌then◌else◌, contains, any, Bool-cases, ◌∙◌, sym, ap,
}
use opencode_gateway.Domain.{ExecutionOutcome, outcome_value}
use opencode_gateway.Result.{Result, ok, raise, value_error}
use opencode_gateway.RunStatus.{
  Outcome, Item, coerce_outcome_value, is_valid_outcome, add_value, normalize, precedence,
  status_of, resolve_afk_run_status,
}

contains-add_value :
    (a s : String) (seen : List String)
    → contains a (add_value s seen) ≡ (a == s || contains a seen)
unfolding add_value contains
contains-add_value a s seen = ground arith

abbrev texts : List Item → List String
texts xs = map coerce_outcome_value xs

unfoldable bad : List Item → Bool
bad xs = any (λ s. not (is_valid_outcome s)) (texts xs)

-- What the loop has gathered matters only through its members.
precedence-ext :
    (xs ys : List String)
    → ((s : String) → contains s xs ≡ contains s ys)
    → precedence xs ≡ precedence ys
unfolding precedence
precedence-ext xs ys same = rw (same "running", same "completed", same "failed") refl

or_nil :
    (s : String) (seen : List String) → (contains s seen || contains s (texts [])) ≡ contains s seen
unfolding contains
or_nil s seen = ground arith

nil_or :
    (s : String) (xs : List Item) → contains s (texts xs) ≡ (contains s [] || contains s (texts xs))
unfolding contains
nil_or s xs = ground arith

or_cons :
    (s : String) (x : Item) (xs : List Item) (seen : List String)
    → (contains s seen || contains s (texts (x ∷ xs)))
      ≡ (contains s (add_value (coerce_outcome_value x) seen) || contains s (texts xs))
unfolding contains
or_cons s x xs seen = ground (arith, contains-add_value s (coerce_outcome_value x) seen)

normalize_lem :
    (xs : List Item) (seen all : List String)
    → ((s : String) → contains s all ≡ (contains s seen || contains s (texts xs)))
    → status_of (normalize xs seen) ≡ (if bad xs then raise value_error else ok (precedence all))
unfolding normalize any status_of bad
normalize_lem [] seen all same = ap ok (precedence-ext seen all (λ s. sym (same s ∙ or_nil s seen)))
normalize_lem (x ∷ xs) seen all same =
    let rest =
      normalize_lem xs (add_value (coerce_outcome_value x) seen) all
        (λ s. same s ∙ or_cons s x xs seen) in
    ground arith

abbrev or_pending : List Item → Result String → Result String
or_pending [] r = ok "pending"
or_pending (x ∷ xs) r = r

resolve_cases :
    (xs : List Item)
    → resolve_afk_run_status xs
      ≡ or_pending xs (if bad xs then raise value_error else ok (precedence (texts xs)))
unfolding resolve_afk_run_status
resolve_cases [] = refl
resolve_cases (x ∷ xs) = normalize_lem (x ∷ xs) [] (texts (x ∷ xs)) (λ s. nil_or s (x ∷ xs))

witness_of_any :
    (p : String → Bool) (xs : List String)
    → any p xs ≡ true
    → (s : String) × (contains s xs ≡ true) × (p s ≡ true)
unfolding any contains
witness_of_any p [] h = cc
witness_of_any p (x ∷ xs) h = elim (Bool-cases (p x)) [
  | inl yes_here ↦ (x, ground arith, yes_here)
  | inr elsewhere ↦
      let (s, inside, holds) = witness_of_any p xs (ground arith) in (s, ground arith, holds)
]

any_of_witness :
    (p : String → Bool) (s : String) (xs : List String)
    → contains s xs ≡ true
    → p s ≡ true
    → any p xs ≡ true
unfolding any contains
any_of_witness p s [] h k = cc
any_of_witness p s (x ∷ xs) h k = elim (string_discrete s x) [
  | yes same ↦ rw (← same, k) refl
  | no other ↦ ground (arith, any_of_witness p s xs)
]

any-ext :
    (p : String → Bool) (xs ys : List String)
    → ((s : String) → contains s xs ≡ contains s ys)
    → any p xs ≡ any p ys
any-ext p xs ys same = elim (Bool-cases (any p xs)) [
  | inl here ↦
      let (s, inside, holds) = witness_of_any p xs here in
      here ∙ sym (any_of_witness p s ys (sym (same s) ∙ inside) holds)
  | inr nowhere ↦ elim (Bool-cases (any p ys)) [
    | inl there ↦
        let (s, inside, holds) = witness_of_any p ys there in
        any_of_witness p s xs (same s ∙ inside) holds ∙ sym there
    | inr neither ↦ nowhere ∙ sym neither
  ]
]

or_pending-ext :
    (xs ys : List Item) (r : Result String)
    → ((s : String) → contains s (texts xs) ≡ contains s (texts ys))
    → or_pending xs r ≡ or_pending ys r
unfolding contains
or_pending-ext [] [] r same = refl
or_pending-ext [] (y ∷ ys) r same = let h = same (coerce_outcome_value y) in ground arith
or_pending-ext (x ∷ xs) [] r same = let h = same (coerce_outcome_value x) in ground arith
or_pending-ext (x ∷ xs) (y ∷ ys) r same = refl

-- Two lists of items whose coerced values form the same set get the same status, or both raise:
-- the order and the repetitions do not matter.
pub same_set_same_status :
    (xs ys : List Item)
    → ((s : String)
        → contains s (map coerce_outcome_value xs) ≡ contains s (map coerce_outcome_value ys))
    → resolve_afk_run_status xs ≡ resolve_afk_run_status ys
unfolding bad
same_set_same_status xs ys same =
    rw
      (
        resolve_cases xs,
        resolve_cases ys,
        precedence-ext (texts xs) (texts ys) same,
        any-ext (λ s. not (is_valid_outcome s)) (texts xs) (texts ys) same,
      )
      (or_pending-ext xs ys _ same)

-- The outcome that prevails: running before completed before failed before cancelled.
abbrev pub prevails : ExecutionOutcome → ExecutionOutcome → ExecutionOutcome
prevails ExecutionOutcome.running o = ExecutionOutcome.running
prevails o ExecutionOutcome.running = ExecutionOutcome.running
prevails ExecutionOutcome.completed o = ExecutionOutcome.completed
prevails o ExecutionOutcome.completed = ExecutionOutcome.completed
prevails ExecutionOutcome.failed o = ExecutionOutcome.failed
prevails o ExecutionOutcome.failed = ExecutionOutcome.failed
prevails ExecutionOutcome.cancelled ExecutionOutcome.cancelled = ExecutionOutcome.cancelled

abbrev pub prevailing : ExecutionOutcome → List ExecutionOutcome → ExecutionOutcome
prevailing o [] = o
prevailing o (p ∷ ps) = prevailing (prevails o p) ps

abbrev values : List ExecutionOutcome → List String
values os = map outcome_value os

contains_two :
    (o p : ExecutionOutcome) (ss : List String)
    → precedence (outcome_value o ∷ outcome_value p ∷ ss)
      ≡ precedence (outcome_value (prevails o p) ∷ ss)
unfolding precedence contains outcome_value string_discrete
contains_two ExecutionOutcome.running ExecutionOutcome.running ss = refl
contains_two ExecutionOutcome.running ExecutionOutcome.completed ss = refl
contains_two ExecutionOutcome.running ExecutionOutcome.failed ss = refl
contains_two ExecutionOutcome.running ExecutionOutcome.cancelled ss = refl
contains_two ExecutionOutcome.completed ExecutionOutcome.running ss = refl
contains_two ExecutionOutcome.completed ExecutionOutcome.completed ss = refl
contains_two ExecutionOutcome.completed ExecutionOutcome.failed ss = refl
contains_two ExecutionOutcome.completed ExecutionOutcome.cancelled ss = refl
contains_two ExecutionOutcome.failed ExecutionOutcome.running ss = refl
contains_two ExecutionOutcome.failed ExecutionOutcome.completed ss = refl
contains_two ExecutionOutcome.failed ExecutionOutcome.failed ss = refl
contains_two ExecutionOutcome.failed ExecutionOutcome.cancelled ss = refl
contains_two ExecutionOutcome.cancelled ExecutionOutcome.running ss = refl
contains_two ExecutionOutcome.cancelled ExecutionOutcome.completed ss = refl
contains_two ExecutionOutcome.cancelled ExecutionOutcome.failed ss = refl
contains_two ExecutionOutcome.cancelled ExecutionOutcome.cancelled ss = refl

precedence-prevailing :
    (o : ExecutionOutcome) (ps : List ExecutionOutcome)
    → precedence (values (o ∷ ps)) ≡ outcome_value (prevailing o ps)
unfolding precedence contains outcome_value string_discrete
precedence-prevailing ExecutionOutcome.running [] = refl
precedence-prevailing ExecutionOutcome.completed [] = refl
precedence-prevailing ExecutionOutcome.failed [] = refl
precedence-prevailing ExecutionOutcome.cancelled [] = refl
precedence-prevailing o (p ∷ ps) =
    contains_two o p (values ps) ∙ precedence-prevailing (prevails o p) ps

outcome_is_valid : (o : ExecutionOutcome) → is_valid_outcome (outcome_value o) ≡ true
unfolding is_valid_outcome outcome_value string_discrete
outcome_is_valid ExecutionOutcome.running = refl
outcome_is_valid ExecutionOutcome.completed = refl
outcome_is_valid ExecutionOutcome.failed = refl
outcome_is_valid ExecutionOutcome.cancelled = refl

-- Items that each carry a member of the enumeration, as execution bindings do.
abbrev pub carried : List ExecutionOutcome → List Item
carried os = map (λ o. Item.carrying (Outcome.member o)) os

carried_value :
    (o : ExecutionOutcome)
    → coerce_outcome_value (Item.carrying (Outcome.member o)) ≡ outcome_value o
unfolding coerce_outcome_value outcome_value
carried_value o = refl

none_bad : (os : List ExecutionOutcome) → bad (carried os) ≡ false
unfolding bad any
none_bad [] = refl
none_bad (o ∷ os) = rw (carried_value o, outcome_is_valid o) (none_bad os)

texts-carried : (os : List ExecutionOutcome) → texts (carried os) ≡ values os
texts-carried [] = refl
texts-carried (o ∷ os) = rw (carried_value o, texts-carried os) refl

-- The status of a run with at least one binding is the value of the outcome that prevails among
-- those of its bindings: running before completed before failed before cancelled.
pub status_is_prevailing :
    (o : ExecutionOutcome) (os : List ExecutionOutcome)
    → resolve_afk_run_status (carried (o ∷ os)) ≡ ok (outcome_value (prevailing o os))
status_is_prevailing o os =
    rw
      (
        resolve_cases (carried (o ∷ os)),
        none_bad (o ∷ os),
        texts-carried (o ∷ os),
        precedence-prevailing o os,
      )
      refl
