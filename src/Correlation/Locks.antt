-- ===== src/Correlation/Locks.antt =====
-- The locks of the engine: each entity is decided once, by the first rule that proposes it.
use opencode_gateway.Prelude.{
  ℕ, ◌+◌, ◌≤◌, String, ◌≡◌, refl, subst, sym, inl, inr, Bool, true, false, ◌||◌, some, List, [],
  ◌∷◌, ◌++◌, arith, string_eq, ◌==◌, any, find?, filter, length, length-filter-append,
  length-filter_none, find-append_found, All, All-imp, Bool-cases,
}
use opencode_gateway.Correlation.{Proposal, Ambiguity, RuleResult, Correlation}
use opencode_gateway.Correlation.Engine.{
  Locks, Resolver, binds, concerns, is_decided, note_ambiguity, correlation_of, lock, note_all,
  lock_all, apply_result, apply_results, no_locks,
}

any-append {ℓ} :
    {A : Type ℓ} (p : A → Bool) (xs ys : List A) → any p (xs ++ ys) ≡ (any p xs || any p ys)
unfolding any
any-append p [] ys = refl
any-append p (x ∷ xs) ys = ground (arith, any-append p xs ys)

-- How often an entity is decided.
decisions : String → Locks → ℕ
decisions k s =
    length (filter (binds k) s.correlations) + length (filter (concerns k) s.ambiguities)

decisions_none : (k : String) (s : Locks) → is_decided k s ≡ false → decisions k s ≡ 0
unfolding is_decided decisions
decisions_none k s h = ground (
  arith,
  length-filter_none (binds k) s.correlations,
  length-filter_none (concerns k) s.ambiguities,
)

-- An entity that is not decided has no decision, whichever entry names it.
undecided : (k j : String) (s : Locks) → j == k ≡ true → is_decided j s ≡ false → decisions k s ≡ 0
undecided k j s same h =
    let equal : j ≡ k = ground arith in subst (λ i. decisions i s ≡ 0) equal (decisions_none j s h)

decisions-note_ambiguity :
    (k : String) (a : Ambiguity) (s : Locks)
    → decisions k s ≤ 1
    → decisions k (note_ambiguity a s) ≤ 1
unfolding note_ambiguity decisions filter concerns
decisions-note_ambiguity k a s h = elim (Bool-cases (is_decided a.entity_id s)) [
  | inl e ↦ rw e h
  | inr e ↦ rw e (
      ground (
        arith,
        h,
        e,
        length-filter-append (concerns k) s.ambiguities (a ∷ []),
        undecided k a.entity_id s,
      ))
]

decisions-lock :
    (r : Resolver) (k : String) (p : Proposal) (s : Locks)
    → decisions k s ≤ 1
    → decisions k (lock r p s) ≤ 1
unfolding lock decisions filter binds
decisions-lock r k p s h = elim (Bool-cases (is_decided p.entity_id s)) [
  | inl e ↦ rw e h
  | inr e ↦ rw e (
      ground (
        arith,
        h,
        e,
        length-filter-append (binds k) s.correlations (correlation_of r s.drawn p ∷ []),
        undecided k p.entity_id s,
      ))
]

-- What each ambiguity and each proposal keeps, the engine keeps.
locks_keep :
    (Inv : Locks → Type 0) (r : Resolver)
    → ((a : Ambiguity) (s : Locks) → Inv s → Inv (note_ambiguity a s))
    → ((p : Proposal) (s : Locks) → Inv s → Inv (lock r p s))
    → (results : List RuleResult) (s : Locks) → Inv s
    → Inv (apply_results r results s)
unfolding apply_results apply_result note_all lock_all
locks_keep Inv r note bind results s h = go results s h
  where
    notes : (ambiguities : List Ambiguity) (s : Locks) → Inv s → Inv (note_all ambiguities s)
    notes [] s h = h
    notes (a ∷ ambiguities) s h = notes ambiguities (note_ambiguity a s) (note a s h)

    binds_all : (proposals : List Proposal) (s : Locks) → Inv s → Inv (lock_all r proposals s)
    binds_all [] s h = h
    binds_all (p ∷ proposals) s h = binds_all proposals (lock r p s) (bind p s h)

    go : (results : List RuleResult) (s : Locks) → Inv s → Inv (apply_results r results s)
    go [] s h = h
    go (result ∷ results) s h =
        go results (apply_result r result s) (
          binds_all result.proposals (note_all result.ambiguities s) (notes result.ambiguities s h))

-- Whatever the rules propose, an entity gets at most one correlation or ambiguity in all: a rule
-- never overrides an earlier one, and no entity is both bound and ambiguous.
pub decided_at_most_once :
    (r : Resolver) (results : List RuleResult) (entity_id : String)
    → length (filter (binds entity_id) (apply_results r results no_locks).correlations)
        + length (filter (concerns entity_id) (apply_results r results no_locks).ambiguities)
      ≤ 1
unfolding decisions filter
decided_at_most_once r results entity_id =
    locks_keep (λ (s : Locks). decisions entity_id s ≤ 1) r (decisions-note_ambiguity entity_id)
      (decisions-lock r entity_id) results no_locks (omega arith)

-- The correlation of an entity, once it is there, stays through all further rules.
stays-lock :
    (r : Resolver) (k : String) (c : Correlation) (p : Proposal) (s : Locks)
    → find? (binds k) s.correlations ≡ some c
    → find? (binds k) (lock r p s).correlations ≡ some c
unfolding lock
stays-lock r k c p s h = elim (Bool-cases (is_decided p.entity_id s)) [
  | inl e ↦ rw e h
  | inr e ↦ rw e (find-append_found (binds k) s.correlations (correlation_of r s.drawn p ∷ []) c h)
]

stays-note_ambiguity :
    (k : String) (c : Correlation) (a : Ambiguity) (s : Locks)
    → find? (binds k) s.correlations ≡ some c
    → find? (binds k) (note_ambiguity a s).correlations ≡ some c
unfolding note_ambiguity
stays-note_ambiguity k c a s h = elim (Bool-cases (is_decided a.entity_id s)) [
  | inl e ↦ rw e h
  | inr e ↦ rw e h
]

apply_results-append :
    (r : Resolver) (xs ys : List RuleResult) (s : Locks)
    → apply_results r (xs ++ ys) s ≡ apply_results r ys (apply_results r xs s)
unfolding apply_results
apply_results-append r [] ys s = refl
apply_results-append r (x ∷ xs) ys s = apply_results-append r xs ys (apply_result r x s)

-- The correlation that the first rules give an entity is the one that all rules give it, whatever
-- the later rules propose and however confident they are.
pub first_lock_wins :
    (r : Resolver) (first later : List RuleResult) (entity_id : String) (c : Correlation)
    → find? (binds entity_id) (apply_results r first no_locks).correlations ≡ some c
    → find? (binds entity_id) (apply_results r (first ++ later) no_locks).correlations ≡ some c
first_lock_wins r first later entity_id c h =
    let kept =
      locks_keep (λ (s : Locks). find? (binds entity_id) s.correlations ≡ some c) r
        (stays-note_ambiguity entity_id c) (stays-lock r entity_id c) later
        (apply_results r first no_locks) h in
    subst (λ (s : Locks). find? (binds entity_id) s.correlations ≡ some c)
      (sym (apply_results-append r first later no_locks)) kept

decided-lock :
    (r : Resolver) (k : String) (p : Proposal) (s : Locks)
    → is_decided k s ≡ true
    → is_decided k (lock r p s) ≡ true
unfolding lock is_decided
decided-lock r k p s h =
    ground (arith, h, any-append (binds k) s.correlations (correlation_of r s.drawn p ∷ []))

decided-note_ambiguity :
    (k : String) (a : Ambiguity) (s : Locks)
    → is_decided k s ≡ true
    → is_decided k (note_ambiguity a s) ≡ true
unfolding note_ambiguity is_decided
decided-note_ambiguity k a s h = ground (arith, h, any-append (concerns k) s.ambiguities (a ∷ []))

lock_decides :
    (r : Resolver) (p : Proposal) (s : Locks) → is_decided p.entity_id (lock r p s) ≡ true
unfolding lock is_decided any binds
lock_decides r p s =
    ground (arith, any-append (binds p.entity_id) s.correlations (correlation_of r s.drawn p ∷ []))

decided-lock_all :
    (r : Resolver) (k : String) (proposals : List Proposal) (s : Locks)
    → is_decided k s ≡ true
    → is_decided k (lock_all r proposals s) ≡ true
unfolding lock_all
decided-lock_all r k [] s h = h
decided-lock_all r k (p ∷ proposals) s h =
    decided-lock_all r k proposals (lock r p s) (decided-lock r k p s h)

lock_all_decides :
    (r : Resolver) (proposals : List Proposal) (s : Locks)
    → All (λ (p : Proposal). is_decided p.entity_id (lock_all r proposals s) ≡ true) proposals
unfolding lock_all
lock_all_decides r [] s = tt
lock_all_decides r (p ∷ proposals) s = (
  decided-lock_all r p.entity_id proposals (lock r p s) (lock_decides r p s),
  lock_all_decides r proposals (lock r p s),
)

-- No proposal of a rule is lost: its entity is bound or ambiguous once all rules have been applied,
-- whatever the rules before and after it propose.
pub proposals_are_decided :
    (r : Resolver) (before : List RuleResult) (result : RuleResult) (later : List RuleResult)
    → All
        (λ (p : Proposal).
          is_decided p.entity_id (apply_results r (before ++ result ∷ later) no_locks) ≡ true)
        result.proposals
unfolding apply_results apply_result
proposals_are_decided r before result later =
    let s = note_all result.ambiguities (apply_results r before no_locks) in
    All-imp (λ (p : Proposal). is_decided p.entity_id (lock_all r result.proposals s) ≡ true)
      (λ (p : Proposal).
        is_decided p.entity_id (apply_results r (before ++ result ∷ later) no_locks) ≡ true)
      (λ p h.
        subst (λ (t : Locks). is_decided p.entity_id t ≡ true)
          (sym (apply_results-append r before (result ∷ later) no_locks))
          (locks_keep (λ (t : Locks). is_decided p.entity_id t ≡ true) r
            (decided-note_ambiguity p.entity_id) (λ q. decided-lock r p.entity_id q) later
            (lock_all r result.proposals s) h))
      result.proposals (lock_all_decides r result.proposals s)
