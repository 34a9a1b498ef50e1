-- ===== src/Closure/Candidates.antt =====
-- The change requests that an episode may be attributed to.
use opencode_gateway.Prelude.{
  ℕ, ◌≡◌, refl, sym, ap, ◌∙◌, Bool, true, ◌&&◌, Option, some, List, [], ◌∷◌, ◌++◌, arith, ◌==◌,
  nat_eq, option_eq, ℕ_discrete, dedupe, contains-filter, contains-any, filter, contains, length,
  is_some, is_none,
}
use opencode_gateway.Associations.Sort.{sort_by, length-sort_by, any-sort_by}
use opencode_gateway.Closure.Snapshot.{EndpointKey, endpoint_eq, state_eq}
use opencode_gateway.Closure.Episodes.{
  IssueView, key_leb, eligible, is_eligible, closed_status, unresolved_of, closed_episode,
}

abbrev pub one_candidate : ℕ → ℕ → Bool
one_candidate active parked = active == 1 && parked == 0

closed_status_attributes :
    (active parked : List EndpointKey)
    → is_some (closed_status active parked).1 ≡ one_candidate (length active) (length parked)
unfolding closed_status ℕ_discrete
closed_status_attributes [] [] = refl
closed_status_attributes (a ∷ []) [] = refl
closed_status_attributes (a ∷ b ∷ rest) [] = ground arith
closed_status_attributes [] (p ∷ ps) = ground arith
closed_status_attributes (a ∷ rest) (p ∷ ps) = ground arith

record_unless_attributed :
    (v : IssueView) (t : ℕ) (active parked candidates : List EndpointKey)
    → is_none (unresolved_of v t (closed_status active parked).0 candidates)
      ≡ is_some (closed_status active parked).1
unfolding closed_status unresolved_of
record_unless_attributed v t [] [] cs = refl
record_unless_attributed v t (a ∷ []) [] cs = refl
record_unless_attributed v t (a ∷ b ∷ rest) [] cs = refl
record_unless_attributed v t [] (p ∷ ps) cs = refl
record_unless_attributed v t (a ∷ rest) (p ∷ ps) cs = refl

length-eligible :
    (merged : List (EndpointKey × ℕ)) (t : ℕ) (crs : List EndpointKey)
    → length (eligible merged t crs) ≡ length (filter (is_eligible merged t) crs)
unfolding eligible
length-eligible merged t crs = length-sort_by key_leb (filter (is_eligible merged t) crs)

-- A closed episode is attributed to a change request exactly when one active declaration was merged
-- before the close and no parked one was; and it has an unresolved record exactly when it is not.
pub attributed_or_unresolved :
    (v : IssueView) (opened_at : Option ℕ) (closed_at : ℕ)
    → (is_some (closed_episode v opened_at closed_at).episode.change_request
        ≡ one_candidate
            (length (filter (is_eligible v.cr_merged closed_at) v.active_crs))
            (length (filter (is_eligible v.cr_merged closed_at) v.parked_crs)))
      × (is_none (closed_episode v opened_at closed_at).unresolved
          ≡ is_some (closed_episode v opened_at closed_at).episode.change_request)
unfolding closed_episode
attributed_or_unresolved v opened_at closed_at =
    let active = eligible v.cr_merged closed_at v.active_crs in
    let parked = eligible v.cr_merged closed_at v.parked_crs in
    (
      closed_status_attributes active parked
          ∙ (ap (λ (n : ℕ). one_candidate n (length parked))
                (length-eligible v.cr_merged closed_at v.active_crs)
              ∙ ap
                  (one_candidate (length (filter (is_eligible v.cr_merged closed_at) v.active_crs)))
                  (length-eligible v.cr_merged closed_at v.parked_crs)),
      record_unless_attributed v closed_at active parked
          (sort_by key_leb (dedupe (active ++ parked))),
    )

pub contains-sort_by :
    (a : EndpointKey) (xs : List EndpointKey) → contains a (sort_by key_leb xs) ≡ contains a xs
contains-sort_by a xs =
    contains-any a (sort_by key_leb xs)
    ∙ (any-sort_by key_leb (λ (x : EndpointKey). a == x) xs ∙ sym (contains-any a xs))

pub contains-eligible :
    (merged : List (EndpointKey × ℕ)) (t : ℕ) (crs : List EndpointKey) (cr : EndpointKey)
    → contains cr (eligible merged t crs) ≡ (contains cr crs && is_eligible merged t cr)
unfolding eligible
contains-eligible merged t crs cr =
    contains-sort_by cr (filter (is_eligible merged t) crs)
    ∙ contains-filter (is_eligible merged t) cr crs

pub attributed_is_candidate :
    (active parked : List EndpointKey) (cr : EndpointKey)
    → (closed_status active parked).1 ≡ some cr
    → contains cr active ≡ true
unfolding closed_status contains
attributed_is_candidate [] [] cr h = cc
attributed_is_candidate (a ∷ []) [] cr h = ground arith
attributed_is_candidate (a ∷ b ∷ rest) [] cr h = cc
attributed_is_candidate [] (p ∷ ps) cr h = cc
attributed_is_candidate (a ∷ rest) (p ∷ ps) cr h = cc
