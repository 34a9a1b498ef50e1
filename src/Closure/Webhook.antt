-- ===== src/Closure/Webhook.antt =====
-- The snapshots of one time: the view that is settled on never contradicts a webhook.
use opencode_gateway.Prelude.{
  ◌≡◌, ◌≢◌, subst, refl, inl, inr, true, false, not, List, [], ◌∷◌, ◌++◌, arith, any, contains, All,
  Bool-cases,
}
use opencode_gateway.Closure.Snapshot.{
  LinkKey, link_key_eq, Fact, Resolution, from_webhook, keys_where, is_subset, same_set,
  distinct_from, resolve_sets, resolve_timestamp_group,
}

subset_weaken :
    (s t : List LinkKey) (k : LinkKey) → is_subset s t ≡ true → is_subset s (k ∷ t) ≡ true
unfolding is_subset contains
subset_weaken [] t k h = refl
subset_weaken (j ∷ s) t k h = ground (arith, subset_weaken s t k)

subset_refl : (s : List LinkKey) → is_subset s s ≡ true
unfolding is_subset contains
subset_refl [] = refl
subset_refl (k ∷ s) = ground (arith, subset_weaken s s k (subset_refl s))

same_refl : (s : List LinkKey) → same_set s s ≡ true
unfolding same_set
same_refl s = ground (arith, subset_refl s)

AllSame : List LinkKey → List (List LinkKey) → Type 0
AllSame s ws = All (λ (w : List LinkKey). same_set w s ≡ true) ws

-- Where no further set is distinct from `s`, every set is the same as `s`.
AllSame-distinct_from :
    (s : List LinkKey) (ws : List (List LinkKey)) → distinct_from (s ∷ []) ws ≡ [] → AllSame s ws
unfolding distinct_from any AllSame
AllSame-distinct_from s [] h = tt
AllSame-distinct_from s (w ∷ ws) h = elim (Bool-cases (same_set w s)) [
  | inl e ↦ (e, AllSame-distinct_from s ws (ground arith))
  | inr e ↦ absurd (ground arith)
]

second_differs :
    (a b : List LinkKey) (rest ws : List (List LinkKey))
    → distinct_from (a ∷ []) ws ≡ b ∷ rest
    → same_set b a ≡ false
unfolding distinct_from any
second_differs a b rest [] h = cc
second_differs a b rest (w ∷ ws) h = ground (arith, second_differs a b rest ws)

-- The three shapes of a set of frozensets: empty, all the same, or with two that differ.
AllSame-distinct :
    (s : List LinkKey) (ws : List (List LinkKey)) → distinct_from [] ws ≡ s ∷ [] → AllSame s ws
unfolding distinct_from any AllSame
AllSame-distinct s [] h = tt
AllSame-distinct s (w ∷ ws) h =
    let head : w ≡ s = cc in
    let tail : distinct_from (w ∷ []) ws ≡ [] = cc in
    subst (λ z. AllSame z (w ∷ ws)) head (same_refl w, AllSame-distinct_from w ws tail)

AllSame-none :
    (s : List LinkKey) (ws : List (List LinkKey)) → distinct_from [] ws ≡ [] → AllSame s ws
unfolding distinct_from any AllSame
AllSame-none s [] h = tt
AllSame-none s (w ∷ ws) h = absurd cc

first_two_differ :
    (a b : List LinkKey) (rest ws : List (List LinkKey))
    → distinct_from [] ws ≡ a ∷ b ∷ rest
    → same_set b a ≡ false
unfolding distinct_from any
first_two_differ a b rest [] h = absurd cc
first_two_differ a b rest (w ∷ ws) h =
    let head : w ≡ a = cc in
    let tail : distinct_from (w ∷ []) ws ≡ b ∷ rest = cc in
    subst (λ z. same_set b z ≡ false) head (second_differs w b rest ws tail)

settled_by_one :
    (a : List LinkKey) (bs : List (List LinkKey)) (s : List LinkKey)
    → resolve_sets (a ∷ []) (a ∷ bs) ≡ Resolution.ok s
    → a ≡ s
unfolding resolve_sets
settled_by_one a [] s h = cc
settled_by_one a (b ∷ bs) s h = cc

not_settled_by_two :
    (a b : List LinkKey) (rest bs : List (List LinkKey)) (s : List LinkKey)
    → same_set b a ≡ false
    → resolve_sets (a ∷ b ∷ rest) (distinct_from [] (a ∷ b ∷ bs)) ≢ Resolution.ok s
unfolding resolve_sets distinct_from any
not_settled_by_two a b rest bs s h e = ground arith

AllSame-settled :
    (s : List LinkKey) (ws bs ds : List (List LinkKey))
    → distinct_from [] ws ≡ ds
    → resolve_sets ds (distinct_from [] (ds ++ bs)) ≡ Resolution.ok s
    → AllSame s ws
unfolding distinct_from any
AllSame-settled s ws bs [] is h = AllSame-none s ws is
AllSame-settled s ws bs (a ∷ []) is h =
    subst (λ z. AllSame z ws) (settled_by_one a (distinct_from (a ∷ []) bs) s h)
      (AllSame-distinct a ws is)
AllSame-settled s ws bs (a ∷ b ∷ rest) is h =
    absurd (not_settled_by_two a b rest (rest ++ bs) s (first_two_differ a b rest ws is) h)

-- Where the snapshots of one time are settled to one view, every snapshot that a webhook observed at
-- that time has the same links as the view: a backfill is never preferred to a webhook.
pub settled_view_agrees_with_webhooks :
    (facts : List Fact) (view : List LinkKey)
    → resolve_timestamp_group facts ≡ Resolution.ok view
    → All (λ (w : List LinkKey). same_set w view ≡ true) (keys_where from_webhook facts)
unfolding resolve_timestamp_group AllSame
settled_view_agrees_with_webhooks facts view h =
    let ws = keys_where from_webhook facts in
    let bs = keys_where (λ (f : Fact). not (from_webhook f)) facts in
    AllSame-settled view ws (distinct_from [] bs) (distinct_from [] ws) refl h
