-- ===== src/Closure/Merges.antt =====
-- The merges of a change request, and what `cr_merged` keeps of them.
use opencode_gateway.Prelude.{ℕ, ◌≡◌, Bool, ◌&&◌, ◌||◌, List, [], ◌∷◌, arith, ◌==◌, ltb, any}
use opencode_gateway.Prelude.Dict.{get, has_less, has_less-put_least}
use opencode_gateway.Closure.Snapshot.{EndpointKey, endpoint_eq, Fact, fact_key}
use opencode_gateway.Closure.Episodes.{is_eligible}
use opencode_gateway.Closure.{is_merge, note_merge, note_merges}

-- A fact that is a merge of the change request strictly before a time.
unfoldable pub merged_before : ℕ → EndpointKey → Fact → Bool
merged_before t key f = is_merge f && fact_key f == key && ltb f.occurred_at t

is_eligible-note_merge :
    (key : EndpointKey) (t : ℕ) (f : Fact) (d : List (EndpointKey × ℕ))
    → is_eligible (note_merge f d) t key ≡ (is_eligible d t key || merged_before t key f)
unfolding note_merge is_eligible merged_before
is_eligible-note_merge key t f d =
    ground (arith, has_less-put_least t (fact_key f) key f.occurred_at d)

is_eligible-note_merges :
    (key : EndpointKey) (t : ℕ) (facts : List Fact) (d : List (EndpointKey × ℕ))
    → is_eligible (note_merges facts d) t key
      ≡ (is_eligible d t key || any (merged_before t key) facts)
unfolding note_merges any
is_eligible-note_merges key t [] d = ground arith
is_eligible-note_merges key t (f ∷ facts) d =
    ground (
      arith,
      is_eligible-note_merges key t facts (note_merge f d),
      is_eligible-note_merge key t f d,
    )

-- A change request is eligible at a close exactly when some merge of it, in whatever order the
-- facts arrive and however many merges they hold, is strictly before that close.
pub eligible_when_merged :
    (key : EndpointKey) (t : ℕ) (facts : List Fact)
    → is_eligible (note_merges facts []) t key ≡ any (merged_before t key) facts
unfolding is_eligible get has_less
eligible_when_merged key t facts = ground (arith, is_eligible-note_merges key t facts [])
