-- ===== src/ReplayMerge/Replay.antt =====
-- A replay of the same values changes nothing more, and no replay erases a value.
use opencode_gateway.Prelude.{
  ◌≡◌, refl, sym, subst, true, false, String, none, some, List, [], ◌∷◌, arith, nat_eq, string_eq,
  any, find?, Bool-cases, Option-cases, ◌⊎◌, inl, inr, ℕ_discrete,
}
use opencode_gateway.Prelude.Int.{pos, int_eq, ℤ_discrete, sub_self, eq_of_sub}
use opencode_gateway.MergePolicy.{
  Field, IngestOutcome, Values, DeltaResult, or_zero, effective, delta_of, compute_delta,
}
use opencode_gateway.ReplayMerge.{
  UsageEvent, Usage, find_event, is_changed, written, write_event, merge_event, apply_replay_merge,
}

find_written :
    (i : String) (v : Values) (es : List UsageEvent) (e : UsageEvent)
    → find_event i es ≡ some e
    → find_event i (write_event i v es) ≡ some (record e { values = v })
unfolding find_event find? write_event
find_written i v [] e h = cc
find_written i v (x ∷ es) e h = ground (arith, find_written i v es e)

-- The delta of what was written and the same replay is zero.
delta_again :
    (old incoming : Values) (f : Field)
    → delta_of (written (compute_delta old incoming) f) (incoming f) ≡ pos 0
unfolding delta_of written compute_delta
delta_again old incoming f = elim (Option-cases (incoming f)) [
  | inl absent ↦ rw absent refl
  | inr (v, given) ↦ ground (
    arith,
    given,
    sub_self v,
    eq_of_sub v (or_zero (old f)),
    λ (e : v ≡ or_zero (old f)). sub_self (or_zero (old f)),
  )
]

unchanged_again :
    (old incoming : Values)
    → is_changed (compute_delta (written (compute_delta old incoming)) incoming) ≡ false
unfolding is_changed compute_delta any ℤ_discrete ℕ_discrete
unchanged_again old incoming =
    rw
      (
        delta_again old incoming Field.input_tokens,
        delta_again old incoming Field.output_tokens,
        delta_again old incoming Field.cached_tokens,
        delta_again old incoming Field.cache_read_tokens,
        delta_again old incoming Field.cache_write_tokens,
        delta_again old incoming Field.reasoning_tokens,
        delta_again old incoming Field.estimated_cost_usd,
      )
      refl

pub find_is :
    (i : String) (es : List UsageEvent) (e : UsageEvent) → find_event i es ≡ some e → e.id ≡ i
unfolding find_event find?
find_is i [] e h = cc
find_is i (x ∷ es) e h = ground (arith, find_is i es e)

pub apply_lost :
    (i : String) (incoming : Values) (db : Usage)
    → find_event i db.events ≡ none
    → apply_replay_merge i incoming db ≡ (db, IngestOutcome.rejected)
unfolding apply_replay_merge
apply_lost i incoming db lost = ground arith

pub apply_same :
    (i : String) (incoming : Values) (db : Usage) (e : UsageEvent)
    → find_event i db.events ≡ some e
    → is_changed (compute_delta e.values incoming) ≡ false
    → apply_replay_merge i incoming db ≡ (db, IngestOutcome.duplicate)
unfolding apply_replay_merge
apply_same i incoming db e found same = rw (found, same, apply_replay_merge) refl

pub apply_moved :
    (i : String) (incoming : Values) (db : Usage) (e : UsageEvent)
    → find_event i db.events ≡ some e
    → is_changed (compute_delta e.values incoming) ≡ true
    → apply_replay_merge i incoming db
      ≡ (merge_event e (compute_delta e.values incoming) db, IngestOutcome.updated)
unfolding apply_replay_merge
apply_moved i incoming db e found moved = rw (found, moved, apply_replay_merge) refl

find_merged :
    (i : String) (incoming : Values) (db : Usage) (e : UsageEvent)
    → find_event i db.events ≡ some e
    → find_event i (merge_event e (compute_delta e.values incoming) db).events
      ≡ some (record e { values = written (compute_delta e.values incoming) })
unfolding merge_event
find_merged i incoming db e found =
    subst
      (λ j.
        find_event i (write_event j (written (compute_delta e.values incoming)) db.events)
        ≡ some (record e { values = written (compute_delta e.values incoming) }))
      (sym (find_is i db.events e found))
      (find_written i (written (compute_delta e.values incoming)) db.events e found)

-- Once a replay has been merged, the same values again change no table, and the answer is
-- `duplicate`, or `rejected` where there is no such event.
pub replay_again :
    (i : String) (incoming : Values) (db : Usage)
    → let after = (apply_replay_merge i incoming db).0 in
      apply_replay_merge i incoming after ≡ (
        after,
        elim (find_event i db.events) [
          | none ↦ IngestOutcome.rejected
          | some _ ↦ IngestOutcome.duplicate
        ],
      )
replay_again i incoming db = elim (Option-cases (find_event i db.events)) [
  | inl lost ↦ rw (lost, apply_lost i incoming db lost, apply_lost i incoming db lost) refl
  | inr (e, found) ↦ elim (Bool-cases (is_changed (compute_delta e.values incoming))) [
    | inl moved ↦
        let after = merge_event e (compute_delta e.values incoming) db in
        rw (found, apply_moved i incoming db e found moved)
          (apply_same i incoming after _ (find_merged i incoming db e found)
            (unchanged_again e.values incoming))
    | inr same ↦
        rw (found, apply_same i incoming db e found same, apply_same i incoming db e found same)
          refl
  ]
]

written_cases :
    (old incoming : Values) (f : Field)
    → (written (compute_delta old incoming) f ≡ effective (old f) (incoming f))
      ⊎ ((old f ≡ none)
          × (incoming f ≡ some (pos 0))
          × (written (compute_delta old incoming) f ≡ none))
unfolding written compute_delta delta_of
written_cases old incoming f = elim (Option-cases (incoming f)) [
  | inl absent ↦ inl (ground arith)
  | inr (v, given) ↦ elim (Option-cases (old f)) [
    | inl unset ↦ ground (arith, eq_of_sub v (pos 0))
    | inr (u, stored) ↦ inl (ground (arith, eq_of_sub v u))
  ]
]

no_delta : (d : DeltaResult) (f : Field) → is_changed d ≡ false → d.deltas f ≡ pos 0
unfolding is_changed any
no_delta d Field.input_tokens h = ground arith
no_delta d Field.output_tokens h = ground arith
no_delta d Field.cached_tokens h = ground arith
no_delta d Field.cache_read_tokens h = ground arith
no_delta d Field.cache_write_tokens h = ground arith
no_delta d Field.reasoning_tokens h = ground arith
no_delta d Field.estimated_cost_usd h = ground arith

written_same :
    (old incoming : Values) (f : Field)
    → is_changed (compute_delta old incoming) ≡ false
    → written (compute_delta old incoming) f ≡ old f
unfolding written compute_delta
written_same old incoming f h =
    let zero_delta = no_delta (compute_delta old incoming) f h in ground arith

-- The event that a merge leaves behind: a field that the replay does not observe keeps its value,
-- and one that it observes takes the new value, except that a NULL field stays NULL when the
-- observed value is zero.
pub merged_values :
    (i : String) (incoming : Values) (db : Usage) (e : UsageEvent)
    → find_event i db.events ≡ some e
    → (stored : Values) × (find_event i (apply_replay_merge i incoming db).0.events
        ≡ some (record e { values = stored }))
      × ((f : Field)
          → (stored f ≡ effective (e.values f) (incoming f))
            ⊎ ((e.values f ≡ none) × (incoming f ≡ some (pos 0)) × (stored f ≡ none)))
merged_values i incoming db e found =
    elim (Bool-cases (is_changed (compute_delta e.values incoming))) [
      | inl moved ↦ (
        written (compute_delta e.values incoming),
        rw (apply_moved i incoming db e found moved) (find_merged i incoming db e found),
        written_cases e.values incoming,
      )
      | inr same ↦ (
        e.values,
        rw (apply_same i incoming db e found same) found,
        λ f.
            subst
              (λ v.
                (v ≡ effective (e.values f) (incoming f))
                ⊎ ((e.values f ≡ none) × (incoming f ≡ some (pos 0)) × (v ≡ none)))
              (written_same e.values incoming f same) (written_cases e.values incoming f),
      )
    ]
