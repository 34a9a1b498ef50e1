-- ===== src/ReplayMerge/Rollups.antt =====
-- The rollup of a bucket is the sum of the stored events of that bucket, and a merge keeps it so.
use opencode_gateway.Prelude.{
  ◌≤◌, ◌≡◌, refl, Bool, true, false, String, some, List, [], ◌∷◌, arith, nat_eq, string_eq,
  option_eq, ◌==◌, ◌/=◌, if◌then◌else◌, any, find?, filter, length, Bool-cases, Option-cases, inl,
  inr, string_discrete,
}
use opencode_gateway.Prelude.Int.{
  ℤ, pos, ◌+ℤ◌, int_eq, add_sub, add_zero, zero_add, add_right_comm, add_assoc,
}
use opencode_gateway.MergePolicy.{
  Field, delta_fields, is_rollup_field, Values, DeltaResult, or_zero, delta_of, compute_delta,
}
use opencode_gateway.ReplayMerge.{
  UsageEvent, Usage, Bucket, Rollup, bucket_eq, is_event, find_event, is_changed, written,
  write_event, bucket_of, upsert_rollup, rollup_delta, maintain_rollup, merge_event,
  apply_replay_merge,
}
use opencode_gateway.ReplayMerge.Replay.{find_is, apply_moved, apply_same, apply_lost}

-- `SUM(field) … GROUP BY client_id, project_id, day`, at one bucket.
unfoldable pub bucket_sum : Field → Bucket → List UsageEvent → ℤ
bucket_sum f k [] = pos 0
bucket_sum f k (e ∷ es) =
    let rest = bucket_sum f k es in
    if bucket_of e == some k then rest +ℤ or_zero (e.values f) else rest

-- What the rollup holds for a bucket; no row is zero.
unfoldable pub rollup_amount : Field → Bucket → List Rollup → ℤ
rollup_amount f k [] = pos 0
rollup_amount f k (r ∷ rs) =
    let rest = rollup_amount f k rs in if r.bucket == k then r.amounts f else rest

-- The share of an amount that falls to a bucket.
abbrev share : Bool → ℤ → ℤ
share b d = if b then d else pos 0

written_delta :
    (old incoming : Values) (f : Field)
    → or_zero (written (compute_delta old incoming) f)
      ≡ or_zero (old f) +ℤ (compute_delta old incoming).deltas f
unfolding written compute_delta delta_of
written_delta old incoming f = elim (Option-cases (incoming f)) [
  | inl absent ↦ ground (arith, add_zero (or_zero (old f)))
  | inr (v, given) ↦ ground (arith, add_zero (or_zero (old f)), add_sub (or_zero (old f)) v)
]

write_none :
    (i : String) (v : Values) (es : List UsageEvent)
    → any (is_event i) es ≡ false
    → write_event i v es ≡ es
unfolding any write_event
write_none i v [] h = refl
write_none i v (x ∷ es) h = ground (arith, write_none i v es)

length_zero :
    (p : UsageEvent → Bool) (es : List UsageEvent) → length (filter p es) ≤ 0 → any p es ≡ false
unfolding filter any
length_zero p [] h = refl
length_zero p (x ∷ es) h = ground (arith, length_zero p es)

bucket_values : (e : UsageEvent) (v : Values) → bucket_of (record e { values = v }) ≡ bucket_of e
unfolding bucket_of
bucket_values e v = refl

sum_written :
    (f : Field) (k : Bucket) (i : String) (v : Values) (d : ℤ) (e : UsageEvent)
    (es : List UsageEvent)
    → or_zero (v f) ≡ or_zero (e.values f) +ℤ d
    → find_event i es ≡ some e
    → length (filter (is_event i) es) ≤ 1
    → bucket_sum f k (write_event i v es) ≡ bucket_sum f k es +ℤ share (bucket_of e == some k) d
unfolding bucket_sum write_event find_event find? filter
sum_written f k i v d e [] diff found once = cc
sum_written f k i v d e (x ∷ es) diff found once = elim (string_discrete x.id i) [
  | yes here ↦ ground (
    arith,
    bucket_values x v,
    write_none i v es,
    length_zero (is_event i) es,
    add_assoc (bucket_sum f k es) (or_zero (e.values f)) d,
    add_zero (bucket_sum f k es),
  )
  | no other ↦ ground (
    arith,
    sum_written f k i v d e es diff,
    add_right_comm (bucket_sum f k es) (share (bucket_of e == some k) d) (or_zero (x.values f)),
  )
]

amount_upsert :
    (f : Field) (k key : Bucket) (amounts : Field → ℤ) (rs : List Rollup)
    → rollup_amount f k (upsert_rollup key amounts rs)
      ≡ rollup_amount f k rs +ℤ share (key == k) (amounts f)
unfolding rollup_amount upsert_rollup
amount_upsert f k key amounts [] = ground (arith, add_zero (pos 0), zero_add (amounts f))
amount_upsert f k key amounts (r ∷ rs) = ground (
  arith,
  amount_upsert f k key amounts rs,
  add_zero (rollup_amount f k rs),
  add_zero (r.amounts f),
)

no_amount :
    (d : DeltaResult) (f : Field)
    → any (λ g. rollup_delta d g /= pos 0) delta_fields ≡ false
    → rollup_delta d f ≡ pos 0
unfolding any
no_amount d Field.input_tokens h = ground arith
no_amount d Field.output_tokens h = ground arith
no_amount d Field.cached_tokens h = ground arith
no_amount d Field.cache_read_tokens h = ground arith
no_amount d Field.cache_write_tokens h = ground arith
no_amount d Field.reasoning_tokens h = ground arith
no_amount d Field.estimated_cost_usd h = ground arith

amount_maintained :
    (f : Field) (k : Bucket) (e : UsageEvent) (d : DeltaResult) (rs : List Rollup)
    → rollup_amount f k (maintain_rollup e d rs)
      ≡ rollup_amount f k rs +ℤ share (bucket_of e == some k) (rollup_delta d f)
unfolding maintain_rollup
amount_maintained f k e d rs = elim (Option-cases (bucket_of e)) [
  | inl keyless ↦ ground (arith, keyless, add_zero (rollup_amount f k rs))
  | inr (key, there) ↦ ground (
    arith,
    there,
    no_amount d f,
    amount_upsert f k key (rollup_delta d) rs,
    add_zero (rollup_amount f k rs),
  )
]

amount_merged :
    (f : Field) (k : Bucket) (i : String) (incoming : Values) (db : Usage) (e : UsageEvent)
    → is_rollup_field f ≡ true
    → find_event i db.events ≡ some e
    → length (filter (is_event i) db.events) ≤ 1
    → rollup_amount f k db.rollups ≡ bucket_sum f k db.events
    → let after = merge_event e (compute_delta e.values incoming) db in
      rollup_amount f k after.rollups ≡ bucket_sum f k after.events
unfolding merge_event rollup_delta
amount_merged f k i incoming db e kind found once before =
    let d = compute_delta e.values incoming in
    let here = find_is i db.events e found in
    ground (
      arith,
      here,
      amount_maintained f k e d db.rollups,
      written_delta e.values incoming f,
      sum_written f k i (written d) (d.deltas f) e db.events,
    )

-- If the rollup of a bucket holds the sum of the stored events of the bucket, for a field that has
-- a rollup column, then it still does after any replay merge. Event ids are unique.
pub merge_keeps_rollup :
    (f : Field) (k : Bucket) (i : String) (incoming : Values) (db : Usage)
    → is_rollup_field f ≡ true
    → length (filter (is_event i) db.events) ≤ 1
    → rollup_amount f k db.rollups ≡ bucket_sum f k db.events
    → let after = (apply_replay_merge i incoming db).0 in
      rollup_amount f k after.rollups ≡ bucket_sum f k after.events
merge_keeps_rollup f k i incoming db kind once before =
    elim (Option-cases (find_event i db.events)) [
      | inl lost ↦ rw (apply_lost i incoming db lost) before
      | inr (e, found) ↦ elim (Bool-cases (is_changed (compute_delta e.values incoming))) [
        | inl moved ↦
            rw (apply_moved i incoming db e found moved)
              (amount_merged f k i incoming db e kind found once before)
        | inr same ↦ rw (apply_same i incoming db e found same) before
      ]
    ]
