-- ===== src/ReplayMerge/Totals.antt =====
-- No negative session total is written.
use opencode_gateway.Prelude.{
  ◌≡◌, refl, Bool, false, String, Option, none, some, List, [], ◌∷◌, arith, string_eq, any,
  Bool-cases, Option-cases, inl, inr,
}
use opencode_gateway.Prelude.Int.{ℤ, pos, ltb_ℤ, int_eq}
use opencode_gateway.MergePolicy.{
  Field, Values, DeltaResult, clamp, clamp_value, validate_no_negative_totals, compute_delta,
}
use opencode_gateway.ReplayMerge.{
  SessionTotals, Usage, find_event, is_changed, adjusted_totals, overlay, adjust_session,
  adjust_owner, merge_event, apply_replay_merge,
}
use opencode_gateway.ReplayMerge.Replay.{apply_moved, apply_same, apply_lost}

unfoldable pub is_negative : Option ℤ → Bool
is_negative none = false
is_negative (some v) = ltb_ℤ v (pos 0)

clamped : (v : Option ℤ) → is_negative (clamp_value v) ≡ false
unfolding is_negative clamp
clamped none = refl
clamped (some v) = ground arith

overlaid :
    (new old : Values) (f : Field)
    → is_negative (old f) ≡ false
    → is_negative (overlay (λ g. clamp_value (new g)) old f) ≡ false
overlaid new old f h = elim (Option-cases (new f)) [
  | inl absent ↦ rw (absent, overlay) h
  | inr (v, given) ↦ rw (given, overlay) (clamped (some v))
]

adjusted_stays :
    (i : String) (d : DeltaResult) (f : Field) (ss : List SessionTotals)
    → any (λ (s : SessionTotals). is_negative (s.totals f)) ss ≡ false
    → any (λ (s : SessionTotals). is_negative (s.totals f)) (adjust_session i d ss) ≡ false
unfolding any adjust_session validate_no_negative_totals
adjusted_stays i d f [] h = refl
adjusted_stays i d f (s ∷ ss) h =
    let rest = adjusted_stays i d f ss in
    let here = overlaid (adjusted_totals d s.totals) s.totals f in ground arith

owner_stays :
    (o : Option String) (d : DeltaResult) (f : Field) (ss : List SessionTotals)
    → any (λ (s : SessionTotals). is_negative (s.totals f)) ss ≡ false
    → any (λ (s : SessionTotals). is_negative (s.totals f)) (adjust_owner o d ss) ≡ false
owner_stays none d f ss h = h
owner_stays (some i) d f ss h = adjusted_stays i d f ss h

-- If no session total of a field is negative, none is after any replay merge.
pub totals_stay_nonnegative :
    (i : String) (incoming : Values) (f : Field) (db : Usage)
    → any (λ (s : SessionTotals). is_negative (s.totals f)) db.sessions ≡ false
    → any
        (λ (s : SessionTotals). is_negative (s.totals f))
        (apply_replay_merge i incoming db).0.sessions
      ≡ false
unfolding merge_event
totals_stay_nonnegative i incoming f db h = elim (Option-cases (find_event i db.events)) [
  | inl lost ↦ rw (apply_lost i incoming db lost) h
  | inr (e, found) ↦ elim (Bool-cases (is_changed (compute_delta e.values incoming))) [
    | inl moved ↦
        rw (apply_moved i incoming db e found moved)
          (owner_stays e.session_id (compute_delta e.values incoming) f db.sessions h)
    | inr same ↦ rw (apply_same i incoming db e found same) h
  ]
]
