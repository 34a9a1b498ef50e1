-- ===== src/DlqSweep/Commit.antt =====
-- The offsets that a chunk commits: never past a record that it retains.
use opencode_gateway.Prelude.{
  ℕ, ◌≡◌, ◌+◌, none, true, subst, inl, inr, String, Bool, false, ◌&&◌, ◌||◌, not, Option, some,
  List, [], ◌∷◌, arith, ltb, ◌==◌, nat_eq, any, Option-cases,
}
use opencode_gateway.Prelude.Int.{ℤ}
use opencode_gateway.Prelude.Dict.{
  get, put_least, get-put, has_less, has_less-put_least, get-update_values,
}
use opencode_gateway.DlqSweep.{
  Moment, DlqRecord, Scanned, is_dlq_expired, first_retained, commit_offset,
  compute_dlq_commit_offsets,
}

nothing_below :
    (partition highest : ℕ) (retained : List (ℕ × ℕ))
    → has_less (commit_offset retained partition highest) partition retained ≡ false
unfolding has_less commit_offset
nothing_below partition highest retained = ground arith

-- The key has this value.
unfoldable is_at : ℕ → ℕ → List (ℕ × ℕ) → Bool
is_at t k d = elim (get k d) [ none ↦ false | some n ↦ n == t ]

-- One past the highest offset.
unfoldable pub is_next : Option ℕ → ℕ → Bool
is_next none offset = false
is_next (some highest) offset = offset == highest + 1

is_at-put_least :
    (t j k n : ℕ) (d : List (ℕ × ℕ))
    → is_at t k (put_least j n d) ≡ true
    → (is_at t k d || j == k && n == t) ≡ true
unfolding is_at put_least
is_at-put_least t j k n d h = ground (arith, get-put j k n d)

retained_or_next :
    (partition highest : ℕ) (retained : List (ℕ × ℕ))
    → let offset = commit_offset retained partition highest in
      (is_at offset partition retained || is_next (some highest) offset) ≡ true
unfolding is_at is_next commit_offset
retained_or_next partition highest retained = ground arith

module _ {P : Type 0} (fromisoformat : String → Option Moment) (digest : DlqRecord P → String)
    (now : ℤ) (max_age_days : ℕ) where
  -- A record of the partition that is retained, at an offset below `t`.
  unfoldable pub retained_below : ℕ → ℕ → Scanned P → Bool
  retained_below t partition s =
      not (is_dlq_expired fromisoformat digest now max_age_days s.payload)
      && s.partition == partition
      && ltb s.offset t

  has_less-first_retained :
      (t partition : ℕ) (rs : List (Scanned P)) (d : List (ℕ × ℕ))
      → has_less t partition (first_retained fromisoformat digest now max_age_days rs d)
        ≡ (has_less t partition d || any (retained_below t partition) rs)
  unfolding first_retained any retained_below
  has_less-first_retained t partition [] d = ground arith
  has_less-first_retained t partition (s ∷ rs) d = ground (
    arith,
    has_less-first_retained t partition rs d,
    has_less-first_retained t partition rs (put_least s.partition s.offset d),
    has_less-put_least t s.partition partition s.offset d,
  )

  -- A record of the partition that is retained, at this offset.
  unfoldable pub retained_at : ℕ → ℕ → Scanned P → Bool
  retained_at t partition s =
      not (is_dlq_expired fromisoformat digest now max_age_days s.payload)
      && s.partition == partition
      && s.offset == t

  is_at-first_retained :
      (t partition : ℕ) (rs : List (Scanned P)) (d : List (ℕ × ℕ))
      → is_at t partition (first_retained fromisoformat digest now max_age_days rs d) ≡ true
      → (is_at t partition d || any (retained_at t partition) rs) ≡ true
  unfolding first_retained any retained_at
  is_at-first_retained t partition [] d h = ground arith
  is_at-first_retained t partition (s ∷ rs) d h = ground (
    arith,
    is_at-first_retained t partition rs d,
    is_at-first_retained t partition rs (put_least s.partition s.offset d),
    is_at-put_least t s.partition partition s.offset d,
  )

  -- The offset that one chunk commits for a partition is at most that of every record of the
  -- partition that this chunk scans and retains; and it is that of one of them, or one past the
  -- highest offset of the partition that the chunk consumed.
  pub commit_stops_at_retained :
      (rs : List (Scanned P)) (max_consumed : List (ℕ × ℕ)) (partition offset : ℕ)
      → get partition
          (compute_dlq_commit_offsets fromisoformat digest now max_age_days rs max_consumed)
        ≡ some offset
      → (any (retained_below offset partition) rs ≡ false)
        × ((any (retained_at offset partition) rs || is_next (get partition max_consumed) offset)
            ≡ true)
  unfolding compute_dlq_commit_offsets has_less get is_at
  commit_stops_at_retained rs max_consumed partition offset h =
      let retained = first_retained fromisoformat digest now max_age_days rs [] in
      let found = get-update_values (commit_offset retained) partition max_consumed in
      elim (Option-cases (get partition max_consumed)) [
        | inl e ↦ absurd (cc (h, e, found))
        | inr (highest, e) ↦
            let below = nothing_below partition highest retained in
            let spec = has_less-first_retained offset partition rs [] in
            let same : commit_offset retained partition highest ≡ offset = cc in
            let clear : has_less offset partition retained ≡ false =
              subst (λ o. has_less o partition retained ≡ false) same below in
            let source =
              subst (λ o. (is_at o partition retained || is_next (some highest) o) ≡ true) same
                (retained_or_next partition highest retained) in
            let one = is_at-first_retained offset partition rs [] in
            (ground arith, rw e (ground (arith, source, one)))
      ]
