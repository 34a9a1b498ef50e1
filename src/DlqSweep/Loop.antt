-- ===== src/DlqSweep/Loop.antt =====
-- The loop of the sweep: it ends, its counts add up, and it publishes what it escalates.
use opencode_gateway.Prelude.{
  ℕ, zero, suc, ◌+◌, ◌<◌, ◌≤◌, ◌≡◌, refl, ap, subst, sym, ◌-◌, ◌⊎◌, inl, inr, length-map, String,
  Bool, true, false, ◌&&◌, Option, none, some, [], ◌++◌, map, arith, ltb, ◌==◌, nat_eq,
  if◌then◌else◌, is_empty, is_some,
}
use opencode_gateway.Prelude.Int.{ℤ}
use opencode_gateway.DlqSweep.{
  Moment, DlqRecord, SweepReport, Message, Scanned, Batch, Sweep, is_exhausted, used, run_dlq_sweep,
  collect_dlq_batch, empty_batch, apply_chunk, chunk_size, sweep_loop, fresh_sweep, sweep_dlq,
}
use opencode_gateway.DlqSweep.Report.{
  length-before_limit, progress_before_limit, report_is_exact, report_adds_up,
}
use opencode_gateway.DlqSweep.Limits.{
  chain_returns, chain_cases, round_stops_before, busy_batch, is_record, records-collect, is_within,
  starts_within, within_limit,
}

module _ {P : Type 0} (fromisoformat : String → Option Moment) (digest : DlqRecord P → String)
    (now : ℤ) (max_age_days : ℕ) where
  abbrev loop : Bool → ℕ → (ℕ → Option (Message P)) → ℕ → Option ℕ → ℕ → Sweep P → Option (Sweep P)
  loop = sweep_loop fromisoformat digest now max_age_days

  abbrev classify : Bool → Option ℕ → Batch P → SweepReport P
  classify dry_run remaining b =
      run_dlq_sweep fromisoformat digest now max_age_days dry_run remaining
        (map (λ (r : Scanned P). r.payload) b.records)

  -- A poll that times out ends the sweep at the latest.
  ends_when_quiet :
      (dry_run : Bool) (batch_size k : ℕ) (polls : ℕ → Option (Message P))
      → polls k ≡ none
      → (fuel : ℕ) (remaining : Option ℕ) (made : ℕ) (s : Sweep P) → made ≤ k
      → k < made + fuel
      → is_some (loop dry_run batch_size polls fuel remaining made s) ≡ true
  unfolding sweep_loop
  ends_when_quiet dry_run batch_size k polls quiet zero remaining made s before h =
      absurd (omega (arith, before, h))
  ends_when_quiet dry_run batch_size k polls quiet (suc fuel) remaining made s before h =
      let size = chunk_size batch_size remaining in
      let b = collect_dlq_batch size polls made in
      let chunk = classify dry_run remaining b in
      let after = apply_chunk fromisoformat digest now max_age_days dry_run b chunk s in
      chain_returns (is_exhausted remaining) (is_empty b.records && b.consumed == 0)
        (ltb b.consumed size) s after
        (loop dry_run batch_size polls fuel (used chunk.scanned remaining) b.left after)
        (λ more busy full.
          let stop = round_stops_before size made k polls quiet before busy full in
          ends_when_quiet dry_run batch_size k polls quiet fuel (used chunk.scanned remaining)
            b.left after stop.0 (omega (arith, stop.1, h)))

  -- A round on well-formed records uses up some of the limit.
  limit_shrinks :
      (dry_run : Bool) (size made r : ℕ) (polls : ℕ → Option (Message P))
      → ((n : ℕ) → is_record (polls n) ≡ true)
      → is_exhausted (some r) ≡ false
      → let b = collect_dlq_batch size polls made in
        (is_empty b.records && b.consumed == 0) ≡ false
        → r - (classify dry_run (some r) b).scanned < r
  unfolding is_exhausted
  limit_shrinks dry_run size made r polls well more busy =
      let b = collect_dlq_batch size polls made in
      let payloads = map (λ (s : Scanned P). s.payload) b.records in
      let left : 1 ≤ r = ground arith in
      omega (
        arith,
        (report_is_exact fromisoformat digest now max_age_days dry_run (some r) payloads).0,
        progress_before_limit r payloads left,
        length-map (λ (s : Scanned P). s.payload) b.records,
        records-collect size polls (empty_batch made) well refl,
        busy_batch size made polls busy,
        left,
      )

  -- Where every poll gives a well-formed record, the limit ends the sweep.
  ends_at_limit :
      (dry_run : Bool) (batch_size : ℕ) (polls : ℕ → Option (Message P))
      → ((n : ℕ) → is_record (polls n) ≡ true)
      → (fuel r made : ℕ) (s : Sweep P) → r < fuel
      → is_some (loop dry_run batch_size polls fuel (some r) made s) ≡ true
  unfolding sweep_loop used
  ends_at_limit dry_run batch_size polls well zero r made s h = absurd (omega (arith, h))
  ends_at_limit dry_run batch_size polls well (suc fuel) r made s h =
      let size = chunk_size batch_size (some r) in
      let b = collect_dlq_batch size polls made in
      let chunk = classify dry_run (some r) b in
      let after = apply_chunk fromisoformat digest now max_age_days dry_run b chunk s in
      chain_returns (is_exhausted (some r)) (is_empty b.records && b.consumed == 0)
        (ltb b.consumed size) s after
        (loop dry_run batch_size polls fuel (some (r - chunk.scanned)) b.left after)
        (λ more busy full.
          ends_at_limit dry_run batch_size polls well fuel (r - chunk.scanned) b.left after
            (omega (arith, limit_shrinks dry_run size made r polls well more busy, h)))

  -- On a topic without an end, the sweep ends within `k + 1` rounds if its poll `k` (counted from
  -- 0) times out, or if its limit is `k` and every poll gives a well-formed record; whatever the
  -- size of a batch is.
  pub sweep_ends :
      (dry_run : Bool) (limit : Option ℕ) (batch_size k : ℕ) (polls : ℕ → Option (Message P))
      → (polls k ≡ none) ⊎ ((limit ≡ some k) × ((n : ℕ) → is_record (polls n) ≡ true))
      → is_some
          (sweep_dlq fromisoformat digest now max_age_days (suc k) dry_run limit batch_size polls)
        ≡ true
  unfolding sweep_dlq
  sweep_ends dry_run limit batch_size k polls (inl quiet) =
      ends_when_quiet dry_run batch_size k polls quiet (suc k) limit 0 fresh_sweep (omega arith)
        (omega arith)
  sweep_ends dry_run limit batch_size k polls (inr (limited, well)) =
      subst (λ l. is_some (loop dry_run batch_size polls (suc k) l 0 fresh_sweep) ≡ true)
        (sym limited)
        (ends_at_limit dry_run batch_size polls well (suc k) k 0 fresh_sweep (omega arith))

  -- What each chunk keeps, the whole loop keeps.
  loop_keeps :
      (Inv : Option ℕ → Sweep P → Type 0) (dry_run : Bool) (batch_size : ℕ)
      → ((remaining : Option ℕ) (b : Batch P) (s : Sweep P)
          → is_exhausted remaining ≡ false
          → Inv remaining s
          → let chunk = classify dry_run remaining b in
            Inv
              (used chunk.scanned remaining)
              (apply_chunk fromisoformat digest now max_age_days dry_run b chunk s))
      → (polls : ℕ → Option (Message P)) (fuel : ℕ) (remaining : Option ℕ) (made : ℕ)
      → (s final : Sweep P) → Inv remaining s
      → loop dry_run batch_size polls fuel remaining made s ≡ some final
      → (rest : Option ℕ) × Inv rest final
  unfolding sweep_loop
  loop_keeps Inv dry_run batch_size step polls zero remaining made s final h e = absurd cc
  loop_keeps Inv dry_run batch_size step polls (suc fuel) remaining made s final h e =
      let size = chunk_size batch_size remaining in
      let b = collect_dlq_batch size polls made in
      let chunk = classify dry_run remaining b in
      let after = apply_chunk fromisoformat digest now max_age_days dry_run b chunk s in
      chain_cases (λ z. (rest : Option ℕ) × Inv rest z) (is_exhausted remaining)
        (is_empty b.records && b.consumed == 0) (ltb b.consumed size) s after
        (loop dry_run batch_size polls fuel (used chunk.scanned remaining) b.left after) final
        (remaining, h) (λ busy. (used chunk.scanned remaining, step remaining b s busy h))
        (λ busy.
          loop_keeps Inv dry_run batch_size step polls fuel (used chunk.scanned remaining) b.left
            after final (step remaining b s busy h))
        e

  -- The counts add up; what was published is what the report escalates, and a dry run has published
  -- and committed nothing.
  unfoldable pub IsAccounted : Bool → Sweep P → Type 0
  IsAccounted dry_run s =
      (s.report.expired + s.report.retained ≡ s.report.scanned)
      × (s.published ≡ (if dry_run then [] else s.report.escalated))
      × ((if dry_run then s.committed else []) ≡ [])

  is_within-chunk :
      (limit remaining : Option ℕ) (dry_run : Bool) (b : Batch P) (n : ℕ)
      → is_within limit remaining n ≡ true
      → let scanned = (classify dry_run remaining b).scanned in
        is_within limit (used scanned remaining) (n + scanned) ≡ true
  unfolding is_within used
  is_within-chunk none remaining dry_run b n h = refl
  is_within-chunk (some l) none dry_run b n h = cc
  is_within-chunk (some l) (some r) dry_run b n h =
      let payloads = map (λ (s : Scanned P). s.payload) b.records in
      ground (
        arith,
        (report_is_exact fromisoformat digest now max_age_days dry_run (some r) payloads).0,
        length-before_limit r payloads,
      )

  IsAccounted-apply_chunk :
      (dry_run : Bool) (remaining : Option ℕ) (b : Batch P) (s : Sweep P)
      → IsAccounted dry_run s
      → IsAccounted dry_run (
          apply_chunk fromisoformat digest now max_age_days dry_run b
            (classify dry_run remaining b)
            s)
  unfolding IsAccounted apply_chunk
  IsAccounted-apply_chunk true remaining b s h =
      let payloads = map (λ (s : Scanned P). s.payload) b.records in
      let adds = report_adds_up fromisoformat digest now max_age_days true remaining payloads in
      (omega (arith, h.0, adds), h.1, h.2)
  IsAccounted-apply_chunk false remaining b s h =
      let payloads = map (λ (s : Scanned P). s.payload) b.records in
      let adds = report_adds_up fromisoformat digest now max_age_days false remaining payloads in
      (omega (arith, h.0, adds), ap (λ l. l ++ (classify false remaining b).escalated) h.1, refl)

  scanned-apply_chunk :
      (limit remaining : Option ℕ) (dry_run : Bool) (b : Batch P) (s : Sweep P)
      → is_within limit remaining s.report.scanned ≡ true
      → let chunk = classify dry_run remaining b in
        is_within limit
          (used chunk.scanned remaining)
          (apply_chunk fromisoformat digest now max_age_days dry_run b chunk s).report.scanned
        ≡ true
  unfolding apply_chunk
  scanned-apply_chunk limit remaining true b s h =
      is_within-chunk limit remaining true b s.report.scanned h
  scanned-apply_chunk limit remaining false b s h =
      is_within-chunk limit remaining false b s.report.scanned h

  fresh-IsAccounted : (dry_run : Bool) → IsAccounted dry_run fresh_sweep
  unfolding IsAccounted
  fresh-IsAccounted true = (omega arith, refl, refl)
  fresh-IsAccounted false = (omega arith, refl, refl)

  -- Whatever is polled, when a sweep returns: the records that it scans are within its limit and each counts once, as
  -- expired or as retained; it has published exactly the escalations that it reports; and a dry run
  -- has published and committed nothing.
  pub sweep_accounts :
      (fuel : ℕ) (dry_run : Bool) (limit : Option ℕ) (batch_size : ℕ)
      (polls : ℕ → Option (Message P)) (final : Sweep P)
      → sweep_dlq fromisoformat digest now max_age_days fuel dry_run limit batch_size polls
        ≡ some final
      → IsAccounted dry_run final × (is_within limit (some 0) final.report.scanned ≡ true)
  unfolding sweep_dlq is_within IsAccounted apply_chunk
  sweep_accounts fuel dry_run limit batch_size polls final e =
      let kept =
        loop_keeps
          (λ (remaining : Option ℕ) (s : Sweep P).
            IsAccounted dry_run s × (is_within limit remaining s.report.scanned ≡ true))
          dry_run batch_size
          (λ remaining b s busy h. (
            IsAccounted-apply_chunk dry_run remaining b s h.0,
            scanned-apply_chunk limit remaining dry_run b s h.1,
          ))
          polls fuel limit 0 fresh_sweep final (fresh-IsAccounted dry_run, starts_within limit) e in
      (kept.1.0, within_limit limit kept.0 final.report.scanned kept.1.1)
