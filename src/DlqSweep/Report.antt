-- ===== src/DlqSweep/Report.antt =====
-- What a report of the sweep counts: each record of the scanned prefix once, by its age.
use opencode_gateway.Prelude.{
  ℕ, zero, suc, ◌+◌, ◌≤◌, ◌≡◌, refl, sym, String, Bool, true, false, not, Option, some, List, [],
  ◌∷◌, ◌++◌, map, arith, if◌then◌else◌, filter, length,
}
use mathlib.Core.List.{append_assoc, append-nil}
use opencode_gateway.Prelude.Int.{ℤ}
use opencode_gateway.DlqSweep.{
  Moment, DlqRecord, SweepReport, is_exhausted, used, is_dlq_expired, build_escalation_payload,
  scan_one, scan_all, run_dlq_sweep, empty_report,
}

-- The records before the limit.
unfoldable pub before_limit {ℓ} : {A : Type ℓ} → Option ℕ → List A → List A
before_limit limit [] = []
before_limit limit (x ∷ xs) =
    let rest = before_limit (used 1 limit) xs in if is_exhausted limit then [] else x ∷ rest

pub length-before_limit {ℓ} :
    {A : Type ℓ} (n : ℕ) (xs : List A) → length (before_limit (some n) xs) ≤ n
unfolding before_limit is_exhausted used
length-before_limit n [] = omega arith
length-before_limit zero (x ∷ xs) = omega arith
length-before_limit (suc n) (x ∷ xs) = ground (arith, length-before_limit n xs)

pub progress_before_limit {ℓ} :
    {A : Type ℓ} (n : ℕ) (xs : List A)
    → 1 ≤ n
    → 1 ≤ length xs
    → 1 ≤ length (before_limit (some n) xs)
unfolding before_limit is_exhausted used
progress_before_limit n [] h k = omega (arith, k)
progress_before_limit zero (x ∷ xs) h k = omega (arith, h)
progress_before_limit (suc n) (x ∷ xs) h k = ground arith

module _ {P : Type 0} (fromisoformat : String → Option Moment) (digest : DlqRecord P → String)
    (now : ℤ) (max_age_days : ℕ) where
  abbrev pub expires : DlqRecord P → Bool
  expires r = is_dlq_expired fromisoformat digest now max_age_days r

  abbrev scan : Bool → Option ℕ → List (DlqRecord P) → SweepReport P → SweepReport P
  scan = scan_all fromisoformat digest now max_age_days

  abbrev one : Bool → DlqRecord P → SweepReport P → SweepReport P
  one = scan_one fromisoformat digest now max_age_days

  scanned-scan_all :
      (dry_run : Bool) (limit : Option ℕ) (rs : List (DlqRecord P)) (s : SweepReport P)
      → (scan dry_run limit rs s).scanned ≡ s.scanned + length (before_limit limit rs)
  unfolding scan_all before_limit scan_one
  scanned-scan_all dry_run limit [] s = omega arith
  scanned-scan_all dry_run limit (r ∷ rs) s =
      ground (arith, scanned-scan_all dry_run (used 1 limit) rs (one dry_run r s))

  expired-scan_all :
      (dry_run : Bool) (limit : Option ℕ) (rs : List (DlqRecord P)) (s : SweepReport P)
      → (scan dry_run limit rs s).expired
        ≡ s.expired + length (filter expires (before_limit limit rs))
  unfolding scan_all before_limit scan_one filter
  expired-scan_all dry_run limit [] s = omega arith
  expired-scan_all dry_run limit (r ∷ rs) s =
      ground (arith, expired-scan_all dry_run (used 1 limit) rs (one dry_run r s))

  retained-scan_all :
      (dry_run : Bool) (limit : Option ℕ) (rs : List (DlqRecord P)) (s : SweepReport P)
      → (scan dry_run limit rs s).retained
        ≡ s.retained
          + length (filter (λ (r : DlqRecord P). not (expires r)) (before_limit limit rs))
  unfolding scan_all before_limit scan_one filter
  retained-scan_all dry_run limit [] s = omega arith
  retained-scan_all dry_run limit (r ∷ rs) s =
      ground (arith, retained-scan_all dry_run (used 1 limit) rs (one dry_run r s))

  escalated-scan_all :
      (limit : Option ℕ) (rs : List (DlqRecord P)) (s : SweepReport P)
      → (scan false limit rs s).escalated
        ≡ s.escalated
          ++ map
              (build_escalation_payload fromisoformat digest now max_age_days)
              (filter expires (before_limit limit rs))
  unfolding scan_all before_limit scan_one filter
  escalated-scan_all limit [] s = sym (append-nil s.escalated)
  escalated-scan_all limit (r ∷ rs) s =
      let build = build_escalation_payload fromisoformat digest now max_age_days in
      let found = map build (filter expires (before_limit (used 1 limit) rs)) in
      ground (
        arith,
        escalated-scan_all (used 1 limit) rs (one false r s),
        append_assoc s.escalated (build r ∷ []) found,
        append-nil s.escalated,
      )

  quiet-scan_all :
      (limit : Option ℕ) (rs : List (DlqRecord P)) (s : SweepReport P)
      → (scan true limit rs s).escalated ≡ s.escalated
  unfolding scan_all scan_one
  quiet-scan_all limit [] s = refl
  quiet-scan_all limit (r ∷ rs) s =
      ground (arith, quiet-scan_all (used 1 limit) rs (one true r s), append-nil s.escalated)

  count_split :
      (rs : List (DlqRecord P))
      → length (filter expires rs) + length (filter (λ (r : DlqRecord P). not (expires r)) rs)
        ≡ length rs
  unfolding filter
  count_split [] = refl
  count_split (r ∷ rs) = ground (arith, count_split rs)

  pub report_adds_up :
      (dry_run : Bool) (limit : Option ℕ) (rs : List (DlqRecord P))
      → let report = run_dlq_sweep fromisoformat digest now max_age_days dry_run limit rs in
        report.expired + report.retained ≡ report.scanned
  unfolding run_dlq_sweep
  report_adds_up dry_run limit rs = omega (
    arith,
    scanned-scan_all dry_run limit rs empty_report,
    expired-scan_all dry_run limit rs empty_report,
    retained-scan_all dry_run limit rs empty_report,
    count_split (before_limit limit rs),
  )

  -- A report scans exactly the records before the limit, and counts each of them once, as expired
  -- or as retained; outside a dry run it escalates exactly the expired ones, in their order, and in
  -- a dry run none.
  pub report_is_exact :
      (dry_run : Bool) (limit : Option ℕ) (rs : List (DlqRecord P))
      → let report = run_dlq_sweep fromisoformat digest now max_age_days dry_run limit rs in
        let seen = before_limit limit rs in
        (report.scanned ≡ length seen)
        × (report.expired ≡ length (filter expires seen))
        × (report.expired + report.retained ≡ report.scanned)
        × (report.escalated ≡ (
            if dry_run
            then []
            else map
                (build_escalation_payload fromisoformat digest now max_age_days)
                (filter expires seen)))
  unfolding run_dlq_sweep
  report_is_exact true limit rs = (
    omega (arith, scanned-scan_all true limit rs empty_report),
    omega (arith, expired-scan_all true limit rs empty_report),
    report_adds_up true limit rs,
    quiet-scan_all limit rs empty_report,
  )
  report_is_exact false limit rs = (
    omega (arith, scanned-scan_all false limit rs empty_report),
    omega (arith, expired-scan_all false limit rs empty_report),
    report_adds_up false limit rs,
    escalated-scan_all limit rs empty_report,
  )
