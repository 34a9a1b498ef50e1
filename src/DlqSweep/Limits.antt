-- ===== src/DlqSweep/Limits.antt =====
-- One batch of the sweep: how much it reads, and that it stays within the limit.
use opencode_gateway.Prelude.{
  ℕ, zero, suc, ◌+◌, ◌≤◌, ◌<◌, ◌≡◌, ◌≢◌, refl, ap, subst, ltb, inl, inr, Bool, true, false, ◌&&◌,
  Option, none, some, List, [], ◌∷◌, arith, leb, ◌==◌, nat_eq, if◌then◌else◌, length, length-append,
  is_empty, is_some, Option-cases,
}
use opencode_gateway.DlqSweep.{
  Message, Scanned, Batch, consume, collect, collect_dlq_batch, empty_batch,
}

module _ {P : Type 0} where
  -- Consuming a message adds one to the count, and at most one record.
  length-consume :
      (m : Message P) (b : Batch P)
      → (length (consume m b).records ≤ length b.records + 1)
        × ((consume m b).consumed ≡ b.consumed + 1)
  unfolding consume
  length-consume m b = (
    elim (Option-cases m.value) [
      | inl e ↦ rw e (omega (arith, length-append b.records []))
      | inr (v, e) ↦ rw e (
          omega (
            arith,
            length-append b.records
                (record { payload = v; partition = m.partition; offset = m.offset } ∷ []),
          ))
    ],
    refl,
  )

  left-consume : (m : Message P) (b : Batch P) → (consume m b).left ≡ b.left + 1
  unfolding consume
  left-consume m b = refl

  collect_stops :
      (n : ℕ) (polls : ℕ → Option (Message P)) (b : Batch P)
      → polls b.left ≡ none
      → collect (suc n) polls b ≡ record b { left = b.left + 1 }
  unfolding collect
  collect_stops n polls b e = rw (e, collect) refl

  collect_goes_on :
      (n : ℕ) (polls : ℕ → Option (Message P)) (b : Batch P) (m : Message P)
      → polls b.left ≡ some m
      → collect (suc n) polls b ≡ collect n polls (consume m b)
  unfolding collect
  collect_goes_on n polls b m e = rw (e, collect) refl

  -- A batch has at most one record for each message.
  records_bound :
      (n : ℕ) (polls : ℕ → Option (Message P)) (b : Batch P)
      → length b.records ≤ b.consumed
      → length (collect n polls b).records ≤ (collect n polls b).consumed
  unfolding collect
  records_bound zero polls b h = h
  records_bound (suc n) polls b h = elim (Option-cases (polls b.left)) [
    | inl e ↦ rw (collect_stops n polls b e) h
    | inr (m, e) ↦
        let step = length-consume m b in
        rw (collect_goes_on n polls b m e)
          (records_bound n polls (consume m b) (omega (arith, step.0, step.1, h)))
  ]

  -- A batch that is full has stopped before a poll that times out.
  full_stops_before :
      (n : ℕ) (polls : ℕ → Option (Message P)) (b : Batch P) (k : ℕ)
      → polls k ≡ none
      → b.left ≤ k
      → b.consumed + n ≤ (collect n polls b).consumed
      → ((collect n polls b).left ≤ k) × ((collect n polls b).left ≡ b.left + n)
  unfolding collect
  full_stops_before zero polls b k quiet before full = (before, omega arith)
  full_stops_before (suc n) polls b k quiet before full = elim (Option-cases (polls b.left)) [
    | inl e ↦
        absurd (omega (arith, ap (λ (r : Batch P). r.consumed) (collect_stops n polls b e), full))
    | inr (m, e) ↦
        let step = length-consume m b in
        let goes_on = collect_goes_on n polls b m e in
        let passed : b.left ≢ k = λ same. cc (quiet, e, same) in
        let rest =
          full_stops_before n polls (consume m b) k quiet
            (omega (arith, left-consume m b, before, passed))
            (omega (arith, ap (λ (r : Batch P). r.consumed) goes_on, step.1, full)) in
        rw goes_on (rest.0, omega (arith, rest.1, left-consume m b))
  ]

  -- A batch takes no more messages than it asks for.
  consumed_bound :
      (n : ℕ) (polls : ℕ → Option (Message P)) (b : Batch P)
      → (collect n polls b).consumed ≤ b.consumed + n
  unfolding collect
  consumed_bound zero polls b = omega arith
  consumed_bound (suc n) polls b = elim (Option-cases (polls b.left)) [
    | inl e ↦ rw (collect_stops n polls b e) (omega arith)
    | inr (m, e) ↦
        rw (collect_goes_on n polls b m e)
          (omega (arith, consumed_bound n polls (consume m b), (length-consume m b).1))
  ]

  nonempty : (xs : List (Scanned P)) → is_empty xs ≡ false → 1 ≤ length xs
  nonempty [] h = absurd cc
  nonempty (x ∷ xs) h = omega arith

  -- A batch that does not end the sweep for being empty has a message.
  pub busy_batch :
      (size made : ℕ) (polls : ℕ → Option (Message P))
      → let b = collect_dlq_batch size polls made in
        (is_empty b.records && b.consumed == 0) ≡ false → 1 ≤ b.consumed
  busy_batch size made polls h =
      let b = collect_dlq_batch size polls made in
      let bound = records_bound size polls (empty_batch made) (omega arith) in
      let found = nonempty b.records in ground (arith, bound, found)

  -- A round that goes on has made more polls, and all of them before the one that times out.
  pub round_stops_before :
      (size made k : ℕ) (polls : ℕ → Option (Message P))
      → polls k ≡ none
      → made ≤ k
      → let b = collect_dlq_batch size polls made in
        (is_empty b.records && b.consumed == 0) ≡ false
        → ltb b.consumed size ≡ false
        → (b.left ≤ k) × (made < b.left)
  round_stops_before size made k polls quiet before busy full =
      let b = collect_dlq_batch size polls made in
      let all : size ≤ b.consumed = ground arith in
      let stop =
        full_stops_before size polls (empty_batch made) k quiet before (omega (arith, all)) in
      (
        stop.0,
        omega (
          arith,
          stop.1,
          busy_batch size made polls busy,
          consumed_bound size polls (empty_batch made),
        ),
      )

  -- A poll that gives a well-formed record.
  unfoldable pub is_record : Option (Message P) → Bool
  is_record none = false
  is_record (some m) = is_some m.value

  record-consume :
      (m : Message P) (b : Batch P)
      → is_some m.value ≡ true
      → length b.records ≡ b.consumed
      → length (consume m b).records ≡ (consume m b).consumed
  unfolding consume
  record-consume m b h same = elim (Option-cases m.value) [
    | inl e ↦ absurd (cc (h, e))
    | inr (v, e) ↦ rw e (
        omega (
          arith,
          length-append b.records
              (record { payload = v; partition = m.partition; offset = m.offset } ∷ []),
          same,
        ))
  ]

  pub records-collect :
      (n : ℕ) (polls : ℕ → Option (Message P)) (b : Batch P)
      → ((k : ℕ) → is_record (polls k) ≡ true)
      → length b.records ≡ b.consumed
      → length (collect n polls b).records ≡ (collect n polls b).consumed
  unfolding collect is_record
  records-collect zero polls b well same = same
  records-collect (suc n) polls b well same = elim (Option-cases (polls b.left)) [
    | inl e ↦ absurd (cc (well b.left, e))
    | inr (m, e) ↦
        let formed : is_some m.value ≡ true = subst (λ p. is_record p ≡ true) e (well b.left) in
        rw (collect_goes_on n polls b m e)
          (records-collect n polls (consume m b) well (record-consume m b formed same))
  ]

-- A chain of early returns, the last of which is under the negation of the second test.
pub chain_returns {ℓ} :
    {A : Type ℓ} (a c d : Bool) (x y : A) (rest : Option A)
    → (a ≡ false → c ≡ false → d ≡ false → is_some rest ≡ true)
    → is_some (if a then some x else if c then some x else if d then some y else rest) ≡ true
chain_returns a c d x y rest h = ground (arith, h)

pub chain_cases {ℓ κ} :
    {A : Type ℓ} (Q : A → Type κ) (a c d : Bool) (x y : A) (rest : Option A) (z : A)
    → Q x
    → (a ≡ false → Q y)
    → (a ≡ false → rest ≡ some z → Q z)
    → (if a then some x else if c then some x else if d then some y else rest) ≡ some z
    → Q z
chain_cases Q true c d x y rest z hx hy hr e = let same : x ≡ z = cc in subst Q same hx
chain_cases Q false true d x y rest z hx hy hr e = let same : x ≡ z = cc in subst Q same hx
chain_cases Q false false true x y rest z hx hy hr e =
    let same : y ≡ z = cc in subst Q same (hy refl)
chain_cases Q false false false x y rest z hx hy hr e = hr refl e

-- The records scanned so far and the limit that is left stay within the limit.
unfoldable pub is_within : Option ℕ → Option ℕ → ℕ → Bool
is_within none remaining n = true
is_within (some l) none n = false
is_within (some l) (some r) n = leb (n + r) l

pub starts_within : (limit : Option ℕ) → is_within limit limit 0 ≡ true
unfolding is_within
starts_within none = refl
starts_within (some l) = ground arith

pub within_limit :
    (limit rest : Option ℕ) (n : ℕ)
    → is_within limit rest n ≡ true
    → is_within limit (some 0) n ≡ true
unfolding is_within
within_limit none rest n h = refl
within_limit (some l) none n h = absurd cc
within_limit (some l) (some r) n h = ground arith
