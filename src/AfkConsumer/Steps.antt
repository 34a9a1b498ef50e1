-- ===== src/AfkConsumer/Steps.antt =====
-- One message of the poll loop, in each state that a partition reaches.
use opencode_gateway.Prelude.{
  ℕ, ◌+◌, ◌<◌, ◌≡◌, refl, ap, true, false, List, [], ◌∷◌, arith, nat_eq, ◌==◌,
}
use opencode_gateway.Prelude.Dict.{get, put, put_items, put_least}
use opencode_gateway.AfkConsumer.Frontier.{
  Frontier, follows, advance, mark_committable, mark_blocked, safe_offset, commit_offsets, commit,
  Ending, poll,
}

same_test : (n : ℕ) → n == n ≡ true
same_test n = ground arith

-- A frontier with what it may commit, and the block.
abbrev pub frontier : List (ℕ × ℕ) → List (ℕ × ℕ) → List (ℕ × ℕ) → Frontier
frontier cm bl cd = record { committable = cm; blocked = bl; committed = cd }

pub settle_first :
    (tp offset : ℕ) (cd : List (ℕ × ℕ))
    → poll tp offset Ending.settled (frontier [] [] cd)
      ≡ frontier ((tp, offset) ∷ []) [] (put tp (offset + 1) cd)
unfolding poll commit mark_committable advance follows commit_offsets safe_offset get put put_items
settle_first tp offset cd = refl

pub settle_next :
    (tp c : ℕ) (cd : List (ℕ × ℕ))
    → poll tp (c + 1) Ending.settled (frontier ((tp, c) ∷ []) [] cd)
      ≡ frontier ((tp, c + 1) ∷ []) [] (put tp (c + 1 + 1) cd)
unfolding poll commit mark_committable advance follows commit_offsets safe_offset get put put_items
settle_next tp c cd = rw (same_test tp) (rw (same_test (c + 1)) refl)

-- A message behind a gap does not move the commit.
pub settle_apart :
    (tp offset c : ℕ) (cd : List (ℕ × ℕ))
    → c + 1 < offset
    → poll tp offset Ending.settled (frontier ((tp, c) ∷ []) [] cd)
      ≡ frontier ((tp, c) ∷ []) [] (put tp (c + 1) cd)
unfolding poll commit mark_committable advance follows commit_offsets safe_offset get put_items
settle_apart tp offset c cd h =
    let apart : offset == c + 1 ≡ false = ground (arith, h) in rw (same_test tp) (rw apart refl)

pub raise_first :
    (tp offset : ℕ) (cm cd : List (ℕ × ℕ))
    → poll tp offset Ending.raised (frontier cm [] cd) ≡ frontier cm ((tp, offset) ∷ []) cd
unfolding poll mark_blocked put_least get put
raise_first tp offset cm cd = refl

kept_block : (tp offset b : ℕ) → b < offset → put_least tp offset ((tp, b) ∷ []) ≡ (tp, b) ∷ []
unfolding put_least get put
kept_block tp offset b h = ground (arith, h)

pub raise_again :
    (tp offset b : ℕ) (cm cd : List (ℕ × ℕ))
    → b < offset
    → poll tp offset Ending.raised (frontier cm ((tp, b) ∷ []) cd) ≡ frontier cm ((tp, b) ∷ []) cd
unfolding poll mark_blocked
raise_again tp offset b cm cd h =
    ap (λ (bl : List (ℕ × ℕ)). frontier cm bl cd) (kept_block tp offset b h)

not_marked :
    (tp offset b : ℕ) (cm cd : List (ℕ × ℕ))
    → b < offset
    → mark_committable tp offset (frontier cm ((tp, b) ∷ []) cd) ≡ frontier cm ((tp, b) ∷ []) cd
unfolding mark_committable get
not_marked tp offset b cm cd h = ground (arith, h)

pub settle_behind :
    (tp offset b : ℕ) (cm cd : List (ℕ × ℕ))
    → b < offset
    → poll tp offset Ending.settled (frontier cm ((tp, b) ∷ []) cd)
      ≡ commit (frontier cm ((tp, b) ∷ []) cd)
unfolding poll
settle_behind tp offset b cm cd h = ap commit (not_marked tp offset b cm cd h)

pub commit_nothing : (bl cd : List (ℕ × ℕ)) → commit (frontier [] bl cd) ≡ frontier [] bl cd
unfolding commit commit_offsets put_items
commit_nothing bl cd = refl

offset_before :
    (tp c b : ℕ) → c < b → commit_offsets ((tp, b) ∷ []) ((tp, c) ∷ []) ≡ (tp, c + 1) ∷ []
unfolding commit_offsets safe_offset get
offset_before tp c b h = ground (arith, h)

pub commit_before :
    (tp c b : ℕ) (cd : List (ℕ × ℕ))
    → c < b
    → commit (frontier ((tp, c) ∷ []) ((tp, b) ∷ []) cd)
      ≡ frontier ((tp, c) ∷ []) ((tp, b) ∷ []) (put tp (c + 1) cd)
unfolding commit put_items
commit_before tp c b cd h =
    ap (λ (items : List (ℕ × ℕ)). frontier ((tp, c) ∷ []) ((tp, b) ∷ []) (put_items items cd))
      (offset_before tp c b h)
