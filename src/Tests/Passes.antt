-- ===== src/Tests/Passes.antt =====
-- The reconciliation pass at a concrete input.
use opencode_gateway.Prelude.{ℕ, zero, suc, ap, String, Option, some, ◌≡◌, refl}
use Prim.Native.Char.{nul}
use opencode_gateway.Store.{find_binding}
use opencode_gateway.Terminal.{stored_terminal, merged}
use opencode_gateway.Reconciler.{Texts, Answer, settle_all}
use opencode_gateway.Reconciler.Pass.{pass_keeps_terminal}
use opencode_gateway.Tests.Data.{idle, quiet, finished_is_stored, finished_db, finished_row}

-- Numbers in unary, in place of Python's decimal ones.
abbrev show_unary : ℕ → String
show_unary zero = ""
show_unary (suc n) = String.◌∷◌ nul (show_unary n)

abbrev ticks : String → ℕ
ticks String.[] = 0
ticks (String.◌∷◌ c s) = suc (ticks s)

abbrev parse_unary : String → Option ℕ
parse_unary s = some (ticks s)

abbrev unary : Texts
unary = record { strip_lower = λ s. s; show_int = show_unary; parse_int = parse_unary }

abbrev awx : ℕ → Answer
awx n = Answer.state (record { status = "failed"; finished_at = some 30 })

ticks-show_unary : (n : ℕ) → ticks (show_unary n) ≡ n
ticks-show_unary zero = refl
ticks-show_unary (suc n) = ap suc (ticks-show_unary n)

round_trip : (n : ℕ) → unary.parse_int (unary.show_int n) ≡ some n
round_trip n = ap some (ticks-show_unary n)

pass_keeps_terminal_example :
    find_binding 7 (settle_all unary (λ n. idle) awx finished_db.bindings finished_db).0.bindings
    ≡ some finished_row
unfolding stored_terminal merged
pass_keeps_terminal_example =
    pass_keeps_terminal unary (λ n. idle) awx finished_db.bindings finished_db 7 finished_row
      round_trip (λ n e. quiet e) (λ n e. refl) refl finished_is_stored
