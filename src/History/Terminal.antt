-- ===== src/History/Terminal.antt =====
-- The history of execution bindings is never overwritten.
use opencode_gateway.Prelude.{
  ℕ, String, ◌≡◌, true, false, some, List, [], ◌∷◌, ◌++◌, nat_eq, string_eq, option_eq, list_eq,
  ℕ_discrete, find-append_found, any,
}
use opencode_gateway.Domain.{is_terminal}
use opencode_gateway.Store.{Binding, Db, has_job, find_binding}
use opencode_gateway.Creation.{CreateRequest, new_binding}
use opencode_gateway.Terminal.{UpdateRequest, stored_terminal, rejected, merged, write_binding}
use opencode_gateway.Terminal.Transition.{find-write_other}
use opencode_gateway.History.{Reach, Reach_induction}
use opencode_gateway.History.Bindings.{IsKept-bindings}

-- A terminal binding reads back unchanged after any history of calls, whatever their arguments.
pub terminal_row_stays :
    (job : ℕ) (b : Binding) {before after : Db}
    → stored_terminal b ≡ true
    → Reach before after
    → find_binding job before.bindings ≡ some b
    → find_binding job after.bindings ≡ some b
terminal_row_stays job b final =
    Reach_induction (IsKept-bindings (λ bs. find_binding job bs ≡ some b) insert write)
  where
    insert :
        (q : CreateRequest) (run : String) (other i : ℕ) (bs : List Binding)
        → any (has_job other) bs ≡ false
        → find_binding job bs ≡ some b
        → find_binding job (bs ++ new_binding q run other i ∷ []) ≡ some b
    insert q run other i bs free h = unfold find_binding in find-append_found (has_job job) bs _ b h

    write :
        (q : UpdateRequest) (other : ℕ) (b' : Binding) (bs cs : List Binding)
        → is_terminal q.outcome ≡ true
        → find_binding other bs ≡ some b'
        → stored_terminal b' ≡ false
        → rejected q b' ≡ false
        → find_binding job bs ≡ some b
        → find_binding job cs ≡ some b
        → find_binding job (write_binding other (merged q) cs) ≡ some b
    write q other b' bs cs ends found live fine h k = elim (ℕ_discrete job other) [
      | yes same ↦ cc
      | no differ ↦ rw (find-write_other other job q cs differ) k
    ]
