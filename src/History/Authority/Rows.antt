-- ===== src/History/Authority/Rows.antt =====
-- The authority of the rows that the two writes of `execution_bindings` leave.
use opencode_gateway.Prelude.{
  ℕ, String, ◌≡◌, refl, sym, ap, subst, ◌∙◌, ◌⊎◌, inl, inr, Bool, true, false, not, Option, some,
  List, [], ◌∷◌, ◌++◌, arith, nat_eq, string_eq, option_eq, list_eq, is_some, Bool-cases,
  Option-cases, ℕ_discrete, any-find, find-append, find-append_found, find?, any,
}
use opencode_gateway.Domain.{Provider, ChangeRequest, change_request_eq}
use opencode_gateway.Store.{Run, Binding, Db, has_job, find_run, find_binding}
use opencode_gateway.Lifecycle.{owns, apply_change_request_binding}
use opencode_gateway.Lifecycle.Ownership.{owned, apply-conflict}
use opencode_gateway.Creation.{CreateRequest, new_binding, bind_resource}
use opencode_gateway.Creation.Frame.{inserted}
use opencode_gateway.Terminal.{UpdateRequest, merged, write_binding, authorise}
use opencode_gateway.Terminal.Transition.{find-write_other, find-write_self}
use opencode_gateway.History.Keys.{Keyed}
use opencode_gateway.History.Authority.{
  authorised, authorised_orphan, authorised_bare, authorised_owner, AllAuthorised,
}

-- A resource that was bound without a conflict is what the lifecycle holds.
pub bound_owns :
    (between : Db → Db) (q : CreateRequest) (i : String) (r : Run) (db : Db)
    → Keyed db
    → Keyed (between db)
    → find_run i db.runs ≡ some r
    → is_some q.provider ≡ true
    → (bind_resource between q i r db).1 ≡ false
    → owns i
        (record {
          provider = q.provider;
          repository = q.repository;
          external_id = q.resource_number;
        })
        (bind_resource between q i r db).0
      ≡ true
unfolding bind_resource
bound_owns between q i r db h k there given fine = elim (Option-cases q.provider) [
  | inl bare ↦ cc
  | inr (p, named_one) ↦
      let c : ChangeRequest = record {
        provider = some p;
        repository = q.repository;
        external_id = q.resource_number;
      } in
      let exact = apply-conflict between i c db r h.id k.id refl there in ground (arith, exact)
]

pub new_authorised :
    (q : CreateRequest) (run : String) (job i : ℕ) (rs : List Run)
    → (is_some q.provider ≡ true
        → owned run
            (record {
              provider = q.provider;
              repository = q.repository;
              external_id = q.resource_number;
            })
            rs
          ≡ true)
    → authorised rs (new_binding q run job i) ≡ true
unfolding authorised new_binding
new_authorised q run job i rs h = ground (arith, h)

pub find_single : (job : ℕ) (x b : Binding) → find? (has_job job) (x ∷ []) ≡ some b → b ≡ x
unfolding find?
find_single job x b h = ground arith

pub find_inserted :
    (q : CreateRequest) (run : String) (other i job : ℕ) (b : Binding) (bs : List Binding)
    → any (has_job other) bs ≡ false
    → find_binding job (bs ++ new_binding q run other i ∷ []) ≡ some b
    → (find_binding job bs ≡ some b) ⊎ (b ≡ new_binding q run other i)
unfolding find_binding
find_inserted q run other i job b bs free found = elim (Bool-cases (any (has_job job) bs)) [
  | inl old ↦ elim (Option-cases (find? (has_job job) bs)) [
    | inl absent ↦ let kept = any-find (has_job job) bs in ground arith
    | inr (x, there) ↦
        let kept = find-append_found (has_job job) bs (new_binding q run other i ∷ []) x there in
        inl (ground arith)
  ]
  | inr fresh ↦
      let later = find-append (has_job job) bs (new_binding q run other i ∷ []) fresh in
      inr (find_single job (new_binding q run other i) b (sym later ∙ found))
]

pub insert_authority :
    (q : CreateRequest) (run : String) (job : ℕ) (e : Db)
    → any (has_job job) e.bindings ≡ false
    → authorised e.runs (new_binding q run job e.next_id) ≡ true
    → AllAuthorised e.runs e.bindings
    → AllAuthorised e.runs (inserted q run job e).bindings
insert_authority q run job e free new h other b found =
    elim (find_inserted q run job e.next_id other b e.bindings free found) [
      | inl old ↦ h other b old
      | inr fresh ↦ rw fresh new
    ]

pub merged_named : (q : UpdateRequest) (b : Binding) → (merged q b).afk_run_id ≡ b.afk_run_id
unfolding merged
merged_named q b = refl

pub holds_of : (conflict held : Bool) → conflict ≡ not held → conflict ≡ false → held ≡ true
holds_of conflict held e f = ground arith

abbrev pub resource : UpdateRequest → Binding → Option Provider → ChangeRequest
resource q b o = record {
  provider = o;
  repository = (merged q b).repository_url;
  external_id = (merged q b).entity_number;
}

pub authorise_step :
    (between : Db → Db) (q : UpdateRequest) (b : Binding) (db : Db) (run : String) (p : Provider)
    (r : Run)
    → b.afk_run_id ≡ some run
    → (merged q b).provider ≡ some p
    → find_run run db.runs ≡ some r
    → let bind =
        apply_change_request_binding between run (resource q b (some p)) r.change_request db in
      authorise between q b db ≡ (bind.0, bind.1.is_conflict)
unfolding authorise merged
authorise_step between q b db run p r owner given there = rw (owner, given, there, authorise) refl

-- What the authority step leaves behind, if it finds no conflict.
pub authorise_owns :
    (between : Db → Db) (q : UpdateRequest) (b : Binding) (db : Db)
    → Keyed db
    → Keyed (between db)
    → (authorise between q b db).1 ≡ false
    → authorised (authorise between q b db).0.runs (merged q b) ≡ true
unfolding authorise owns
authorise_owns between q b db h k fine = elim (Option-cases b.afk_run_id) [
  | inl legacy ↦ authorised_orphan _ (merged q b) (merged_named q b ∙ legacy)
  | inr (run, owner) ↦ elim (Option-cases (merged q b).provider) [
    | inl bare ↦ authorised_bare _ (merged q b) bare
    | inr (p, given) ↦ elim (Option-cases (find_run run db.runs)) [
      | inl orphan ↦ ground arith
      | inr (r, there) ↦
          let step = authorise_step between q b db run p r owner given there in
          let exact =
            apply-conflict between run (resource q b (some p)) db r h.id k.id refl there in
          let free = ap (λ (x : Db × Bool). x.1) (sym step) ∙ fine in
          let holds = holds_of _ _ exact free in
          authorised_owner _ (merged q b) run (merged_named q b ∙ owner) (
            subst (λ o. owned run (resource q b o) (authorise between q b db).0.runs ≡ true)
              (sym given) (rw step holds))
    ]
  ]
]

pub write_authority :
    (q : UpdateRequest) (job : ℕ) (b : Binding) (rs : List Run) (bs : List Binding)
    → find_binding job bs ≡ some b
    → authorised rs (merged q b) ≡ true
    → AllAuthorised rs bs
    → AllAuthorised rs (write_binding job (merged q) bs)
write_authority q job b rs bs there new h other x found = elim (ℕ_discrete other job) [
  | yes same ↦
      let here = find-write_self job q bs b there in
      let written_row : merged q b ≡ x = cc in subst (λ y. authorised rs y ≡ true) written_row new
  | no differ ↦ h other x (sym (find-write_other job other q bs differ) ∙ found)
]
