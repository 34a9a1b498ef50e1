-- ===== src/History/Keys.antt =====
-- The uniqueness rules of the tables hold along every history.
use opencode_gateway.Prelude.{
  ℕ, ◌≤◌, String, ◌≡◌, refl, subst, ◌⊎◌, inl, inr, Bool, true, false, Option, some, List, [], ◌∷◌,
  ◌++◌, arith, nat_eq, string_eq, option_eq, list_eq, Option-cases, ℕ_discrete, length,
  length-filter_none, length-filter-append, filter, any,
}
use opencode_gateway.Domain.{ChangeRequest, is_terminal}
use opencode_gateway.Store.{
  Binding, Run, Db, empty, has_id, claims, has_job, find_run, find_binding,
}
use opencode_gateway.Lifecycle.{
  set_title, update_afk_run, set_change_request, bind_change_request, apply_change_request_binding,
}
use opencode_gateway.Lifecycle.Frame.{apply_cases}
use opencode_gateway.Lifecycle.Ownership.{apply-OneToOne, apply-PrimaryKey}
use opencode_gateway.Provisioning.{Provision, has_key}
use opencode_gateway.Provisioning.Keys.{IsKeyed, provision-IsKeyed}
use opencode_gateway.Creation.{CreateRequest, new_binding}
use opencode_gateway.Creation.Frame.{create_keeps}
use opencode_gateway.Terminal.{
  UpdateRequest, stored_terminal, rejected, merged, write_binding, transition,
}
use opencode_gateway.Terminal.Frame.{update_keeps}
use opencode_gateway.Checkpoints.{create_checkpoint}
use opencode_gateway.History.{Reach, IsKept, Reach_induction}
use opencode_gateway.History.Bindings.{IsKept-bindings}

has_key-set_change_request :
    (i : String) (p : Provision) (c : ChangeRequest) (rs : List Run)
    → length (filter (has_key p) (set_change_request i c rs)) ≡ length (filter (has_key p) rs)
unfolding filter set_change_request has_key
has_key-set_change_request i p c [] = refl
has_key-set_change_request i p c (r ∷ rs) = ground (arith, has_key-set_change_request i p c rs)

-- A new title changes no key.
filter-set_title :
    (t : Run → Bool) (i : String) (title : Option String) (rs : List Run)
    → ((r : Run) → t (record r { title = title }) ≡ t r)
    → length (filter t (set_title i title rs)) ≡ length (filter t rs)
unfolding filter set_title
filter-set_title t i title [] same = refl
filter-set_title t i title (r ∷ rs) same =
    ground (arith, same r, filter-set_title t i title rs same)

filter-write_binding :
    (job other : ℕ) (q : UpdateRequest) (bs : List Binding)
    → length (filter (has_job job) (write_binding other (merged q) bs))
      ≡ length (filter (has_job job) bs)
unfolding filter write_binding merged
filter-write_binding job other q [] = refl
filter-write_binding job other q (b ∷ bs) = ground (arith, filter-write_binding job other q bs)

insert-one_job :
    (q : CreateRequest) (run : String) (other i job : ℕ) (bs : List Binding)
    → any (has_job other) bs ≡ false
    → length (filter (has_job job) bs) ≤ 1
    → length (filter (has_job job) (bs ++ new_binding q run other i ∷ [])) ≤ 1
unfolding filter new_binding
insert-one_job q run other i job bs free h = elim (ℕ_discrete other job) [
  | yes e ↦
      subst (λ j. length (filter (has_job j) (bs ++ new_binding q run other i ∷ [])) ≤ 1) e
        (rw
          (
            length-filter-append (has_job other) bs (new_binding q run other i ∷ []),
            length-filter_none (has_job other) bs free,
          )
          (ground arith))
  | no e ↦ ground (arith, length-filter-append (has_job job) bs (new_binding q run other i ∷ []))
]

abbrev pub Keyed : Db → Type 0
Keyed e = IsKeyed e.runs

apply-key :
    (between : Db → Db) (i : String) (c run : ChangeRequest) (db : Db) (p : Provision)
    → length (filter (has_key p) db.runs) ≤ 1
    → length (filter (has_key p) (between db).runs) ≤ 1
    → length (filter (has_key p) (apply_change_request_binding between i c run db).0.runs) ≤ 1
apply-key between i c run db p h k = elim (apply_cases between i c run db) [
  | inl same ↦ rw same h
  | inr (inl other) ↦ rw other k
  | inr (inr new) ↦ rw (new, has_key-set_change_request i p c (between db).runs) k
]

pub apply-IsKeyed_at :
    (between : Db → Db) (i : String) (c run : ChangeRequest) (db : Db)
    → Keyed db
    → Keyed (between db)
    → Keyed (apply_change_request_binding between i c run db).0
apply-IsKeyed_at between i c run db h k = record {
  id = apply-PrimaryKey between i c run db h.id k.id;
  key = λ p. apply-key between i c run db p (h.key p) (k.key p);
  owner = apply-OneToOne between i c run db h.owner k.owner;
}

apply-IsKeyed :
    (between : Db → Db) (i : String) (c run : ChangeRequest) (db : Db)
    → ((e : Db) → Keyed e → Keyed (between e))
    → Keyed db
    → Keyed (apply_change_request_binding between i c run db).0
apply-IsKeyed between i c run db keep h = apply-IsKeyed_at between i c run db h (keep db h)

bind-IsKeyed :
    (between : Db → Db) (i : String) (c : ChangeRequest) (db : Db)
    → ((e : Db) → Keyed e → Keyed (between e))
    → Keyed db
    → Keyed (bind_change_request between i c db).0
unfolding bind_change_request
bind-IsKeyed between i c db keep h = elim (Option-cases (find_run i db.runs)) [
  | inl lost ↦ rw (lost, bind_change_request) h
  | inr (r, there) ↦
      rw (there, bind_change_request) (apply-IsKeyed between i c r.change_request db keep h)
]

set_title-IsKeyed :
    (i : String) (title : Option String) (rs : List Run)
    → IsKeyed rs
    → IsKeyed (set_title i title rs)
unfolding has_key
set_title-IsKeyed i title rs h = record {
  id = λ j. rw (filter-set_title (has_id j) i title rs (λ r. refl)) (h.id j);
  key = λ p. rw (filter-set_title (has_key p) i title rs (λ r. refl)) (h.key p);
  owner = λ c. rw (filter-set_title (claims c) i title rs (λ r. refl)) (h.owner c);
}

pub retitle_cases :
    (i : String) (title : Option String) (given : Bool) (db : Db)
    → ((update_afk_run i title given db).0.runs ≡ db.runs)
      ⊎ ((update_afk_run i title given db).0.runs ≡ set_title i title db.runs)
unfolding update_afk_run
retitle_cases i title given db = ground arith

pub checkpoint-runs :
    (job : ℕ) (ref sha : String) (db : Db) → (create_checkpoint job ref sha db).0.runs ≡ db.runs
unfolding create_checkpoint
checkpoint-runs job ref sha db = ground arith

pub Keyed-IsKept : IsKept Keyed
unfolding transition
Keyed-IsKept = record {
  on_provision =
      λ between p db after r keep e h. provision-IsKeyed between p db after r h (keep db h) e;
  on_retitle = λ i title given db h. elim (retitle_cases i title given db) [
    | inl same ↦ rw same h
    | inr new ↦ rw new (set_title-IsKeyed i title db.runs h)
  ];
  on_bind = bind-IsKeyed;
  on_create = λ world q run job db keep still later h.
      create_keeps Keyed apply-IsKeyed world q run job db keep still (λ r found fine free k. k) h;
  on_update = λ between q job db final locked keep h.
      update_keeps Keyed apply-IsKeyed between q job db keep (λ b found live fine free k. k) h;
  on_checkpoint = λ job ref sha db h. rw (checkpoint-runs job ref sha db) h;
}

pub IsKeyed-nil : IsKeyed []
unfolding filter
IsKeyed-nil = record { id = λ i. omega arith; key = λ p. omega arith; owner = λ c. omega arith }

-- Along every history from the empty tables, run ids, provisioning keys and change requests are
-- each held by at most one lifecycle.
pub runs_stay_unique : {db : Db} → Reach empty db → IsKeyed db.runs
runs_stay_unique r = Reach_induction Keyed-IsKept r IsKeyed-nil

-- UNIQUE (awx_job_id)
abbrev OneJob : List Binding → Type 0
OneJob bs = (job : ℕ) → length (filter (has_job job) bs) ≤ 1

OneJob-nil : OneJob []
unfolding filter
OneJob-nil job = omega arith

-- Along every history from the empty tables, an AWX job has at most one execution binding.
pub jobs_stay_unique :
    {db : Db} → Reach empty db → (job : ℕ) → length (filter (has_job job) db.bindings) ≤ 1
jobs_stay_unique r = Reach_induction (IsKept-bindings OneJob insert write) r nothing
  where
    insert :
        (q : CreateRequest) (run : String) (other i : ℕ) (bs : List Binding)
        → any (has_job other) bs ≡ false
        → OneJob bs
        → OneJob (bs ++ new_binding q run other i ∷ [])
    insert q run other i bs free h job = insert-one_job q run other i job bs free (h job)

    write :
        (q : UpdateRequest) (other : ℕ) (b : Binding) (bs cs : List Binding)
        → is_terminal q.outcome ≡ true
        → find_binding other bs ≡ some b
        → stored_terminal b ≡ false
        → rejected q b ≡ false
        → OneJob bs
        → OneJob cs
        → OneJob (write_binding other (merged q) cs)
    write q other b bs cs ends found live fine h k job =
        rw (filter-write_binding job other q cs) (k job)

    nothing : OneJob []
    nothing job = OneJob-nil job
