-- ===== src/History/Authority/Invariant.antt =====
-- The authority along the histories.
use opencode_gateway.Prelude.{
  ℕ, String, ◌≡◌, true, false, some, nat_eq, string_eq, option_eq, list_eq, find?, any,
}
use opencode_gateway.Domain.{change_request_eq}
use opencode_gateway.Store.{Run, Binding, Db, empty, has_job, find_run, find_binding}
use opencode_gateway.Lifecycle.{owns}
use opencode_gateway.Provisioning.Keys.{provision-IsKeyed}
use opencode_gateway.Creation.{CreateRequest, Interference, bind_resource}
use opencode_gateway.Creation.Frame.{inserted, create_keeps}
use opencode_gateway.Terminal.{UpdateRequest, transition, authorise}
use opencode_gateway.Terminal.Frame.{update_keeps}
use opencode_gateway.Terminal.Transition.{IsLocked, authorise-find}
use opencode_gateway.History.{Reach, IsKept, Reach_induction}
use opencode_gateway.History.Bindings.{create_checkpoint-bindings}
use opencode_gateway.History.Keys.{IsKeyed-nil, Keyed, Keyed-IsKept, checkpoint-runs}
use opencode_gateway.History.Ownership.{ownership_stays}
use opencode_gateway.History.Authority.{authorised, IsConsistent}
use opencode_gateway.History.Authority.Runs.{
  apply_authority, bind_authority, provision_authority, retitle_authority,
}
use opencode_gateway.History.Authority.Rows.{
  bound_owns, new_authorised, insert_authority, authorise_owns, write_authority,
}

-- Every write keeps the authority.
update-IsConsistent :
    (between : Db → Db) (q : UpdateRequest) (job : ℕ) (b : Binding) (db : Db)
    → IsLocked job between
    → find_binding job db.bindings ≡ some b
    → (authorise between q b db).1 ≡ false
    → Keyed db
    → Keyed (between db)
    → IsConsistent (authorise between q b db).0
    → IsConsistent (transition q job b (authorise between q b db).0)
unfolding transition
update-IsConsistent between q job b db locked found free h k after = record {
  keys = after.keys;
  authority =
      write_authority q job b (authorise between q b db).0.runs
        (authorise between q b db).0.bindings (authorise-find between q job b db locked found)
        (authorise_owns between q b db h k free) after.authority;
}

create-IsConsistent :
    (world : Interference) (q : CreateRequest) (run : String) (job : ℕ) (r : Run) (db : Db)
    → ((e : Db) → Reach e (world.before_insert e))
    → find_run run db.runs ≡ some r
    → (bind_resource world.in_binding q run r db).1 ≡ false
    → Keyed db
    → Keyed (world.in_binding db)
    → let e = world.before_insert (bind_resource world.in_binding q run r db).0 in
      any (has_job job) e.bindings ≡ false → IsConsistent e → IsConsistent (inserted q run job e)
unfolding owns
create-IsConsistent world q run job r db later there fine h k free after =
    let a = (bind_resource world.in_binding q run r db).0 in
    let e = world.before_insert a in
    record {
      keys = after.keys;
      authority =
          insert_authority q run job e free
            (new_authorised q run job e.next_id e.runs (λ given.
              ownership_stays run _ given
                (bound_owns world.in_binding q run r db h k there given fine) (later a)))
            after.authority;
    }

IsConsistent-IsKept : IsKept IsConsistent
IsConsistent-IsKept = record {
  on_provision = λ between p db after r keep e h. record {
    keys = provision-IsKeyed between p db after r h.keys (keep db h).keys e;
    authority = provision_authority between p db after r e h.authority (keep db h).authority;
  };
  on_retitle = λ i title given db h. record {
    keys = Keyed-IsKept.on_retitle i title given db h.keys;
    authority = retitle_authority i title given db h.authority;
  };
  on_bind = bind_authority;
  on_create = λ world q run job db keep still later h.
      create_keeps IsConsistent apply_authority world q run job db keep still
        (λ r found fine free k.
          create-IsConsistent world q run job r db later found fine h.keys (keep db h).keys free k)
        h;
  on_update = λ between q job db final locked keep h.
      update_keeps IsConsistent apply_authority between q job db keep
        (λ b found live fine free k.
          update-IsConsistent between q job b db locked found free h.keys (keep db h).keys k)
        h;
  on_checkpoint = λ job ref sha db h. record {
    keys = Keyed-IsKept.on_checkpoint job ref sha db h.keys;
    authority =
        rw (checkpoint-runs job ref sha db, create_checkpoint-bindings job ref sha db) h.authority;
  };
}

IsConsistent-empty : IsConsistent empty
unfolding find_binding find?
IsConsistent-empty = record { keys = IsKeyed-nil; authority = λ job b found. cc }

-- Along every history from the empty tables, an execution binding that has a lifecycle and a
-- provider names exactly the change request that its lifecycle holds.
pub bindings_stay_authorised :
    {db : Db}
    → Reach empty db
    → (job : ℕ) (b : Binding) → find_binding job db.bindings ≡ some b
    → authorised db.runs b ≡ true
bindings_stay_authorised history job b found =
    (Reach_induction IsConsistent-IsKept history IsConsistent-empty).authority job b found
