-- ===== src/Process/ChildTests.antt =====
-- A child of privsep/src/process.rs that starts up to the wait for its peers.
use privsep_rs.Prelude.{refl, true, false, some, List, [], ◌∷◌, ok, arith}
use privsep_rs.Imsg.{from_stream}
use privsep_rs.Process.{Process}
use privsep_rs.Process.Privdrop.{with_saved_ids, User, Call}
use privsep_rs.Process.UserLast.{IsDrop}
use privsep_rs.Process.Parent.{parent_name}
use privsep_rs.Process.Child.{System, new}
use privsep_rs.Process.ChildOrder.{Staged, preparation, Waits, new-Staged}

abbrev user : User
user = record { dir = 47 ∷ []; uid = 7; gid = 8 }

abbrev system : System
system = record {
  getfd = λ fd. ok false;
  setfd = λ fd flag. ok tt;
  from_raw_fd = λ fd. ok (from_stream fd);
  privdrop = record {
    target = with_saved_ids;
    from_name = λ name. ok (some user);
    is_dir = λ dir. true;
    call = λ c. ok tt;
  };
  sigpipe = ok tt;
  handshake = record { is_open = λ fd. ok tt; from_raw_fd = λ fd. ok (from_stream fd) };
  parent_pid = 1;
}

abbrev processes : List Process
processes =
    record { name = parent_name; connect = true } ∷ record { name = 97 ∷ []; connect = false } ∷ []

new-Staged_example :
    (calls : List Call) × IsDrop system.privdrop user calls
    × Staged system
        (preparation calls)
        (Waits system user (117 ∷ []) refl processes [])
        (new system processes false (117 ∷ []) [] 2)
new-Staged_example =
    new-Staged system user (117 ∷ []) refl processes [] 2
      (record { name = parent_name; connect = true })
      (record { name = 97 ∷ []; connect = false } ∷ []) refl (omega arith)
