-- ===== src/Process/StartTests.antt =====
-- Starts of a parent and of a child in the functions of privsep/src/process.rs.
use privsep_rs.Prelude.{
  All, ℕ, ◌≡◌, ◌⊎◌, refl, Bool, true, false, none, some, List, [], ◌∷◌, ◌++◌, if◌then◌else◌, Result,
  ok, err, arith,
}
use privsep_rs.Imsg.{from_stream}
use privsep_rs.Imsg.Header
use privsep_rs.Process.{Process}
use privsep_rs.Process.Handshake.{
  Introduction, introduce, initial_peers, result_of, start, connected,
}
use privsep_rs.Process.Parent
use privsep_rs.Process.Parent.{
  Fork, in_parent, in_child, Options, parent, became, failed, missing_parent, permission_denied,
  exec_of, parent_name, first_name,
}
use privsep_rs.Process.Forks.{peers_of, new-parent, new-child, new-refused}
use privsep_rs.Process.Privdrop
use privsep_rs.Process.UserLast.{Succeeds, IsDrop, privdrop-IsDrop}
use privsep_rs.Process.Privdrop.{
  other_unix, setuid, calls_before, with_saved_ids, User, Call, calls_of, privdrop_failed, privdrop,
  privdrop-outcome,
}
use privsep_rs.Process.Shutdown.{shutdown, shutdown-start}
use privsep_rs.Process.Handshake

abbrev processes : List Process
processes =
    record { name = parent_name; connect = false }
    ∷ record { name = 97 ∷ []; connect = true }
    ∷ record { name = 98 ∷ []; connect = true }
    ∷ []

-- The forks answer in the parent, but for the one of this index.
abbrev forks : Bool → ℕ → Result Parent.Error Fork
forks first n = if first then ok (in_parent 100) else ok (in_child (ok tt))

abbrev host : Bool → Parent.System
host parent_side = record {
  is_root = true;
  current_exe = ok (120 ∷ []);
  pair = λ n. ok (from_stream n);
  fork = forks parent_side;
  sigpipe = ok tt;
  this = 99;
  rust_log = none;
}

abbrev options : Options
options = record { disable_privdrop = false; foreground = true; log_level = none }

new-parent_run :
    Parent.new (host true) options processes
    ≡ parent 99 (peers_of (host true) options 0 processes (λ n. from_stream n) (λ n. 100))
new-parent_run =
    new-parent (host true) options (120 ∷ []) processes (λ n. from_stream n) (λ n. 100) refl refl
      refl (tt, ((refl, refl), ((refl, refl), tt))) refl

new-child_run :
    Parent.new (host false) options ([] ++ (record { name = parent_name; connect = true } ∷ []))
    ≡ became
        (exec_of (host false) options (120 ∷ []) (record { name = parent_name; connect = true }))
new-child_run =
    new-child (host false) options (120 ∷ []) [] [] (record { name = parent_name; connect = true })
      (λ n. from_stream n) (λ n. 100) (from_stream 0) refl refl refl tt refl refl refl

new-refused_run : Parent.new (host true) options [] ≡ failed missing_parent
new-refused_run = new-refused (host true) options [] refl

abbrev user : User
user = record { dir = 47 ∷ []; uid = 7; gid = 8 }

abbrev machine : Privdrop.System
machine = record {
  target = with_saved_ids;
  from_name = λ name. ok (some user);
  is_dir = λ dir. true;
  call = λ c. ok tt;
}

abbrev fails_at_setuid : Call → Result ℕ (Unit {0})
fails_at_setuid (setuid uid) = err 1
fails_at_setuid _ = ok tt

-- A system on which the second call for the user id fails.
abbrev other_machine : Privdrop.System
other_machine = record {
  target = other_unix;
  from_name = λ name. ok (some user);
  is_dir = λ dir. false;
  call = fails_at_setuid;
}

privdrop-IsDrop_example :
    All (Succeeds other_machine) (privdrop other_machine false (117 ∷ [])).0
    × ((IsDrop other_machine user (privdrop other_machine false (117 ∷ [])).0
          × ((privdrop other_machine false (117 ∷ [])).1 ≡ ok tt))
        ⊎ ((c : Call) × (after : List Call) × (errno : ℕ) × IsDrop other_machine user
              ((privdrop other_machine false (117 ∷ [])).0 ++ (c ∷ after))
            × (other_machine.call c ≡ err errno)
            × ((privdrop other_machine false (117 ∷ [])).1 ≡ err (privdrop_failed c errno))))
privdrop-IsDrop_example = privdrop-IsDrop other_machine (117 ∷ []) user refl

privdrop-outcome_run :
    (privdrop machine false (117 ∷ []) ≡ (calls_of machine user, ok tt))
    ⊎ ((before : List Call) × (c : Call) × (after : List Call) × (errno : ℕ) × (calls_of machine
            user
          ≡ before ++ (c ∷ after))
        × (machine.call c ≡ err errno)
        × (privdrop machine false (117 ∷ []) ≡ (before, err (privdrop_failed c errno))))
privdrop-outcome_run = privdrop-outcome machine (117 ∷ []) user refl

abbrev system : Handshake.System
system = record { is_open = λ fd. ok tt; from_raw_fd = λ fd. ok (from_stream fd) }

abbrev introduction : Introduction system
introduction = record {
  message = Header.connect 1 2;
  fd = 20;
  handler = from_stream 20;
  is_connect = refl;
  adopted = refl;
}

-- The table of the first child, which waits for the second one.
abbrev own : List Process
own =
    record { name = parent_name; connect = true }
    ∷ record { name = 97 ∷ []; connect = false }
    ∷ record { name = 98 ∷ []; connect = true }
    ∷ []

shutdown-start_example :
    (start system (from_stream 3) 1 own (result_of system introduction ∷ [])
      ≡ connected (introduce system (introduction ∷ []) (initial_peers (from_stream 3) 1 own)))
    × ((shutdown
          (introduce system (introduction ∷ []) (initial_peers (from_stream 3) 1 own))).panicked
        ≡ true)
unfolding Handshake.wait_connections
shutdown-start_example =
    shutdown-start system (from_stream 3) 1 (record { name = parent_name; connect = true })
      (record { name = 97 ∷ []; connect = false } ∷ record { name = 98 ∷ []; connect = true } ∷ [])
      (introduction ∷ []) [] 1 (omega arith) (omega arith) (refl, tt) (λ x. refl) refl
