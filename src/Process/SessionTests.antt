-- ===== src/Process/SessionTests.antt =====
-- A daemon of privsep/src/process.rs that closes its standard descriptors.
use privsep_rs.Prelude.{
  ℕ, zero, suc, ◌≤◌, List, Bool, Result, err, ◌≡◌, ◌≢◌, ◌⊎◌, true, false, [], ◌∷◌, ok, arith, refl,
}
use privsep_rs.Fd.Table.{bound, table, table-IsKernel}
use privsep_rs.Process.Inherit.{ChildSide, child_side, child_side-Inherits}
use privsep_rs.Process.Child.{privsep_fd}
use privsep_rs.Process.Daemon.{
  ForkResult, parent, child, exited, returned, daemon, Detached, daemon-Detached, daemon-exchanged,
}
use privsep_rs.Process.Session.{
  dup_answer, attach_null, detached, SessionError, Session, new_session, Attached,
  new_session-IsDetached,
}

-- Standard input and a socket are open.
abbrev before : Session table
before = record { files = (0, 7) ∷ (3, 8) ∷ []; cwd = [] }

-- setsid answers with the own process id.
abbrev leader : Result ℕ ℕ
leader = ok 5

new_session-IsDetached_run :
    ((leader ≡ ok 5)
      × ((new_session table leader 5 (ok tt) false true before).0 ≡ ok tt)
      × Attached table 0 table-IsKernel before
          (new_session table leader 5 (ok tt) false true before).1.files)
    ⊎ ((leader ≢ ok 5)
        × ((new_session table leader 5 (ok tt) false true before).0 ≢ ok tt)
        × ((new_session table leader 5 (ok tt) false true before).1 ≡ before))
new_session-IsDetached_run =
    new_session-IsDetached table 0 table-IsKernel leader 5 (ok tt) true before

-- The parent has a terminal, a log file and both ends of the pair.
abbrev parent_files : Session table
parent_files = record { files = (0, 7) ∷ (1, 7) ∷ (2, 7) ∷ (3, 9) ∷ (4, 1) ∷ (5, 2) ∷ []; cwd = [] }

abbrev cloexec : ℕ → Result ℕ (Unit {0})
cloexec fd = ok tt

abbrev null_files : List (ℕ × ℕ)
null_files = (bound parent_files.files, 0) ∷ parent_files.files

standard_dups : (x : ℕ) → x ≤ 2 → dup_answer table (bound parent_files.files) x null_files ≡ ok x
standard_dups zero h = refl
standard_dups (suc zero) h = refl
standard_dups (suc (suc zero)) h = refl
standard_dups (suc (suc (suc x))) h = absurd (omega (arith, h))

child_side-Inherits_example :
    ChildSide table 0 table-IsKernel 2
      (table.dup2 5 privsep_fd (attach_null table (ok (bound parent_files.files), null_files))).0
      cloexec
      (child_side table leader 5 cloexec false 5 parent_files)
child_side-Inherits_example =
    child_side-Inherits table 0 table-IsKernel 5 (bound parent_files.files) 5 2 cloexec parent_files
      null_files refl (omega arith) refl standard_dups

abbrev child_side_of_fork : Result ℕ ForkResult
child_side_of_fork = ok child

-- The daemon(3) of a library that always fails.
abbrev no_library : Bool → Bool → Session table → Result ℕ (Unit {0}) × Session table
no_library no_close no_chdir s = (err 38, s)

daemon-Detached_example :
    (child_side_of_fork ≡ ok parent
      × (daemon table true no_library child_side_of_fork leader 5 (ok tt) false true before
          ≡ exited))
    ⊎ ((r : Result SessionError (Unit {0}) × Session table) × (daemon table true no_library
            child_side_of_fork leader 5
            (ok tt)
            false
            true
            before
          ≡ returned r)
        × Detached table 0 table-IsKernel child_side_of_fork leader 5 before r)
daemon-Detached_example =
    daemon-Detached table 0 table-IsKernel no_library child_side_of_fork leader 5 (ok tt) true
      before

-- A library that does what daemon(3) documents.
abbrev library : Bool → Bool → Session table → Result ℕ (Unit {0}) × Session table
library nochdir noclose s = (ok tt, detached table noclose nochdir (ok tt) s)

daemon-exchanged_example :
    daemon table false library child_side_of_fork leader 5 (ok tt) true false before
    ≡ daemon table true library child_side_of_fork leader 5 (ok tt) false true before
daemon-exchanged_example =
    daemon-exchanged table library child_side_of_fork leader 5 (ok tt) true false before
      (λ nochdir noclose s. refl)
