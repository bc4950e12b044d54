-- ===== src/Process/Child.antt =====
-- Child::new and set_cloexec of privsep/src/process.rs, from the start to the wait for the peers.
use privsep_rs.Prelude.{
  ℕ, Bool, true, List, [], ◌∷◌, ◌++◌, map, length, leb, if◌then◌else◌, Result, ok, err,
}
use privsep_rs.Stream.{IoError}
use privsep_rs.Imsg.{Handler}
use privsep_rs.Imsg.Recv.{Output}
use privsep_rs.Process.{Str, Process}
use privsep_rs.Process.Privdrop
use privsep_rs.Process.Privdrop.{User, Call, calls_of, privdrop, privdrop_failed, privdrop-outcome}
use privsep_rs.Process.Handshake
use privsep_rs.Process.Handshake.{Started, start}

abbrev pub privsep_fd : ℕ
privsep_fd = 3

-- The answers of the system. The flags of a descriptor are the bit FD_CLOEXEC.
pub record System : Type 0 where
  pub getfd : ℕ → Result ℕ Bool
  pub setfd : ℕ → Bool → Result ℕ (Unit {0})
  pub from_raw_fd : ℕ → Result IoError Handler
  pub privdrop : Privdrop.System
  pub sigpipe : Result ℕ (Unit {0})
  pub handshake : Handshake.System
  -- Pid::parent()
  pub parent_pid : ℕ

pub data Error : Type 0 where
  unix_error : ℕ → Error
  io_error : IoError → Error
  privdrop_error : Privdrop.Error → Error

-- What was done with success.
pub data Action : Type 0 where
  got_flags : ℕ → Action
  set_flags : ℕ → Bool → Action
  adopted : ℕ → Action
  called : Call → Action
  ignored_sigpipe : Action

-- A panic, an error, or how the wait for the peers ended.
pub data Outcome : Type 0 where
  panicked : Outcome
  failed : Error → Outcome
  waited : Started → Outcome

-- `?`, with what was done.
abbrev pub and_then :
    {A B : Type 0}
    → List Action × Result Error A
    → (A → List Action × B)
    → (Error → B)
    → List Action × B
and_then (actions, err e) next on_error = (actions, on_error e)
and_then (actions, ok a) next on_error = (actions ++ (next a).0, (next a).1)

abbrev pub unix : {A : Type 0} → Action → Result ℕ A → List Action × Result Error A
unix action (err errno) = ([], err (unix_error errno))
unix action (ok a) = (action ∷ [], ok a)

abbrev pub io : {A : Type 0} → Action → Result IoError A → List Action × Result Error A
io action (err kind) = ([], err (io_error kind))
io action (ok a) = (action ∷ [], ok a)

abbrev pub calls_done :
    List Call × Result Privdrop.Error (Unit {0}) → List Action × Result Error (Unit {0})
calls_done (calls, err e) = (map (λ c. called c) calls, err (privdrop_error e))
calls_done (calls, ok _) = (map (λ c. called c) calls, ok tt)

module _ (sys : System) where
  -- FdFlag::set replaces the bit, the only one that from_bits_truncate keeps.
  abbrev pub set_bit : Bool → Bool → Bool
  set_bit flags add = add

  unfoldable pub set_cloexec : ℕ → Bool → List Action × Result Error (Unit {0})
  set_cloexec fd add =
      and_then (unix (got_flags fd) (sys.getfd fd))
        (λ flags. unix (set_flags fd (set_bit flags add)) (sys.setfd fd (set_bit flags add)))
        (λ e. err e)

  module _ (processes : List Process) (disable_privdrop : Bool) (username : Str)
      (results : List (Output (Unit {0}))) where
    abbrev pub with_parent : Handler → List Action × Outcome
    with_parent parent =
        and_then (calls_done (privdrop sys.privdrop disable_privdrop username))
          (λ _.
            and_then (unix ignored_sigpipe sys.sigpipe)
              (λ _. ([], waited (start sys.handshake parent sys.parent_pid processes results)))
              (λ e. failed e))
          (λ e. failed e)

    -- `processes[0]` panics on an empty array.
    abbrev pub with_peers : List Process → List Action × Outcome
    with_peers [] = ([], panicked)
    with_peers (first ∷ rest) =
        and_then (io (adopted privsep_fd) (sys.from_raw_fd privsep_fd)) with_parent (λ e. failed e)

    -- `room` is the length of the array of peers.
    unfoldable pub new : ℕ → List Action × Outcome
    new room =
        if leb (length processes) room
        then and_then (set_cloexec privsep_fd true) (λ _. with_peers processes) (λ e. failed e)
        else ([], panicked)
