-- ===== src/Process/Parent.antt =====
-- Parent::new of privsep/src/process.rs.
use privsep_rs.Prelude.{
  ℕ, suc, Bool, false, not, ◌&&◌, Option, none, some, List, [], ◌∷◌, ◌++◌, if◌then◌else◌, Result,
  ok, err,
}
use privsep_rs.Stream.{IoError}
use privsep_rs.Imsg.{Handler}
use privsep_rs.Process.{Process, Peer, Str, same_str}

-- "parent"
abbrev pub parent_name : Str
parent_name = 112 ∷ 97 ∷ 114 ∷ 101 ∷ 110 ∷ 116 ∷ []

-- The errors of Parent::new; `unix_error` is an errno.
pub data Error : Type 0 where
  permission_denied : Error
  missing_parent : Error
  io_error : IoError → Error
  unix_error : ℕ → Error

-- What execve is called with: the program, its arguments and its environment.
pub record Exec : Type 0 where
  pub program : Str
  pub args : List Str
  pub env : List Str

-- The answer of fork(2): the process of the child, in the parent, or the child's side, with what the
-- calls up to execve give there.
pub data Fork : Type 0 where
  in_parent : ℕ → Fork
  in_child : Result Error (Unit {0}) → Fork

-- The answers of the system.
pub record System : Type 0 where
  pub is_root : Bool
  pub current_exe : Result Error Str
  -- Handler::pair and fork, for the process of this index
  pub pair : ℕ → Result Error Handler
  pub fork : ℕ → Result Error Fork
  pub sigpipe : Result Error (Unit {0})
  pub this : ℕ
  -- the variable RUST_LOG
  pub rust_log : Option Str

pub record Options : Type 0 where
  pub disable_privdrop : Bool
  pub foreground : Bool
  pub log_level : Option Str

pub data Outcome : Type 0 where
  parent : ℕ → List Peer → Outcome
  became : Exec → Outcome
  failed : Error → Outcome

-- "RUST_LOG="
abbrev rust_log_equals : Str
rust_log_equals = 82 ∷ 85 ∷ 83 ∷ 84 ∷ 95 ∷ 76 ∷ 79 ∷ 71 ∷ 61 ∷ []

abbrev or_default : Option Str → Option Str → Str
or_default (some text) other = text
or_default none (some text) = text
or_default none none = []

abbrev pub first_name : List Process → Bool
first_name [] = false
first_name (p ∷ processes) = same_str p.name parent_name

module _ (sys : System) (options : Options) where
  -- For texts without a zero byte, on which CString::new(..).unwrap() panics.
  abbrev pub exec_of : Str → Process → Exec
  exec_of program proc = record {
    program = program;
    args = proc.name ∷ (if options.foreground then 45 ∷ 100 ∷ [] else []) ∷ [];
    env = (rust_log_equals ++ or_default sys.rust_log options.log_level) ∷ [];
  }

  abbrev pub peer_of : Process → Option Handler → ℕ → Peer
  peer_of proc handler pid = record { name = proc.name; handler = handler; pid = pid }

  -- A connected process; `rest` is the rest of the loop, with the new peer.
  abbrev pub forked :
      Str → Process → Result Error Handler → Result Error Fork → (Peer → Outcome) → Outcome
  forked program proc (err e) fork rest = failed e
  forked program proc (ok handler) (err e) rest = failed e
  forked program proc (ok handler) (ok (in_parent pid)) rest =
      rest (peer_of proc (some handler) pid)
  forked program proc (ok handler) (ok (in_child (err e))) rest = failed e
  forked program proc (ok handler) (ok (in_child (ok _))) rest = became (exec_of program proc)

  -- signal(SIGPIPE, SIG_IGN), and the result
  abbrev pub finish : Result Error (Unit {0}) → List Peer → Outcome
  finish (err e) children = failed e
  finish (ok _) children = parent sys.this children

  -- The loop over the processes, from index `n`, with the children so far.
  unfoldable pub fork_all : Str → ℕ → List Process → List Peer → Outcome
  fork_all program n [] children = finish sys.sigpipe children
  fork_all program n (proc ∷ processes) children =
      let rest = λ (peer : Peer). fork_all program (suc n) processes (children ++ (peer ∷ [])) in
      if proc.connect
      then forked program proc (sys.pair n) (sys.fork n) rest
      else rest (peer_of proc none sys.this)

  abbrev pub with_program : Result Error Str → (Str → Outcome) → Outcome
  with_program (err e) rest = failed e
  with_program (ok program) rest = rest program

  unfoldable pub new : List Process → Outcome
  unfolding fork_all
  new processes =
      if not options.disable_privdrop && not sys.is_root
      then failed permission_denied
      else if not (first_name processes)
      then failed missing_parent
      else with_program sys.current_exe (λ program. fork_all program 0 processes [])
