-- ===== src/Simple/Ends.antt =====
-- How the loops of privsep/examples/simple.rs end.
use privsep_rs.Prelude.{ℕ, ◌≡◌, refl, none, List, ◌∷◌, Result, ok, err}
use privsep_rs.Ancillary.Cmsg.{Libc}
use privsep_rs.Stream.{IoError, Poll, pending, ready, Packet}
use privsep_rs.Imsg.{Serde}
use privsep_rs.Imsg.Recv.{Progress, returned, Output}
use privsep_rs.Process.{Str}
use privsep_rs.Error.{Error, io_error, terminated}
use privsep_rs.Simple.Select.{next, stop, Branch, State, Turn, turn}
use privsep_rs.Simple.Child.{child_arm}
use privsep_rs.Simple.Parent.{after_send}

pub after_send-stop :
    (p : Poll (Result IoError (Unit {0}))) (packets : List Packet) (fds : List ℕ)
    (r : Result Error (Unit {0}))
    → (after_send p packets fds).0 ≡ stop r
    → (kind : IoError) × (p ≡ ready (err kind)) × (r ≡ err (io_error kind))
after_send-stop pending packets fds r e = cc e
after_send-stop (ready (ok _)) packets fds r e = cc e
after_send-stop (ready (err kind)) packets fds r e = (kind, refl, cc e)

-- A receive that ends a loop, with the name of its peer: the peer has closed the connection, or the
-- receive failed.
pub data Lost (name : Str) (p : Progress (Output (Unit {0}))) (r : Result Error (Unit {0}))
    : Type 0 where
  closed_by_peer : p ≡ returned (ok none) → r ≡ err (terminated name) → Lost name p r
  not_received :
      (kind : IoError) → p ≡ returned (err kind) → r ≡ err (io_error kind) → Lost name p r

module _ (c : Libc) (serde : Serde (Unit {0})) (pid : ℕ) where
  -- The turn that is taken in this state after some turns that went on.
  pub data Reached (names : Branch → Str) (t : Turn) (now : State)
      : List Turn → State → Type 0 where
    at : {turns : List Turn} → Reached names t now (t ∷ turns) now
    past :
        {u : Turn} {turns : List Turn} {s : State}
        → (turn c serde (child_arm c serde pid) names u s).arm ≡ next
        → Reached names t now turns (turn c serde (child_arm c serde pid) names u s).state
        → Reached names t now (u ∷ turns) s
