-- ===== src/Simple/ParentEnds.antt =====
-- How the loop of parent::main in privsep/examples/simple.rs ends.
use privsep_rs.Prelude.{ℕ, ◌≡◌, Option, some, List, ◌∷◌, Result, ok, err}
use privsep_rs.Ancillary.Cmsg.{Libc}
use privsep_rs.Stream.{IoError, ready, SendEvent}
use privsep_rs.Imsg.{Serde, Handler}
use privsep_rs.Imsg.Header.{Message}
use privsep_rs.Imsg.Send.{send_message}
use privsep_rs.Imsg.Recv.{Progress, returned, Output}
use privsep_rs.Process.{Str}
use privsep_rs.Error.{Error, io_error, terminated}
use privsep_rs.Simple.{child_process_text}
use privsep_rs.Simple.Select.{Arm, next, State, chosen, Turn, receive, turn}
use privsep_rs.Simple.Ends.{Lost}
use privsep_rs.Simple.Parent.{
  exit, other_status, ParentTurn, reaped, message, parent_names, parent_arm,
}

module _ (c : Libc) (serde : Serde (Unit {0})) (pid : ℕ) (fd : Option ℕ) where
  -- Why an arm breaks: its receive, or the send of the message that it received.
  pub data Failed (name : Str) (h : Handler) (p : Progress (Output (Unit {0})))
      (answers : List SendEvent) (r : Result Error (Unit {0})) : Type 0 where
    lost : Lost name p r → Failed name h p answers r
    not_sent :
        (m : Message) (own : Option ℕ) (kind : IoError)
        → p ≡ returned (ok (some (m, own, tt)))
        → (send_message c serde pid h m fd tt answers).result ≡ ready (err kind)
        → r ≡ err (io_error kind)
        → Failed name h p answers r

  abbrev arm_of : Turn → State → Arm
  arm_of t s = (turn c serde (parent_arm c serde pid fd) parent_names t s).arm

  -- The turn that is taken in this state after some turns that went on.
  pub data Reached (t : ParentTurn) (now : State) : List ParentTurn → State → Type 0 where
    at : {turns : List ParentTurn} → Reached t now (t ∷ turns) now
    past :
        {u : Turn} {turns : List ParentTurn} {s : State}
        → (turn c serde (parent_arm c serde pid fd) parent_names u s).arm ≡ next
        → Reached t now turns (turn c serde (parent_arm c serde pid fd) parent_names u s).state
        → Reached t now (message u ∷ turns) s

  -- What ends the loop in this turn.
  pub data Cause (now : State) (r : Result Error (Unit {0})) : ParentTurn → Type 0 where
    exited : (pid status : ℕ) → r ≡ ok tt → Cause now r (reaped (exit pid status))
    not_exited : r ≡ err (terminated child_process_text) → Cause now r (reaped other_status)
    failed :
        (t : Turn)
        → Failed
            (parent_names t.branch)
            (chosen t.branch now)
            (receive c serde (chosen t.branch now) t.events).progress
            t.answers
            r
        → Cause now r (message t)
