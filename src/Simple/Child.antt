-- ===== src/Simple/Child.antt =====
-- child::main and hello::main of privsep/examples/simple.rs.
use privsep_rs.Prelude.{ℕ, Option, none, some, List, [], ◌∷◌, ◌++◌, map, Result, ok, err}
use privsep_rs.Ancillary.Cmsg.{Libc}
use privsep_rs.Stream.{IoError, Poll, pending, ready, SendEvent, Packet}
use privsep_rs.Imsg.{Serde, Handler}
use privsep_rs.Imsg.Header
use privsep_rs.Imsg.Send.{Sent, send_message}
use privsep_rs.Imsg.Recv.{Progress, returned, Output, to_list}
use privsep_rs.Process.{Str, Peer}
use privsep_rs.Process.Connect.{handler_of}
use privsep_rs.Process.Parent.{parent_name}
use privsep_rs.Log.Targets.{LogError}
use privsep_rs.Error.{Error, io_error, general_error, terminated}
use privsep_rs.Simple.{child_word, hello_word, parent_id, hello_id, child_id}
use privsep_rs.Simple.Select.{
  next, stop, stalled, impossible, Done, Branch, first, second, State, Turn, turn, selecting, Run,
  follow,
}

-- How a program ends, or what it does in its loop.
pub data Outcome : Type 0 where
  failed : Error → Outcome
  panicked : Outcome
  -- the process has ended in daemon
  exited : Outcome
  -- a send before the loop waits
  blocked : Outcome
  looped : Run → Outcome

-- The packets that were sent before the loop, each with the handler that it was sent on, and the
-- outcome.
pub record Main : Type 0 where
  pub sent : List (Handler × Packet)
  pub outcome : Outcome

abbrev pub at_once : Outcome → Main
at_once outcome = record { sent = []; outcome = outcome }

-- `.map_err(|err| Error::GeneralError(Box::new(err)))?` on the logger
abbrev pub with_logger : (LogError → Str) → Result LogError (Unit {0}) → Main → Main
with_logger show_log (err e) rest = at_once (failed (general_error (show_log e)))
with_logger show_log (ok _) rest = rest

abbrev pub with_peer : Option Handler → (Handler → Main) → Main
with_peer none rest = at_once panicked
with_peer (some h) rest = rest h

-- A send whose error is only logged, then its descriptor is dropped.
abbrev pub after_warning : Poll (Result IoError (Unit {0})) → List Packet → List ℕ → Done
after_warning pending packets fds = (stalled, packets, [])
after_warning (ready _) packets fds = (next, packets, fds)

-- What a send on this handler put on its socket.
abbrev pub sent_on : Handler → List Packet → List (Handler × Packet)
sent_on h packets = map (λ p. (h, p)) packets

-- The same before the loop.
abbrev pub warned : Handler → Sent → Main → Main
warned h s rest = elim s.result [
  | pending ↦ record { sent = sent_on h s.packets; outcome = blocked }
  | ready _ ↦ record rest { sent = sent_on h s.packets ++ rest.sent }
]

abbrev pub child_names : Branch → Str
child_names first = parent_name
child_names second = hello_word

abbrev pub hello_names : Branch → Str
hello_names first = parent_name
hello_names second = child_word

module _ (c : Libc) (serde : Serde (Unit {0})) (pid : ℕ) where
  -- The arms of the two receives, which differ in their peer.
  abbrev pub child_arm : Str → Handler → Progress (Output (Unit {0})) → List SendEvent → Done
  child_arm name h (returned (ok (some (m, fd, _)))) answers =
      let s = send_message c serde pid h m none tt answers in
      after_warning s.result s.packets (to_list fd)
  child_arm name h (returned (ok none)) answers = (stop (err (terminated name)), [], [])
  child_arm name h (returned (err kind)) answers = (stop (err (io_error kind)), [], [])
  child_arm name h _ answers = (impossible, [], [])

  -- The loop: the parent is the first branch, the sibling the second.
  unfoldable pub child_loop : (Branch → Str) → List Turn → State → Run
  child_loop names [] s = record { turns = []; ending = selecting s }
  child_loop names (t ∷ turns) s =
      let x = turn c serde child_arm names t s in follow x x.arm (child_loop names turns)

  -- child[..] of the parent and of the sibling, and the loop
  abbrev pub select_from : (Branch → Str) → List Peer → ℕ → List Turn → Main
  select_from names peers sibling turns = with_peer (handler_of peers parent_id) (λ one.
      with_peer (handler_of peers sibling)
        (λ two. at_once (looped (child_loop names turns (record { one = one; two = two })))))

  -- `logger` is the result of async_logger, `answers` is for the first send; `show_log` is the Display
  -- instance of its error.
  unfoldable pub child_main :
      (LogError → Str) → Result LogError (Unit {0}) → List Peer → List SendEvent → List Turn → Main
  unfolding child_loop
  child_main show_log logger peers answers turns = with_logger show_log logger (
      with_peer (handler_of peers hello_id) (λ hello.
        warned hello (send_message c serde pid hello (Header.new pid 42) none tt answers)
          (select_from child_names peers hello_id turns)))

  unfoldable pub hello_main :
      (LogError → Str) → Result LogError (Unit {0}) → List Peer → List Turn → Main
  unfolding child_loop
  hello_main show_log logger peers turns =
      with_logger show_log logger (select_from hello_names peers child_id turns)
