-- ===== src/Simple/Parent.antt =====
-- parent::main and main of privsep/examples/simple.rs.
use privsep_rs.Prelude.{
  ℕ, Bool, Option, none, some, List, [], ◌∷◌, ◌++◌, Result, ok, err, if◌then◌else◌, ◌==◌,
}
use privsep_rs.Ancillary.Cmsg.{Libc}
use privsep_rs.Stream.{IoError, Poll, pending, ready, SendEvent, Packet}
use privsep_rs.Imsg.{Serde, Handler}
use privsep_rs.Imsg.Header
use privsep_rs.Imsg.Send.{Sent, send_message}
use privsep_rs.Imsg.Recv.{Progress, returned, Output, to_list}
use privsep_rs.Process.{Str, Peer}
use privsep_rs.Process.Connect.{handler_of}
use privsep_rs.Process.Session.{SessionError}
use privsep_rs.Log.Targets.{LogError}
use privsep_rs.Error.{Error, io_error, terminated, of_session}
use privsep_rs.Simple.{child_word, hello_word, child_process_text, parent_id, hello_id, child_id}
use privsep_rs.Simple.Select.{
  next, stop, stalled, impossible, Done, Branch, first, second, State, Turn, turn, selecting, broke,
  Run, follow,
}
use privsep_rs.Simple.Child.{
  Main, failed, exited, blocked, looped, at_once, sent_on, with_logger, with_peer,
}

-- What waitpid(2) answers: an exit with its process and status, or anything else.
pub data Wait : Type 0 where
  exit : ℕ → ℕ → Wait
  other_status : Wait

pub data ParentTurn : Type 0 where
  reaped : Wait → ParentTurn
  message : Turn → ParentTurn

abbrev pub after_wait : Wait → Result Error (Unit {0})
after_wait (exit pid status) = ok tt
after_wait other_status = err (terminated child_process_text)

abbrev pub parent_names : Branch → Str
parent_names first = child_word
parent_names second = hello_word

-- A send with `?`.
abbrev pub after_send : Poll (Result IoError (Unit {0})) → List Packet → List ℕ → Done
after_send pending packets fds = (stalled, packets, [])
after_send (ready (err kind)) packets fds = (stop (err (io_error kind)), packets, fds)
after_send (ready (ok _)) packets fds = (next, packets, fds)

abbrev pub sent_or : Handler → Sent → Main → Main
sent_or h s rest = elim s.result [
  | pending ↦ record { sent = sent_on h s.packets; outcome = blocked }
  | ready (err kind) ↦ record { sent = sent_on h s.packets; outcome = failed (io_error kind) }
  | ready (ok _) ↦ record rest { sent = sent_on h s.packets ++ rest.sent }
]

-- signal(SignalKind::child())?
abbrev pub with_signal : Result IoError (Unit {0}) → Main → Main
with_signal (err kind) rest = at_once (failed (io_error kind))
with_signal (ok _) rest = rest

-- daemon(true, false)?; `none` is a process that has ended there.
abbrev pub with_daemon : Option (Result SessionError (Unit {0})) → Main → Main
with_daemon none rest = at_once exited
with_daemon (some (err e)) rest = at_once (failed (of_session e))
with_daemon (some (ok _)) rest = rest

-- The results of async_logger and of signal, the descriptor of the listener if it was bound, the
-- outcome of daemon, and the answers to the first send to each child.
pub record Host : Type 0 where
  pub logger : Result LogError (Unit {0})
  pub sigchld : Result IoError (Unit {0})
  pub listener : Option ℕ
  pub daemon : Option (Result SessionError (Unit {0}))
  pub answers : ℕ → List SendEvent

-- Privsep::PROCESS_IDS
abbrev pub process_ids : List ℕ
process_ids = parent_id ∷ hello_id ∷ child_id ∷ []

-- .filter(|id| **id != Privsep::PARENT_ID)
abbrev pub but_parent : List ℕ → List ℕ
but_parent [] = []
but_parent (id ∷ ids) = let rest = but_parent ids in if id == parent_id then rest else id ∷ rest

module _ (c : Libc) (serde : Serde (Unit {0})) (pid : ℕ) where
  abbrev pub parent_arm :
      Option ℕ → Str → Handler → Progress (Output (Unit {0})) → List SendEvent → Done
  parent_arm fd name h (returned (ok (some (m, own, _)))) answers =
      let s = send_message c serde pid h m fd tt answers in
      after_send s.result s.packets (to_list own)
  parent_arm fd name h (returned (ok none)) answers = (stop (err (terminated name)), [], [])
  parent_arm fd name h (returned (err kind)) answers = (stop (err (io_error kind)), [], [])
  parent_arm fd name h _ answers = (impossible, [], [])

  -- The loop: the child is the first branch, hello the second.
  unfoldable pub parent_loop : Option ℕ → List ParentTurn → State → Run
  parent_loop fd [] s = record { turns = []; ending = selecting s }
  parent_loop fd (reaped status ∷ turns) s = record {
    turns = [];
    ending = broke (after_wait status);
  }
  parent_loop fd (message t ∷ turns) s =
      let x = turn c serde (parent_arm fd) parent_names t s in follow x x.arm (parent_loop fd turns)

  -- The `for` loop over the ids; `rest` is what follows.
  unfoldable pub send_all : Option ℕ → (ℕ → List SendEvent) → List Peer → List ℕ → Main → Main
  send_all fd answers peers [] rest = rest
  send_all fd answers peers (id ∷ ids) rest =
      let later = send_all fd answers peers ids rest in
      with_peer (handler_of peers id)
        (λ h. sent_or h (send_message c serde pid h (Header.new pid 23) fd tt (answers id)) later)

  unfoldable pub parent_main : (LogError → Str) → Bool → Host → List Peer → List ParentTurn → Main
  unfolding send_all parent_loop
  parent_main show_log foreground host peers turns =
      let loop = with_peer (handler_of peers child_id) (λ one.
        with_peer (handler_of peers hello_id) (λ two.
          at_once (looped (parent_loop host.listener turns (record { one = one; two = two }))))) in
      let sends = send_all host.listener host.answers peers (but_parent process_ids) loop in
      with_logger show_log host.logger
        (with_signal host.sigchld (if foreground then sends else with_daemon host.daemon sends))
