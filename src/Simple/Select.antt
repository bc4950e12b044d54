-- ===== src/Simple/Select.antt =====
-- What tokio::select! does in the loops of privsep/examples/simple.rs: one call of recv_message completes,
-- the other one is dropped.
use privsep_rs.Prelude.{
  ℕ, Bool, true, false, Option, none, some, List, [], ◌∷◌, ◌++◌, if◌then◌else◌, ◌&&◌, Result,
}
use privsep_rs.Ancillary.Cmsg.{Libc}
use privsep_rs.Stream.{RecvEvent, SendEvent, Packet}
use privsep_rs.Imsg.{Serde, Handler}
use privsep_rs.Imsg.Recv.{Progress, waiting, Output, Received, recv_message}
use privsep_rs.Imsg.Cancelled.{cancel, after}
use privsep_rs.Process.{Str}
use privsep_rs.Error.{Error}

-- How a turn of the loop ends: with the next turn, with `break`, or with an arm that waits for its
-- send; `impossible` is no turn of the program.
pub data Arm : Type 0 where
  next : Arm
  stop : Result Error (Unit {0}) → Arm
  stalled : Arm
  impossible : Arm

-- The end of an arm, the packets it sent and the descriptors it closed.
abbrev pub Done : Type 0
Done = Arm × List Packet × List ℕ

pub data Branch : Type 0 where
  first second : Branch

-- The handlers of the two peers.
pub record State : Type 0 where
  pub one : Handler
  pub two : Handler

abbrev pub chosen : Branch → State → Handler
chosen first s = s.one
chosen second s = s.two

abbrev pub passed_over : Branch → State → Handler
passed_over first s = s.two
passed_over second s = s.one

-- The state with these two in their places.
abbrev pub put : Branch → Handler → Handler → State
put first h g = record { one = h; two = g }
put second h g = record { one = g; two = h }

-- The call that completes and the answers that it takes, the answers to the other call if that was
-- polled, and those to the send of the arm.
pub record Turn : Type 0 where
  pub branch : Branch
  pub events : List RecvEvent
  pub polled : Option (List RecvEvent)
  pub answers : List SendEvent

-- A turn that was taken: how it ended, the state after it, what it sent and what it closed.
pub record Taken : Type 0 where
  pub arm : Arm
  pub state : State
  pub packets : List Packet
  pub closed : List ℕ

-- The end of the loop, and the turns that it took.
pub data Ending : Type 0 where
  selecting : State → Ending
  broke : Result Error (Unit {0}) → Ending
  sending : Ending
  no_turn : Ending

pub record Run : Type 0 where
  pub turns : List Taken
  pub ending : Ending

abbrev pub is_nil : {A : Type 0} → List A → Bool
is_nil [] = true
is_nil (x ∷ xs) = false

abbrev pub is_waiting : Progress (Output (Unit {0})) → Bool
is_waiting waiting = true
is_waiting _ = false

abbrev pub impossible_turn : State → Taken
impossible_turn s = record { arm = impossible; state = s; packets = []; closed = [] }

-- The rest of the loop after a turn.
abbrev pub follow : Taken → Arm → (State → Run) → Run
follow x next rest = record { turns = x ∷ (rest x.state).turns; ending = (rest x.state).ending }
follow x (stop result) rest = record { turns = x ∷ []; ending = broke result }
follow x stalled rest = record { turns = x ∷ []; ending = sending }
follow x impossible rest = record { turns = []; ending = no_turn }

module _ (c : Libc) (serde : Serde (Unit {0})) where
  abbrev pub receive : Handler → List RecvEvent → Received (Unit {0})
  receive h events = recv_message c serde h events

  -- The other call: whether it waits with no answer left, its handler after the drop, and the
  -- descriptors that the drop closes.
  abbrev pub dropped : Handler → Option (List RecvEvent) → Bool × Handler × List ℕ
  dropped h none = (true, h, [])
  dropped h (some events) =
      let r = receive h events in
      (
        is_waiting r.progress && is_nil r.events,
        after c serde h (cancel c serde r),
        (cancel c serde r).fds.closed,
      )

  -- The turn with the result of its arm, the other handler and what the drop closed.
  abbrev pub happened : Turn → State → Received (Unit {0}) → Handler → List ℕ → Done → Taken
  happened t s r g closed d = record {
    arm = d.0;
    state = put t.branch (after c serde (chosen t.branch s) r) g;
    packets = d.1;
    closed = d.2 ++ ((cancel c serde r).fds.closed ++ closed);
  }

  module _ (arm : Str → Handler → Progress (Output (Unit {0})) → List SendEvent → Done)
      (names : Branch → Str) where
    abbrev pub on_result : Turn → State → Received (Unit {0}) → Done
    on_result t s r = arm (names t.branch) (chosen t.branch s) r.progress t.answers

    -- A turn, with the arm on the result of the completed call; both calls take all their answers.
    abbrev pub taken : Turn → State → Received (Unit {0}) → Bool × Handler × List ℕ → Taken
    taken t s r (waits, g, closed) =
        if is_nil r.events && waits
        then happened t s r g closed (on_result t s r)
        else impossible_turn s

    abbrev pub turn : Turn → State → Taken
    turn t s =
        taken t s (receive (chosen t.branch s) t.events) (dropped (passed_over t.branch s) t.polled)
