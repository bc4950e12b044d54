-- ===== src/Simple/Tests.antt =====
-- The programs of privsep/examples/simple.rs over 64-bit Linux.
use privsep_rs.Prelude.{ℕ, ◌≡◌, refl, ap, false, List, none, some, [], ◌∷◌, arith, err, Result}
use mathlib.Core.List.{Perm}
use privsep_rs.Ancillary.Linux.{linux, linux-IsLibc}
use privsep_rs.Stream.{received, answered, Packet}
use privsep_rs.Imsg.{from_stream}
use privsep_rs.Imsg.Header.{new}
use privsep_rs.Imsg.Samples.{bye-IsMessage, rights_room}
use privsep_rs.Process.Parent.{parent_name}
use privsep_rs.Error.{Error, terminated}
use privsep_rs.Simple.Samples.{unit}
use privsep_rs.Simple.Select.{Arm, first, second, State, Turn, selecting, turn, follow}
use privsep_rs.Simple.Child.{child_names, child_arm, child_loop}
use privsep_rs.Simple.ParentEnds
use privsep_rs.Simple.Kept.{closed_by, CameIn, child_loop-Perm}
use privsep_rs.Simple.Echo.{packet}
use privsep_rs.Simple.Rally.{turn_on, Answers, child_turn-Answers, rally, rally-packet}

abbrev state : State
state = record { one = from_stream 5; two = from_stream 6 }

-- A read of no byte from the parent; the sibling is not polled.
abbrev end_of_file : Turn
end_of_file = record {
  branch = first;
  events = answered (received [] [] false false) ∷ [];
  polled = none;
  answers = [];
}

abbrev lost : Result Error (Unit {0})
lost = err (terminated parent_name)

rally-packet_example :
    rally linux unit 42 43
      (some 9)
      child_names
      3
      second
      state
      state
      (packet linux 42 (some 9) (new 42 12))
    ≡ some (packet linux 42 (some 9) (new 42 12))
rally-packet_example =
    rally-packet linux unit 42 43 (some 9) child_names linux-IsLibc refl refl (new 42 12)
      bye-IsMessage (omega arith) refl (omega arith, rights_room) (omega arith) (omega arith) 3
      second state state (record { is_open = refl; no_bytes = refl })
      (record { is_open = refl; no_bytes = refl })

-- One read brings a message with a descriptor.
abbrev gift : Packet
gift = packet linux 43 (some 9) (new 42 12)

after_gift :
    Answers first
      (packet linux 42 none (new 42 12))
      (turn linux unit (child_arm linux unit 42) child_names (turn_on first gift) state)
after_gift =
    child_turn-Answers linux unit 43 42 (some 9) child_names linux-IsLibc refl refl (new 42 12)
      bye-IsMessage (omega arith) refl (omega arith, rights_room) (omega arith) (omega arith) state
      (record { is_open = refl; no_bytes = refl })

gift_selecting :
    (child_loop linux unit 42 child_names (turn_on first gift ∷ []) state).ending
    ≡ selecting
        (turn linux unit (child_arm linux unit 42) child_names (turn_on first gift) state).state
unfolding child_loop
gift_selecting =
    let x = turn linux unit (child_arm linux unit 42) child_names (turn_on first gift) state in
    ap (λ (a : Arm). (follow x a (child_loop linux unit 42 child_names [])).ending)
      after_gift.goes_on

child_loop-Perm_example :
    (came : List ℕ) × CameIn linux unit 42 (turn_on first gift ∷ []) came
    × Perm
        (closed_by (child_loop linux unit 42 child_names (turn_on first gift ∷ []) state).turns)
        came
child_loop-Perm_example =
    child_loop-Perm linux unit 42 child_names (turn_on first gift ∷ []) state
      (turn linux unit (child_arm linux unit 42) child_names (turn_on first gift) state).state
      gift_selecting
