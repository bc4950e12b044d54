-- ===== src/Simple/Rally.antt =====
-- The loop of the parent and that of a child in privsep/examples/simple.rs, over their socket pair.
use privsep_rs.Prelude.{
  ℕ, zero, suc, ◌^◌, ◌≤◌, ◌<◌, ◌≡◌, refl, ap, sym, subst, ◌∙◌, true, false, Option, none, some,
  List, [], ◌∷◌, Result,
}
use privsep_rs.Ancillary.Cmsg.{Libc, IsLibc}
use privsep_rs.Stream.{tried, accepted, Packet, Poll, IoError}
use privsep_rs.Imsg.{Serde, Handler}
use privsep_rs.Imsg.Header.{Message, IsMessage, reserved, header_length}
use privsep_rs.Imsg.Send.{send_message}
use privsep_rs.Imsg.Recv.{Received, to_list}
use privsep_rs.Imsg.Cancelled.{read_of}
use privsep_rs.Process.{Str}
use privsep_rs.Simple.Select.{
  Arm, next, Branch, first, second, State, chosen, Turn, Taken, taken, receive, turn,
}
use privsep_rs.Simple.Child.{after_warning, child_arm}
use privsep_rs.Simple.Parent.{parent_names, after_send, parent_arm}
use privsep_rs.Simple.Echo.{
  Fits, of_pid, packet, brought, of_pid-IsMessage, recv_message-packet, send_message-packet,
}

-- The turn in which one read of this branch brings a packet, the other branch is not polled, and the
-- socket takes the answer.
abbrev pub turn_on : Branch → Packet → Turn
turn_on b p = record {
  branch = b;
  events = read_of p.bytes p.control ∷ [];
  polled = none;
  answers = tried (accepted header_length) ∷ [];
}

-- The packet of a turn that goes on.
abbrev pub answer_of : Arm → List Packet → Option Packet
answer_of next (p ∷ []) = some p
answer_of _ _ = none

-- The handler of this branch is open, and nothing is in its read buffer.
pub record IsIdle (b : Branch) (s : State) : Type 0 where
  pub is_open : (chosen b s).shutdown ≡ false
  pub no_bytes : (chosen b s).read_buffer ≡ []

-- A turn that goes on, with one packet.
pub record Answers (b : Branch) (p : Packet) (x : Taken) : Type 0 where
  pub goes_on : x.arm ≡ next
  pub one_packet : x.packets ≡ p ∷ []
  pub idle : IsIdle b x.state

module _ (c : Libc) (serde : Serde (Unit {0})) (parent_pid child_pid : ℕ) (fd : Option ℕ)
    (names : Branch → Str) where
  abbrev pub child_turn : Packet → State → Taken
  child_turn p s = turn c serde (child_arm c serde child_pid) names (turn_on first p) s

  abbrev pub parent_turn : Branch → Packet → State → Taken
  parent_turn b p s = turn c serde (parent_arm c serde parent_pid fd) parent_names (turn_on b p) s

  abbrev pub and_then : Option Packet → (Packet → Option Packet) → Option Packet
  and_then none rest = none
  and_then (some p) rest = rest p

  -- The packet of the parent after this many turns of the child and answers of the parent.
  unfoldable pub rally : ℕ → Branch → State → State → Packet → Option Packet
  rally zero b parent child p = some p
  rally (suc n) b parent child p =
      let x = child_turn p child in
      and_then (answer_of x.arm x.packets) (λ q.
        let y = parent_turn b q parent in
        and_then (answer_of y.arm y.packets) (rally n b y.state x.state))

  module _ (laws : IsLibc c) (empty : serde.serialize tt ≡ some [])
      (read : serde.deserialize [] ≡ some tt) (m : Message) (valid : IsMessage m)
      (unreserved : reserved ≤ m.id) (header_only : m.length ≡ header_length) (fits : Fits c fd)
      (parent_small : parent_pid < 2 ^ 32) (child_small : child_pid < 2 ^ 32) where
    pub child_turn-Answers :
        (s : State)
        → IsIdle first s
        → Answers first (packet c child_pid none m) (child_turn (packet c parent_pid fd m) s)
    child_turn-Answers s idle =
        let p = packet c parent_pid fd m in
        let a =
          send_message c serde child_pid s.one (of_pid parent_pid m) none tt
            (tried (accepted header_length) ∷ []) in
        let (done, one) =
          send_message-packet c laws serde empty read (of_pid parent_pid m)
            (of_pid-IsMessage c laws serde empty read m valid unreserved header_only s.one
              idle.is_open parent_pid parent_small)
            unreserved header_only s.one idle.is_open child_pid none tt in
        subst
          (λ (r : Received (Unit {0})). Answers first (packet c child_pid none m) (
            taken c serde (child_arm c serde child_pid) names (turn_on first p) s r
              (true, s.two, [])))
          (sym (
            recv_message-packet c laws serde empty read m valid unreserved header_only s.one
              idle.is_open parent_pid fd parent_small fits idle.no_bytes))
          (record {
            goes_on =
                ap
                  (λ (x : Poll (Result IoError (Unit {0}))).
                    (after_warning x a.packets (to_list fd)).0)
                  done;
            one_packet =
                ap
                  (λ (x : Poll (Result IoError (Unit {0}))).
                    (after_warning x a.packets (to_list fd)).1)
                  done
                ∙ one;
            idle = record { is_open = idle.is_open; no_bytes = refl };
          })

    parent_gets :
        (h : Handler)
        → h.shutdown ≡ false
        → h.read_buffer ≡ []
        → receive c serde h (turn_on first (packet c child_pid none m)).events
          ≡ brought c serde m child_pid none
    parent_gets h is_open no_bytes =
        recv_message-packet c laws serde empty read m valid unreserved header_only h is_open
          child_pid none child_small tt no_bytes

    parent_sends :
        (h : Handler)
        → h.shutdown ≡ false
        → let a =
            send_message c serde parent_pid h
              (of_pid child_pid m)
              fd
              tt
              (tried (accepted header_length) ∷ []) in
          ((after_send a.result a.packets []).0 ≡ next)
          × ((after_send a.result a.packets []).1 ≡ packet c parent_pid fd m ∷ [])
    parent_sends h is_open =
        let a =
          send_message c serde parent_pid h (of_pid child_pid m) fd tt
            (tried (accepted header_length) ∷ []) in
        let (done, one) =
          send_message-packet c laws serde empty read (of_pid child_pid m)
            (of_pid-IsMessage c laws serde empty read m valid unreserved header_only h is_open
              child_pid child_small)
            unreserved header_only h is_open parent_pid fd fits in
        (
          ap (λ (x : Poll (Result IoError (Unit {0}))). (after_send x a.packets []).0) done,
          ap (λ (x : Poll (Result IoError (Unit {0}))). (after_send x a.packets []).1) done ∙ one,
        )

    parent_turn-Answers :
        (b : Branch) (s : State)
        → IsIdle b s
        → Answers b (packet c parent_pid fd m) (parent_turn b (packet c child_pid none m) s)
    parent_turn-Answers first s idle =
        let h = s.one in
        let (done, one) = parent_sends h idle.is_open in
        subst
          (λ (r : Received (Unit {0})). Answers first (packet c parent_pid fd m) (
            taken c serde (parent_arm c serde parent_pid fd) parent_names
              (turn_on first (packet c child_pid none m)) s r (true, s.two, [])))
          (sym (parent_gets h idle.is_open idle.no_bytes))
          (record {
            goes_on = done;
            one_packet = one;
            idle = record { is_open = idle.is_open; no_bytes = refl };
          })
    parent_turn-Answers second s idle =
        let h = s.two in
        let (done, one) = parent_sends h idle.is_open in
        subst
          (λ (r : Received (Unit {0})). Answers second (packet c parent_pid fd m) (
            taken c serde (parent_arm c serde parent_pid fd) parent_names
              (turn_on second (packet c child_pid none m)) s r (true, s.one, [])))
          (sym (parent_gets h idle.is_open idle.no_bytes))
          (record {
            goes_on = done;
            one_packet = one;
            idle = record { is_open = idle.is_open; no_bytes = refl };
          })

    -- The messages go back and forth for ever: on a platform that meets libc's contract, for a payload
    -- of no bytes, a message in range that is not reserved and has the length of a header, process
    -- ids of 32 bits and a descriptor for which there is room: when each read brings a whole message
    -- and the socket takes each answer, the loops of the parent and of a child with open handlers
    -- and empty buffers go on, and after any number of answers the parent sends what it sent first.
    pub rally-packet :
        (n : ℕ) (b : Branch) (parent child : State)
        → IsIdle b parent
        → IsIdle first child
        → rally n b parent child (packet c parent_pid fd m) ≡ some (packet c parent_pid fd m)
    unfolding rally
    rally-packet zero b parent child parent_idle child_idle = refl
    rally-packet (suc n) b parent child parent_idle child_idle =
        let x = child_turn (packet c parent_pid fd m) child in
        let y = parent_turn b (packet c child_pid none m) parent in
        let p = child_turn-Answers child child_idle in
        let q = parent_turn-Answers b parent parent_idle in
        rw (p.goes_on, p.one_packet, q.goes_on, q.one_packet)
          (rally-packet n b y.state x.state q.idle p.idle)
