-- ===== src/Simple/Echo.antt =====
-- One turn of a loop of privsep/examples/simple.rs that sends a message back: one read brings the whole
-- message, and the socket takes the whole answer.
use privsep_rs.Prelude.{
  ℕ, ◌^◌, ◌≤◌, ◌<◌, ◌≡◌, refl, ap, sym, ◌∙◌, true, false, Option, none, some, List, [], ◌∷◌, ◌++◌,
  take, append-nil, arith, ok,
}
use mathlib.Core.Path.{ap₂}
use privsep_rs.Ancillary.{all_messages}
use privsep_rs.Ancillary.Cmsg.{Libc, IsLibc, IsFd}
use privsep_rs.Ancillary.Encoding.{space}
use privsep_rs.Ancillary.Operations.{rights}
use privsep_rs.Stream.{ready, SendEvent, tried, accepted, Packet}
use privsep_rs.Imsg.{Serde, Handler}
use privsep_rs.Imsg.Header.{Message, IsMessage, reserved, header_length}
use privsep_rs.Imsg.Send.{attach, send_message}
use privsep_rs.Imsg.Recv.{
  Received, to_list, take_fd, take_fds, rights_of, deserialized, recv_loop, no_fds, recv_message,
}
use privsep_rs.Imsg.Framing.{frame, IsFrame, length-frame}
use privsep_rs.Imsg.Sending.{stamped}
use privsep_rs.Imsg.Writes.{send_message-ok}
use privsep_rs.Imsg.EndToEnd.{send_message-accepted}
use privsep_rs.Imsg.OneRead.{with_control, recv_message-open, recv_loop-first, recv_loop-frame}
use privsep_rs.Imsg.Transfer.{attach-some, rights_of-attach, rights_of-nothing}
use privsep_rs.Imsg.Cancelled.{read_of}

-- The message, as this process sends it.
abbrev pub of_pid : ℕ → Message → Message
of_pid pid m = record m { pid = pid }

module _ (c : Libc) where
  -- The control data of a send.
  abbrev pub control_of : Option ℕ → List ℕ
  control_of fd = take (attach c fd).0.length (attach c fd).0.buffer

  -- A descriptor of 32 bits, for which there is room in 128 bytes.
  abbrev pub Fits : Option ℕ → Type 0
  Fits none = Unit {0}
  Fits (some fd) = IsFd fd × (space c (rights c (fd ∷ [])) ≤ 128)

  -- What is on the socket then.
  abbrev pub packet : ℕ → Option ℕ → Message → Packet
  packet pid fd m = record { bytes = frame c (of_pid pid m) []; control = control_of fd }

  attached : IsLibc c → (fd : Option ℕ) → Fits fd → (attach c fd).1 ≡ true
  unfolding attach
  attached laws none fits = refl
  attached laws (some fd) (fits, room) = attach-some c laws fd fits room

  came_with :
      IsLibc c
      → (fd : Option ℕ) → Fits fd
      → rights_of c (all_messages c (with_control (control_of fd))) ≡ to_list fd
  unfolding attach
  came_with laws none fits = rights_of-nothing c laws
  came_with laws (some fd) (fits, room) = rights_of-attach c laws fd fits room

  -- What a receive returns that one read brings the message to.
  abbrev pub brought : Serde (Unit {0}) → Message → ℕ → Option ℕ → Received (Unit {0})
  brought serde m pid fd =
      deserialized c serde (of_pid pid m) [] (record { held = fd; closed = [] }) [] (some tt)

  module _ (laws : IsLibc c) (serde : Serde (Unit {0})) (empty : serde.serialize tt ≡ some [])
      (read : serde.deserialize [] ≡ some tt) (m : Message) (valid : IsMessage m)
      (unreserved : reserved ≤ m.id) (header_only : m.length ≡ header_length) (h : Handler)
      (open_handler : h.shutdown ≡ false) where
    stamped_header : (pid : ℕ) → stamped pid m [] ≡ of_pid pid m
    stamped_header pid = ap (λ (n : ℕ). record m { pid = pid; length = n }) (omega arith)

    pub of_pid-IsMessage : (pid : ℕ) → pid < 2 ^ 32 → IsMessage (of_pid pid m)
    of_pid-IsMessage pid small = record {
      id_fits = valid.id_fits;
      length_fits = valid.length_fits;
      flags_fits = valid.flags_fits;
      peer_id_fits = valid.peer_id_fits;
      pid_fits = small;
    }

    of_pid-IsFrame : (pid : ℕ) → pid < 2 ^ 32 → IsFrame c (of_pid pid m) []
    of_pid-IsFrame pid small = record {
      valid = of_pid-IsMessage pid small;
      total = omega (arith, header_only);
    }

    take-came : (fd : Option ℕ) → take_fds no_fds (to_list fd) ≡ record { held = fd; closed = [] }
    unfolding take_fds take_fd
    take-came none = refl
    take-came (some fd) = refl

    pub recv_message-packet :
        (pid : ℕ) (fd : Option ℕ)
        → pid < 2 ^ 32
        → Fits fd
        → h.read_buffer ≡ []
        → recv_message c serde h (read_of (packet pid fd m).bytes (packet pid fd m).control ∷ [])
          ≡ brought serde m pid fd
    recv_message-packet pid fd small fits no_bytes =
        let bytes = (packet pid fd m).bytes in
        recv_message-open c serde h [] (read_of bytes (control_of fd) ∷ []) open_handler no_bytes
        ∙ recv_loop-first c serde bytes (control_of fd) 1 []
            (omega (arith, length-frame c (of_pid pid m) []))
        ∙ ap₂ (λ (b fds : List ℕ). recv_loop c serde 1 b (take_fds no_fds fds) [])
            (sym (append-nil bytes)) (came_with laws fd fits)
        ∙ ap (λ fds. recv_loop c serde 1 (bytes ++ []) fds []) (take-came fd)
        ∙ recv_loop-frame c serde (of_pid pid m) [] [] tt 0 (record { held = fd; closed = [] }) []
            (of_pid-IsFrame pid small) read

    -- What a send of the message gives, when the socket takes it.
    pub send_message-packet :
        (pid : ℕ) (fd : Option ℕ)
        → Fits fd
        → let s = send_message c serde pid h m fd tt (tried (accepted header_length) ∷ []) in
          (s.result ≡ ready (ok tt)) × (s.packets ≡ packet pid fd m ∷ [])
    send_message-packet pid fd fits =
        let answers : List SendEvent = tried (accepted header_length) ∷ [] in
        let done =
          (send_message-accepted c serde pid h m fd tt [] [] (attach c fd).0
            (record {
              unreserved = unreserved;
              is_open = open_handler;
              serialized = empty;
              fits = omega arith;
              attached = λ i. ((attach c fd).0, attached laws fd fits i);
            })
            header_only).0 in
        (
          done,
          (send_message-ok c serde pid h m fd tt answers [] empty (omega arith) (omega arith, tt)
                done).2
              ∙ ap (λ (x : Message). record { bytes = frame c x []; control = control_of fd } ∷ [])
                  (stamped_header pid),
        )
