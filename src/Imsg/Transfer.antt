-- ===== src/Imsg/Transfer.antt =====
-- The descriptor that Handler::send_message of privsep/src/imsg.rs takes, through the control
-- messages of privsep/src/net/ancillary.rs, to Handler::recv_message.
use privsep_rs.Prelude.{
  ℕ, ◌+◌, ◌^◌, ◌≤◌, ◌<◌, ◌≡◌, refl, ap, sym, ◌∙◌, false, true, Option, some, List, [], ◌∷◌, ◌++◌,
  length, take, drop, append-nil, length-append, suc, take-append_self, arith, ==-refl, ok,
}
use mathlib.Core.Path.{ap₂}
use privsep_rs.Memory.{zeros, write_at, bytes_of}
use privsep_rs.Memory.Splice.{length-zeros, length-write_at}
use privsep_rs.Memory.Ints.{int_layout-IsLayout}
use privsep_rs.Ancillary.{all_messages, scm_rights}
use privsep_rs.Ancillary.Cmsg.{Libc, IsLibc, IsFd, raw_fd}
use privsep_rs.Ancillary.Encoding.{Cmsg, Holds, space, encode, encode_all, length-encode}
use privsep_rs.Ancillary.Operations.{rights, add_fds-IsWellFormed}
use privsep_rs.Ancillary.Stored.{IsWellFormed, new-Holds}
use privsep_rs.Ancillary.RoundTrip.{all_messages-Holds}
use privsep_rs.Ancillary.Units.{units-bytes_of}
use privsep_rs.Stream.{Packet, received, answered, RecvEvent, recv_vectored_with_ancillary_from}
use privsep_rs.Imsg.{Serde, Handler, fresh}
use privsep_rs.Imsg.Header.{Message}
use privsep_rs.Imsg.Send.{attach}
use privsep_rs.Imsg.Recv.{
  Received, returned, rights_of, recv_message, deserialized, recv_loop, take_fds, no_fds,
}
use privsep_rs.Imsg.Framing.{frame, length-frame}
use privsep_rs.Imsg.Sending.{stamped}
use privsep_rs.Imsg.OneRead.{with_control, recv_loop-frame, recv_message-open, recv_loop-first}
use privsep_rs.Imsg.EndToEnd.{Request, sent, IsSent, framed-IsFrame, sent_packet}

-- The control data of a send with this descriptor.
abbrev pub control : Libc → ℕ → List ℕ
control c fd = take (attach c (some fd)).0.length (attach c (some fd)).0.buffer

module _ (c : Libc) (laws : IsLibc c) where
  pub fresh-IsWellFormed : IsWellFormed c fresh []
  fresh-IsWellFormed = record { holds = new-Holds c (zeros 128); valid = tt; small = omega arith }

  -- The buffer that a receive is given holds the messages whose bytes were sent.
  with_control-Holds :
      (ms : List Cmsg)
      → length (encode_all c ms) ≤ 128
      → Holds c (with_control (encode_all c ms)) ms
  unfolding recv_vectored_with_ancillary_from write_at
  with_control-Holds ms small = record {
    fits = omega (
      arith,
      small,
      length-write_at 0 (encode_all c ms) (zeros 128) (omega (arith, length-zeros 128)),
    );
    used = take-append_self (encode_all c ms) (drop (0 + length (encode_all c ms)) (zeros 128));
  }

  -- A read without control data brings no descriptor.
  pub rights_of-nothing : rights_of c (all_messages c (with_control [])) ≡ []
  unfolding rights_of
  rights_of-nothing =
      ap (rights_of c)
        (all_messages-Holds c laws (with_control []) [] (with_control-Holds [] (omega arith)) tt)

  module _ (fd : ℕ) (fits : IsFd fd) (room : space c (rights c (fd ∷ [])) ≤ 128) where
    abbrev message : Cmsg
    message = rights c (fd ∷ [])

    attached : IsWellFormed c (attach c (some fd)).0 (message ∷ [])
    unfolding attach
    attached =
        (add_fds-IsWellFormed c laws fresh [] fresh-IsWellFormed (fd ∷ []) (omega arith)
          (omega (arith, room))).1

    control_small : length (encode_all c (message ∷ [])) ≤ 128
    control_small =
        omega (arith, room, length-append (encode c message) [], length-encode c laws message)

    all_messages-control :
        all_messages c (with_control (control c fd))
        ≡ ok (scm_rights (bytes_of (raw_fd c) (fd ∷ []))) ∷ []
    all_messages-control =
        ap (λ (b : List ℕ). all_messages c (with_control b)) attached.holds.used
        ∙ all_messages-Holds c laws (with_control (encode_all c (message ∷ []))) (message ∷ [])
            (with_control-Holds (message ∷ []) control_small) attached.valid
        ∙ rw (==-refl c.sol_socket, ==-refl c.scm_rights) refl

    pub attach-some : (attach c (some fd)).1 ≡ true
    unfolding attach
    attach-some =
        (add_fds-IsWellFormed c laws fresh [] fresh-IsWellFormed (fd ∷ []) (omega arith)
          (omega (arith, room))).0

    -- The descriptor of a send is the one that a receive of its control data finds.
    pub rights_of-attach : rights_of c (all_messages c (with_control (control c fd))) ≡ fd ∷ []
    unfolding rights_of
    rights_of-attach =
        ap (rights_of c) all_messages-control
        ∙ ap (λ (fds : List ℕ). fds ++ [])
            (units-bytes_of (raw_fd c) (int_layout-IsLayout c.endian 4) (omega arith) (fd ∷ [])
              (fits, tt))

  -- On a platform that meets libc's contract and has room for one descriptor in 128 bytes, for a
  -- descriptor and a process id of 32 bits and a payload that is read back: when a send with the
  -- descriptor returned Ok, of a message with fields in range, and a single read of an open
  -- handler with an empty buffer at the other end brings its one packet, the receive returns the
  -- sent message, stamped with the process id and the total length, with its descriptor and its
  -- payload.
  pub recv_message-send_message :
      {T : Type 0} (serde : Serde T) (pid : ℕ) (sender receiver : Handler) (r : Request T) (fd : ℕ)
      (p : Packet) (events : List RecvEvent)
      → IsFd fd
      → space c (rights c (fd ∷ [])) ≤ 128
      → serde.deserialize r.bytes ≡ some r.payload
      → pid < 2 ^ 32
      → IsSent c serde pid sender r
      → r.fd ≡ some fd
      → (sent c serde pid sender r).packets ≡ p ∷ []
      → receiver.shutdown ≡ false
      → receiver.read_buffer ≡ []
      → (recv_message c serde receiver
          (answered (received p.bytes p.control false false) ∷ events)).progress
        ≡ returned (ok (some (stamped pid r.message r.bytes, some fd, r.payload)))
  recv_message-send_message {T} serde pid sender receiver r fd p events fits room inverse pid_fits s
        with_fd one_packet open_handler empty =
      ap (λ (x : Received T). x.progress) whole
    where
      m : Message
      m = stamped pid r.message r.bytes

      event : RecvEvent
      event = answered (received p.bytes p.control false false)

      packet : p ≡ record {
        bytes = frame c m r.bytes;
        control = take (attach c r.fd).0.length (attach c r.fd).0.buffer;
      }
      packet = first (sym one_packet ∙ sent_packet c serde pid sender r s)
        where
          first : {x y : Packet} → x ∷ [] ≡ y ∷ [] → x ≡ y
          first e = ap (λ (xs : List Packet). elim xs [ [] ↦ p | q ∷ _ ↦ q ]) e

      bytes : p.bytes ≡ frame c m r.bytes ++ []
      bytes = ap (λ (q : Packet). q.bytes) packet ∙ sym (append-nil (frame c m r.bytes))

      some_bytes : 0 < length p.bytes
      some_bytes =
          omega (arith, ap (λ (q : Packet). length q.bytes) packet, length-frame c m r.bytes)

      descriptor : rights_of c (all_messages c (with_control p.control)) ≡ fd ∷ []
      descriptor =
          ap (λ (q : Packet). rights_of c (all_messages c (with_control q.control))) packet
          ∙ ap
              (λ (o : Option ℕ).
                rights_of c (
                  all_messages c (with_control (take (attach c o).0.length (attach c o).0.buffer))))
              with_fd
          ∙ rights_of-attach fd fits room

      whole :
          recv_message c serde receiver (event ∷ events)
          ≡ deserialized c serde m []
              (record { held = some fd; closed = [] })
              events
              (some r.payload)
      whole =
          recv_message-open c serde receiver [] (event ∷ events) open_handler empty
          ∙ recv_loop-first c serde p.bytes p.control (suc (length events)) events some_bytes
          ∙ ap₂
              (λ (b fds : List ℕ).
                recv_loop c serde (suc (length events)) b (take_fds no_fds fds) events)
              bytes descriptor
          ∙ unfold take_fds in
            recv_loop-frame c serde m r.bytes [] r.payload (length events)
              (record { held = some fd; closed = [] }) events
              (framed-IsFrame c serde pid sender pid_fits r s) inverse
