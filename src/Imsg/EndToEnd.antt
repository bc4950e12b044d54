-- ===== src/Imsg/EndToEnd.antt =====
-- Handler::send_message and Handler::recv_message of privsep/src/imsg.rs, on the two ends of a socket.
use privsep_rs.Prelude.{
  ℕ, suc, ◌+◌, ◌^◌, ◌≤◌, ◌<◌, ◌≡◌, refl, ap, sym, ◌∙◌, false, Option, some, List, [], ◌∷◌, ◌++◌,
  map, length, take, append-nil, All, arith, ok, ==-refl,
}
use mathlib.Core.Path.{ap₂}
use privsep_rs.Ancillary.{SocketAncillary}
use privsep_rs.Ancillary.Cmsg.{Libc}
use privsep_rs.Stream.{
  ready, accepted, RecvEvent, SendEvent, tried, Packet, send_vectored_with_ancillary,
}
use privsep_rs.Stream.Events.{stream, IsLive}
use privsep_rs.Imsg.{Serde, Handler}
use privsep_rs.Imsg.Header.{Message, IsMessage, header_length}
use privsep_rs.Imsg.Send.{Sent, attach, check_length, send_message}
use privsep_rs.Imsg.Framing.{frame, IsFrame}
use privsep_rs.Imsg.Sending.{stamped, send_message-write}
use privsep_rs.Imsg.Receiving.{Content, message, expected, wire, recv_many, recv_many-wire}
use privsep_rs.Imsg.Writes.{IsBounded, Passed, send_message-ok}

-- The arguments of one call of `send_message`, with the serialized payload and the answers of the
-- socket.
pub record Request (T : Type 0) : Type 0 where
  pub message : Message
  pub fd : Option ℕ
  pub payload : T
  pub bytes : List ℕ
  pub events : List SendEvent

abbrev pub packet_bytes : List Packet → List ℕ
packet_bytes [] = []
packet_bytes (p ∷ packets) = p.bytes ++ packet_bytes packets

module _ (c : Libc) {T : Type 0} (serde : Serde T) (pid : ℕ) where
  module _ (h : Handler) where
    abbrev pub sent : Request T → Sent
    sent r = send_message c serde pid h r.message r.fd r.payload r.events

    -- A call with a header in range, whose payload is serialized, that returned Ok.
    pub record IsSent (r : Request T) : Type 0 where
      pub valid : IsMessage r.message
      pub long : header_length ≤ r.message.length
      pub serialized : serde.serialize r.payload ≡ some r.bytes
      pub bounded : All (IsBounded (header_length + length r.bytes)) r.events
      pub done : (sent r).result ≡ ready (ok tt)

    -- The bytes that the calls put on the socket, in order.
    abbrev pub sent_bytes : List (Request T) → List ℕ
    sent_bytes [] = []
    sent_bytes (r ∷ requests) = packet_bytes (sent r).packets ++ sent_bytes requests

    abbrev pub framed : Request T → Message × List ℕ
    framed r = (stamped pid r.message r.bytes, r.bytes)

    pub sent_packet :
        (r : Request T)
        → IsSent r
        → (sent r).packets
          ≡ record {
            bytes = frame c (stamped pid r.message r.bytes) r.bytes;
            control = take (attach c r.fd).0.length (attach c r.fd).0.buffer;
          }
            ∷ []
    sent_packet r s =
        (send_message-ok c serde pid h r.message r.fd r.payload r.events r.bytes s.serialized s.long
          s.bounded s.done).2

    pub sent-frame :
        (r : Request T)
        → IsSent r
        → packet_bytes (sent r).packets ≡ frame c (stamped pid r.message r.bytes) r.bytes
    sent-frame r s =
        ap (λ (ps : List Packet). packet_bytes ps) (sent_packet r s)
        ∙ append-nil (frame c (stamped pid r.message r.bytes) r.bytes)

    pub framed-IsFrame :
        pid < 2 ^ 32 → (r : Request T) → IsSent r → IsFrame c (framed r).0 (framed r).1
    framed-IsFrame pid_fits r s =
        let (header_only, fits, _) =
          send_message-ok c serde pid h r.message r.fd r.payload r.events r.bytes s.serialized
            s.long s.bounded s.done in
        record {
          valid = record {
            id_fits = s.valid.id_fits;
            length_fits = fits;
            flags_fits = s.valid.flags_fits;
            peer_id_fits = s.valid.peer_id_fits;
            pid_fits = pid_fits;
          };
          total = omega arith;
        }

    All-framed :
        pid < 2 ^ 32
        → (requests : List (Request T)) → All IsSent requests
        → All (λ f. IsFrame c f.0 f.1) (map framed requests)
    All-framed pid_fits [] all_sent = tt
    All-framed pid_fits (r ∷ requests) (s, all_sent) =
        (framed-IsFrame pid_fits r s, All-framed pid_fits requests all_sent)

    sent_wire :
        (requests : List (Request T))
        → All IsSent requests
        → sent_bytes requests ≡ wire c serde (map framed requests)
    sent_wire [] all_sent = refl
    sent_wire (r ∷ requests) (s, all_sent) =
        ap₂ (λ (x y : List ℕ). x ++ y) (sent-frame r s) (sent_wire requests all_sent)

    delivered :
        ((t : T) (bytes : List ℕ)
          → serde.serialize t ≡ some bytes
          → serde.deserialize bytes ≡ some t)
        → (requests : List (Request T)) → All IsSent requests
        → map (λ f. expected f.0 (serde.deserialize f.1)) (map framed requests)
          ≡ map (λ r. message (stamped pid r.message r.bytes) r.payload) requests
    delivered inverse [] all_sent = refl
    delivered inverse (r ∷ requests) (s, all_sent) =
        ap₂ (λ (x : Content T) (xs : List (Content T)). x ∷ xs)
          (ap (expected (stamped pid r.message r.bytes)) (inverse r.payload r.bytes s.serialized))
          (delivered inverse requests all_sent)

  length-framed :
      (h : Handler) (requests : List (Request T))
      → length (map (framed h) requests) ≡ length requests
  length-framed h [] = refl
  length-framed h (r ∷ requests) = ap suc (length-framed h requests)

  -- For a serializer that its deserializer inverts and a process id of 32 bits: whatever calls of
  -- `send_message`, of messages with fields in range and a length of a header at least, returned
  -- Ok on one handler over a kernel that takes no more than it is offered, an open handler at the
  -- other end with an empty buffer, to which a live socket delivers those bytes in any cuts,
  -- returns as many messages: the sent ones, in order, each with its payload, the sender's process
  -- id and the total length.
  pub recv_many-send_message :
      (sender receiver : Handler) (requests : List (Request T)) (events : List RecvEvent)
      → ((t : T) (bytes : List ℕ)
          → serde.serialize t ≡ some bytes
          → serde.deserialize bytes ≡ some t)
      → pid < 2 ^ 32
      → All (IsSent sender) requests
      → receiver.shutdown ≡ false
      → receiver.read_buffer ≡ []
      → All IsLive events
      → stream events ≡ sent_bytes sender requests
      → recv_many c serde (length requests) receiver events
        ≡ map (λ r. message (stamped pid r.message r.bytes) r.payload) requests
  recv_many-send_message sender receiver requests events inverse pid_fits all_sent open_handler
        empty live same =
      ap (λ (n : ℕ). recv_many c serde n receiver events) (sym (length-framed sender requests))
      ∙ recv_many-wire c serde (map (framed sender) requests) [] receiver events
          (All-framed sender pid_fits requests all_sent) open_handler live
          (ap₂ (λ (x y : List ℕ). x ++ y) empty (same ∙ sent_wire sender requests all_sent)
            ∙ sym (append-nil (wire c serde (map (framed sender) requests))))
      ∙ delivered sender inverse requests all_sent

  check_length-all : (n k : ℕ) → n ≡ k → check_length n (ready (ok k)) ≡ ready (ok tt)
  check_length-all n k same = rw (same, ==-refl k) refl

  -- A send that passes all checks, of a message whose length is that of a header, returns Ok when
  -- the socket takes the whole message at once, and uses just that one answer.
  pub send_message-accepted :
      (h : Handler) (m : Message) (fd : Option ℕ) (payload : T) (events : List SendEvent)
      (bytes : List ℕ) (a : SocketAncillary)
      → Passed c serde pid h m fd payload
          (tried (accepted (header_length + length bytes)) ∷ events)
          bytes
          a
      → m.length ≡ header_length
      → let s =
          send_message c serde pid h m fd payload
            (tried (accepted (header_length + length bytes)) ∷ events) in
        (s.result ≡ ready (ok tt)) × (s.events ≡ events)
  unfolding send_vectored_with_ancillary
  send_message-accepted h m fd payload events bytes a p header_only =
      let all_events = tried (accepted (header_length + length bytes)) ∷ events in
      let write =
        send_message-write c serde pid h m fd payload all_events bytes a p.unreserved p.is_open
          p.serialized p.fits p.attached in
      (
        ap (λ (s : Sent). s.result) write
            ∙ check_length-all (length bytes + m.length) (header_length + length bytes)
                (omega arith),
        ap (λ (s : Sent). s.events) write,
      )
