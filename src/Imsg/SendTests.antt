-- ===== src/Imsg/SendTests.antt =====
-- Sending in privsep/src/imsg.rs over 64-bit Linux, with payloads of bytes.
use privsep_rs.Prelude.{
  ℕ, ◌+◌, ◌<◌, ◌≡◌, refl, sym, ap, Bool, true, false, none, some, List, [], ◌∷◌, ◌++◌, length, take,
  arith, ok,
}
use privsep_rs.Memory.Ints.{to_ne_bytes}
use privsep_rs.Ancillary.Linux.{linux, linux-IsLibc}
use privsep_rs.Ancillary.Operations.{add_fds-IsWellFormed}
use privsep_rs.Stream.{
  other, would_block, ready, Packet, received, accepted, send_failed, answered, SendEvent, tried,
  send_vectored_with_ancillary,
}
use privsep_rs.Imsg.{fresh}
use privsep_rs.Imsg.Header.{header_length, connect, as_bytes}
use privsep_rs.Imsg.Send.{
  refused, attach, send_message, send_message_internal, send_serialized, send_attached, u16_limit,
}
use privsep_rs.Imsg.Recv.{returned, recv_message}
use privsep_rs.Imsg.Framing.{frame}
use privsep_rs.Imsg.Receiving.{message, recv_many}
use privsep_rs.Imsg.Sending.{stamped, reserved_id, send_message-refused}
use privsep_rs.Imsg.Writes.{Passed, send_message-ok}
use privsep_rs.Imsg.EndToEnd.{
  Request, sent, IsSent, sent_packet, sent_bytes, recv_many-send_message, send_message-accepted,
}
use privsep_rs.Imsg.Transfer.{fresh-IsWellFormed, control, recv_message-send_message}
use privsep_rs.Imsg.Samples.{raw, handler, payload, hello, hello_sent, hello-IsMessage, rights_room}

-- The socket is busy at first, then takes the whole message.
abbrev pub takes_all : List SendEvent
takes_all = tried (send_failed would_block) ∷ tried (accepted 18) ∷ []

send_message-refused_run :
    send_message linux raw 42 handler (connect 42 0) none payload takes_all
    ≡ refused other takes_all
send_message-refused_run =
    send_message-refused linux raw 42 handler (connect 42 0) none payload takes_all
      (reserved_id (omega arith))

pub hello_taken :
    (send_message linux raw 42 handler hello none payload takes_all).result ≡ ready (ok tt)
unfolding send_message send_message_internal send_serialized send_attached attach
    send_vectored_with_ancillary
hello_taken = refl

send_message-ok_example :
    (hello.length ≡ header_length)
    × (length payload + hello.length < u16_limit)
    × ((send_message linux raw 42 handler hello none payload takes_all).packets
        ≡ record {
          bytes = frame linux (stamped 42 hello payload) payload;
          control = take (attach linux none).0.length (attach linux none).0.buffer;
        }
          ∷ [])
send_message-ok_example =
    send_message-ok linux raw 42 handler hello none payload takes_all payload refl (omega arith)
      (tt, (omega arith, tt)) hello_taken

hello-Passed :
    Passed linux raw 42 handler hello none payload (tried (accepted 18) ∷ []) payload fresh
unfolding attach
hello-Passed = record {
  unreserved = omega arith;
  is_open = refl;
  serialized = refl;
  fits = omega arith;
  attached = refl;
}

send_message-accepted_run :
    ((send_message linux raw 42 handler hello none payload (tried (accepted 18) ∷ [])).result
      ≡ ready (ok tt))
    × ((send_message linux raw 42 handler hello none payload (tried (accepted 18) ∷ [])).events
        ≡ [])
send_message-accepted_run =
    send_message-accepted linux raw 42 handler hello none payload [] payload fresh hello-Passed refl

abbrev pub request : Request (List ℕ)
request = record {
  message = hello;
  fd = none;
  payload = payload;
  bytes = payload;
  events = takes_all;
}

pub request-IsSent : IsSent linux raw 42 handler request
request-IsSent = record {
  valid = hello-IsMessage;
  long = omega arith;
  serialized = refl;
  bounded = (tt, (omega arith, tt));
  done = hello_taken;
}

pub some-inverse : (t bytes : List ℕ) → some t ≡ some bytes → some bytes ≡ some t
some-inverse t bytes e = sym e

hello_received :
    frame linux hello_sent payload ++ [] ≡ sent_bytes linux raw 42 handler (request ∷ [])
unfolding send_message send_message_internal send_serialized send_attached attach
    send_vectored_with_ancillary as_bytes to_ne_bytes linux
hello_received = refl

recv_many-send_message_example :
    recv_many linux raw 1 handler
      (answered (received (frame linux hello_sent payload) [] false false) ∷ [])
    ≡ message (stamped 42 hello payload) payload ∷ []
unfolding linux as_bytes to_ne_bytes
recv_many-send_message_example =
    recv_many-send_message linux raw 42 handler handler (request ∷ [])
      (answered (received (frame linux hello_sent payload) [] false false) ∷ []) some-inverse
      (omega arith) (request-IsSent, tt) refl refl (tt, tt) hello_received

abbrev fd_request : Request (List ℕ)
fd_request = record request { fd = some 9; events = tried (accepted 18) ∷ [] }

rights_attached : (attach linux (some 9)).1 ≡ true
unfolding attach
rights_attached =
    (add_fds-IsWellFormed linux linux-IsLibc fresh [] (fresh-IsWellFormed linux linux-IsLibc)
      (9 ∷ []) (omega arith) (omega (arith, rights_room))).0

fd-Passed :
    Passed linux raw 42 handler hello
      (some 9)
      payload
      (tried (accepted 18) ∷ [])
      payload
      (attach linux (some 9)).0
fd-Passed = record {
  unreserved = omega arith;
  is_open = refl;
  serialized = refl;
  fits = omega arith;
  attached = ap (λ (b : Bool). ((attach linux (some 9)).0, b)) rights_attached;
}

fd_taken :
    (send_message linux raw 42 handler hello (some 9) payload (tried (accepted 18) ∷ [])).result
    ≡ ready (ok tt)
fd_taken =
    (send_message-accepted linux raw 42 handler hello (some 9) payload [] payload
      (attach linux (some 9)).0 fd-Passed refl).0

fd_request-IsSent : IsSent linux raw 42 handler fd_request
fd_request-IsSent = record {
  valid = hello-IsMessage;
  long = omega arith;
  serialized = refl;
  bounded = (omega arith, tt);
  done = fd_taken;
}

abbrev fd_packet : Packet
fd_packet = record { bytes = frame linux hello_sent payload; control = control linux 9 }

fd_one_packet : (sent linux raw 42 handler fd_request).packets ≡ fd_packet ∷ []
fd_one_packet = sent_packet linux raw 42 handler fd_request fd_request-IsSent

recv_message-send_message_example :
    (recv_message linux raw handler
      (answered (received fd_packet.bytes fd_packet.control false false) ∷ [])).progress
    ≡ returned (ok (some (stamped 42 hello payload, some 9, payload)))
recv_message-send_message_example =
    recv_message-send_message linux linux-IsLibc raw 42 handler handler fd_request 9 fd_packet []
      (omega arith) rights_room refl (omega arith) fd_request-IsSent refl fd_one_packet refl refl
