-- ===== src/Imsg/QueueTests.antt =====
-- A run of the two ends of a socket pair of privsep/src/imsg.rs over 64-bit Linux: a send, and a
-- receive in two parts, of which the first is given up.
use privsep_rs.Prelude.{ℕ, ◌≡◌, refl, false, List, none, [], ◌∷◌, ◌++◌, take, drop, arith}
use privsep_rs.Memory.Ints.{to_ne_bytes}
use privsep_rs.Ancillary.Linux.{linux}
use privsep_rs.Stream.{
  received, answered, RecvEvent, recv_vectored_with_ancillary, send_vectored_with_ancillary,
}
use privsep_rs.Imsg.Header.{as_bytes}
use privsep_rs.Imsg.Send.{
  attach, send_message, send_message_internal, send_serialized, send_attached,
}
use privsep_rs.Imsg.Recv.{recv_message, recv_loop, is_complete, after_read}
use privsep_rs.Imsg.Receiving.{Content, message}
use privsep_rs.Imsg.Framing.{frame}
use privsep_rs.Imsg.Sending.{stamped}
use privsep_rs.Imsg.EndToEnd.{packet_bytes, sent}
use privsep_rs.Imsg.Queue.{
  Label, enter, observe, QueueRun, entered, left, Channel, after_receive, send, receive, Run, stop,
  then, Represents,
}
use privsep_rs.Imsg.{buffer_length}
use privsep_rs.Imsg.Bounds.{IsSmall, send_message-IsSmall}
use privsep_rs.Imsg.Fifo.{Run-QueueRun, Run-left}
use privsep_rs.Imsg.Samples.{raw, handler, payload, hello, hello_sent}
use privsep_rs.Imsg.SendTests.{takes_all, request, request-IsSent, some-inverse}

abbrev channel : Channel
channel = record { sender = handler; receiver = handler; flight = [] }

channel-Represents : Represents linux raw 42 channel []
channel-Represents = record {
  frames = [];
  valid = tt;
  bytes = refl;
  meaning = refl;
  is_open = refl;
}

abbrev bytes : List ℕ
bytes = packet_bytes (sent linux raw 42 handler request).packets

abbrev first : List RecvEvent
first = answered (received (take 7 (frame linux hello_sent payload)) [] false false) ∷ []

abbrev second : List RecvEvent
second = answered (received (drop 7 (frame linux hello_sent payload)) [] false false) ∷ []

abbrev on_its_way : Channel
on_its_way = record channel { flight = bytes }

abbrev held : Channel
held =
    after_receive linux raw 42 on_its_way (recv_message linux raw handler first)
      (drop 7 (frame linux hello_sent payload))

abbrev done : Channel
done = after_receive linux raw 42 held (recv_message linux raw held.receiver second) []

abbrev labels : List (Label (List ℕ))
labels =
    enter (message (stamped 42 hello payload) payload)
    ∷ observe (recv_message linux raw handler first).progress
    ∷ observe (recv_message linux raw held.receiver second).progress
    ∷ []

example-Run : Run linux raw 42 channel labels done
unfolding send_message send_message_internal send_serialized send_attached attach
    send_vectored_with_ancillary as_bytes to_ne_bytes linux recv_message recv_loop is_complete
    after_read recv_vectored_with_ancillary
example-Run = then (send request request-IsSent) (
    then (receive first (drop 7 (frame linux hello_sent payload)) (tt, tt) refl)
      (then (receive second [] (tt, tt) refl) stop))

Run-QueueRun_example :
    (p : List (Content (List ℕ))) × QueueRun [] labels p × Represents linux raw 42 done p
Run-QueueRun_example =
    Run-QueueRun linux raw 42 some-inverse (omega arith) channel done [] labels example-Run
      channel-Represents

Run-left_example :
    (p : List (Content (List ℕ))) × (entered labels ≡ left labels ++ p)
    × (done.receiver.read_buffer ++ done.flight ≡ [] → p ≡ [])
Run-left_example =
    Run-left linux raw 42 some-inverse (omega arith) channel done labels refl refl refl example-Run

send_message-IsSmall_example :
    IsSmall buffer_length (send_message linux raw 42 handler hello none payload takes_all).packets
send_message-IsSmall_example =
    send_message-IsSmall linux raw 42 handler hello none payload takes_all (omega arith)
