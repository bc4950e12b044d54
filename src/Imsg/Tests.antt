-- ===== src/Imsg/Tests.antt =====
-- Receiving in privsep/src/imsg.rs over 64-bit Linux, with payloads of bytes.
use privsep_rs.Prelude.{
  ℕ, ◌≡◌, ◌≢◌, refl, false, none, some, List, [], ◌∷◌, ◌++◌, length, take, drop, replicate, arith,
  ok,
}
use mathlib.Core.List.{Perm}
use privsep_rs.Memory.Ints.{big, to_ne_bytes}
use privsep_rs.Ancillary.Linux.{linux, linux-IsLibc}
use privsep_rs.Stream.{
  recv_vectored_with_ancillary, recv_vectored_with_ancillary_from, would_block, Packet, received,
  recv_failed, RecvEvent, answered,
}
use privsep_rs.Imsg.Header.{header_length, as_bytes, from_bytes, from_bytes-as_bytes}
use privsep_rs.Imsg.Recv.{
  returned, waiting, Received, stuck, no_fds, is_complete, after_read, recv_loop, recv_message,
  deserialized,
}
use privsep_rs.Imsg.Framing.{frame}
use privsep_rs.Imsg.Receiving.{message, recv_many, recv_many-wire}
use privsep_rs.Imsg.EndOfFile.{end_of_file, closed_after, recv_message-closed}
use privsep_rs.Imsg.Arrivals.{Arrived}
use privsep_rs.Imsg.Descriptors.{placed, recv_message-fds}
use privsep_rs.Imsg.Progress.{recv_message-ne-stuck}
use privsep_rs.Imsg.Malformed.{recv_message-short, recv_many-zero_length, recv_message-wrong_owner}
use privsep_rs.Imsg.Cancelled.{read_of, cancel, after, recv_message-cancelled}
use privsep_rs.Imsg.Transfer.{control, rights_of-attach}
use privsep_rs.Imsg.Samples.{
  raw, handler, payload, hello, hello_sent, bye, hello-IsMessage, hello-IsFrame, bye-IsFrame,
  rights_room,
}

from_bytes-as_bytes_run :
    (length (as_bytes big hello) ≡ header_length) × (from_bytes big (as_bytes big hello) ≡ hello)
from_bytes-as_bytes_run = from_bytes-as_bytes big hello hello-IsMessage

-- The bytes of the two messages, in two reads with an interruption.
abbrev both : List ℕ
both = frame linux hello_sent payload ++ (frame linux bye [] ++ [])

abbrev cut : List RecvEvent
cut =
    answered (received (take 7 both) [] false false)
    ∷ answered (recv_failed would_block)
    ∷ answered (received (drop 7 both) [] false false)
    ∷ []

recv_many-wire_example :
    recv_many linux raw 2 handler cut ≡ message hello_sent payload ∷ message bye [] ∷ []
unfolding linux as_bytes to_ne_bytes
recv_many-wire_example =
    recv_many-wire linux raw ((hello_sent, payload) ∷ (bye, []) ∷ []) [] handler cut
      (hello-IsFrame, (bye-IsFrame, tt)) refl (tt, (tt, (tt, tt))) refl

-- A read with a descriptor.
abbrev with_rights : List RecvEvent
with_rights = answered (received (frame linux bye []) (control linux 9) false false) ∷ []

recv_message-fds_example :
    (came left : List ℕ) × Arrived linux with_rights came
    × Arrived linux (recv_message linux raw handler with_rights).events left
    × Perm (placed (recv_message linux raw handler with_rights) ++ left) came
recv_message-fds_example = recv_message-fds linux raw handler with_rights

recv_message-ne-stuck_run : (recv_message linux raw handler cut).progress ≢ stuck
recv_message-ne-stuck_run = recv_message-ne-stuck linux raw handler cut

recv_message-short_run :
    recv_message linux raw
      (record handler { read_buffer = as_bytes linux.endian (record bye { length = 4 }) ++ [] })
      []
    ≡ deserialized linux raw
        (record bye { length = 4 })
        (drop 4 (as_bytes linux.endian (record bye { length = 4 }) ++ []))
        no_fds
        []
        (some [])
recv_message-short_run =
    recv_message-short linux raw (record bye { length = 4 })
      (record {
        id_fits = omega arith;
        length_fits = omega arith;
        flags_fits = omega arith;
        peer_id_fits = omega arith;
        pid_fits = omega arith;
      })
      (omega arith) []
      (record handler { read_buffer = as_bytes linux.endian (record bye { length = 4 }) ++ [] }) []
      refl refl

recv_many-zero_length_example :
    recv_many linux raw 3
      (record handler { read_buffer = as_bytes linux.endian (record bye { length = 0 }) ++ [] })
      cut
    ≡ replicate 3 (message (record bye { length = 0 }) [])
recv_many-zero_length_example =
    recv_many-zero_length linux raw (record bye { length = 0 }) [] [] 3
      (record handler { read_buffer = as_bytes linux.endian (record bye { length = 0 }) ++ [] }) cut
      (record {
        id_fits = omega arith;
        length_fits = omega arith;
        flags_fits = omega arith;
        peer_id_fits = omega arith;
        pid_fits = omega arith;
      })
      refl refl refl refl

abbrev hello_packet : Packet
hello_packet = record { bytes = frame linux hello_sent payload; control = [] }

abbrev bye_packet : Packet
bye_packet = record { bytes = frame linux bye []; control = control linux 9 }

recv_message-wrong_owner_example :
    ((recv_message linux raw handler (
        answered (received (hello_packet.bytes ++ bye_packet.bytes) bye_packet.control false false)
        ∷ [])).progress
      ≡ returned (ok (some (hello_sent, some 9, payload))))
    × ((recv_message linux raw
          (record handler {
            read_buffer =
                (recv_message linux raw handler (
                  answered (
                    received
                      (hello_packet.bytes ++ bye_packet.bytes)
                      bye_packet.control
                      false
                      false)
                  ∷ [])).read_buffer;
          })
          (recv_message linux raw handler (
            answered
              (received (hello_packet.bytes ++ bye_packet.bytes) bye_packet.control false false)
            ∷ [])).events).progress
        ≡ returned (ok (some (bye, none, []))))
recv_message-wrong_owner_example =
    recv_message-wrong_owner linux raw hello_sent bye payload [] payload [] hello_packet bye_packet
      9 handler [] hello-IsFrame bye-IsFrame refl refl refl refl
      (rights_of-attach linux linux-IsLibc 9 (omega arith) rights_room) refl refl

-- The sent message with a descriptor, whose first seven bytes are read before the call is dropped.
abbrev dropped : Received (List ℕ)
dropped =
    recv_message linux raw handler
      (read_of (take 7 (frame linux hello_sent payload)) (control linux 9) ∷ [])

recv_message-cancelled_example :
    (dropped.progress ≡ waiting)
    × ((cancel linux raw dropped).fds.closed ≡ 9 ∷ [])
    × ((recv_message linux raw
          (after linux raw handler (cancel linux raw dropped))
          (read_of (drop 7 (frame linux hello_sent payload)) [] ∷ [])).progress
        ≡ returned (ok (some (hello_sent, none, payload))))
unfolding linux as_bytes to_ne_bytes
recv_message-cancelled_example =
    recv_message-cancelled linux raw hello_sent payload hello-IsFrame
      (take 7 (frame linux hello_sent payload)) (drop 7 (frame linux hello_sent payload)) refl
      (omega arith) linux-IsLibc payload (control linux 9) 9 handler (omega arith) refl
      (rights_of-attach linux linux-IsLibc 9 (omega arith) rights_room) refl refl

-- The header of a message and a part of its payload.
abbrev half : List RecvEvent
half = answered (received (take 17 (frame linux hello_sent payload)) [] false false) ∷ []

half_waits : (recv_message linux raw handler half).progress ≡ waiting
unfolding recv_message recv_loop after_read is_complete recv_vectored_with_ancillary
    recv_vectored_with_ancillary_from as_bytes to_ne_bytes linux from_bytes
    privsep_rs.Memory.Ints.from_ne_bytes
half_waits = refl

recv_message-closed_example :
    recv_message linux raw handler (half ++ (end_of_file ∷ []))
    ≡ closed_after linux raw (recv_message linux raw handler half) []
recv_message-closed_example = recv_message-closed linux raw handler half [] refl half_waits
