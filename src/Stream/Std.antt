-- ===== src/Stream/Std.antt =====
-- The blocking stream of std in privsep/src/net/stream.rs, and the retrying one over it.
use privsep_rs.Prelude.{
  ℕ, zero, suc, ◌≡◌, ◌≢◌, refl, ◌∙◌, Bool, false, List, ◌∷◌, ◌++◌, replicate, Result, ok, err,
}
use privsep_rs.Ancillary.{SocketAncillary}
use privsep_rs.Stream
use privsep_rs.Stream.{
  IoError, not_connected, other, invalid_data, write_zero, would_block, os_error, ready, RecvAnswer,
  recv_failed, received, RecvEvent, answered, RecvResult, SendAnswer, send_failed, accepted,
  SendEvent, tried, SendResult, Packet, recv_vectored_with_ancillary_from,
  send_vectored_with_ancillary_to,
}

abbrev drop_flag :
    Result IoError (List ℕ × Bool) × SocketAncillary → Result IoError (List ℕ) × SocketAncillary
drop_flag (ok (bytes, _), a) = (ok bytes, a)
drop_flag (err kind, a) = (err kind, a)

unfoldable pub recv_vectored_with_ancillary :
    RecvAnswer → SocketAncillary → Result IoError (List ℕ) × SocketAncillary
unfolding recv_vectored_with_ancillary_from
recv_vectored_with_ancillary answer a = drop_flag (recv_vectored_with_ancillary_from answer a)

unfoldable pub send_vectored_with_ancillary :
    SendAnswer → List (List ℕ) → SocketAncillary → Result IoError ℕ × SocketAncillary × List Packet
unfolding send_vectored_with_ancillary_to
send_vectored_with_ancillary = send_vectored_with_ancillary_to

-- Some answers of a socket that is not ready yet.
abbrev pub busy_recv : ℕ → List RecvEvent → List RecvEvent
busy_recv n events = replicate n (answered (recv_failed would_block)) ++ events

abbrev pub busy_send : ℕ → List SendEvent → List SendEvent
busy_send n events = replicate n (tried (send_failed would_block)) ++ events

-- However often the socket was not ready, the retrying receive returns what the blocking one makes
-- of the first answer that is not WouldBlock, with its ancillary buffer, and leaves the later events.
pub recv_vectored_with_ancillary-std :
    (n : ℕ) (answer : RecvAnswer) (events : List RecvEvent) (a : SocketAncillary)
    → answer ≢ recv_failed would_block
    → Stream.recv_vectored_with_ancillary (busy_recv n (answered answer ∷ events)) a ≡ (
      ready (recv_vectored_with_ancillary answer a).0,
      (recv_vectored_with_ancillary answer a).1,
      events,
    )
unfolding recv_vectored_with_ancillary Stream.recv_vectored_with_ancillary
recv_vectored_with_ancillary-std (suc n) answer events a other_answer =
    recv_vectored_with_ancillary-std n answer events a other_answer
recv_vectored_with_ancillary-std zero (received bytes control ctrunc trunc) events a other_answer =
    refl
recv_vectored_with_ancillary-std zero (recv_failed would_block) events a other_answer =
    absurd (other_answer refl)
recv_vectored_with_ancillary-std zero (recv_failed _) events a other_answer = refl

abbrev outcome : SendAnswer → List SendEvent → List (List ℕ) → SocketAncillary → SendResult
outcome answer events bufs a = (
  ready (send_vectored_with_ancillary answer bufs a).0,
  (send_vectored_with_ancillary answer bufs a).2,
  events,
)

truncated_unread :
    (answer : SendAnswer) (events : List SendEvent) (bufs : List (List ℕ)) (a : SocketAncillary)
    → outcome answer events bufs (record a { truncated = false }) ≡ outcome answer events bufs a
unfolding send_vectored_with_ancillary
truncated_unread (accepted count) events bufs a = refl
truncated_unread (send_failed kind) events bufs a = refl

-- However often the socket was not ready, the retrying send returns what the blocking one makes of
-- the first answer that is not WouldBlock, with the same packets, and leaves the later events.
pub send_vectored_with_ancillary-std :
    (n : ℕ) (answer : SendAnswer) (events : List SendEvent) (bufs : List (List ℕ))
    (a : SocketAncillary)
    → answer ≢ send_failed would_block
    → Stream.send_vectored_with_ancillary (busy_send n (tried answer ∷ events)) bufs a ≡ (
      ready (send_vectored_with_ancillary answer bufs a).0,
      (send_vectored_with_ancillary answer bufs a).2,
      events,
    )
unfolding send_vectored_with_ancillary Stream.send_vectored_with_ancillary
send_vectored_with_ancillary-std (suc n) answer events bufs a other_answer =
    send_vectored_with_ancillary-std n answer events bufs (record a { truncated = false })
      other_answer
    ∙ truncated_unread answer events bufs a
send_vectored_with_ancillary-std zero (accepted count) events bufs a other_answer = refl
send_vectored_with_ancillary-std zero (send_failed would_block) events bufs a other_answer =
    absurd (other_answer refl)
send_vectored_with_ancillary-std zero (send_failed _) events bufs a other_answer = refl
