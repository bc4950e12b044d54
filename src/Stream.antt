-- ===== src/Stream.antt =====
-- privsep/src/net/stream.rs, and the wrappers of `recvmsg` and `sendmsg` in
-- privsep/src/net/ancillary.rs. The kernel's answers are a list of events; an empty list means that
-- the task waits.
pub mod Std
mod Tests
pub mod Events
use privsep_rs.Prelude.{ℕ, Bool, true, false, List, [], ◌∷◌, ◌++◌, length, take, Result, ok, err}
use privsep_rs.Memory.{write_at}
use privsep_rs.Ancillary.{SocketAncillary}

-- io::Error, by its kind; `os_error` is an errno that has no kind of its own here.
pub data IoError : Type 0 where
  not_connected other invalid_data write_zero would_block : IoError
  os_error : ℕ → IoError

-- A future that has not completed, or its output.
pub data Poll {ℓ} (A : Type ℓ) : Type ℓ where
  pending : Poll A
  ready : A → Poll A

-- One answer of recvmsg(2): an error, or the data, the control data and the flags MSG_CTRUNC and
-- MSG_TRUNC.
pub data RecvAnswer : Type 0 where
  recv_failed : IoError → RecvAnswer
  received : List ℕ → List ℕ → Bool → Bool → RecvAnswer

-- `readable()` fails, or the call after it answers.
pub data RecvEvent : Type 0 where
  unreadable : IoError → RecvEvent
  answered : RecvAnswer → RecvEvent

-- One answer of sendmsg(2): an error, or the number of bytes that were taken.
pub data SendAnswer : Type 0 where
  send_failed : IoError → SendAnswer
  accepted : ℕ → SendAnswer

pub data SendEvent : Type 0 where
  unwritable : IoError → SendEvent
  tried : SendAnswer → SendEvent

-- What one sendmsg(2) put on the socket.
pub record Packet : Type 0 where
  pub bytes : List ℕ
  pub control : List ℕ

-- The data, whose length is the count, and whether they were cut.
unfoldable pub recv_vectored_with_ancillary_from :
    RecvAnswer → SocketAncillary → Result IoError (List ℕ × Bool) × SocketAncillary
recv_vectored_with_ancillary_from (recv_failed kind) a = (err kind, a)
recv_vectored_with_ancillary_from (received bytes control ctrunc trunc) a = (
  ok (bytes, trunc),
  record a { buffer = write_at 0 control a.buffer; length = length control; truncated = ctrunc },
)

abbrev pub gather : List (List ℕ) → List ℕ
gather [] = []
gather (buf ∷ bufs) = buf ++ gather bufs

unfoldable pub send_vectored_with_ancillary_to :
    SendAnswer → List (List ℕ) → SocketAncillary → Result IoError ℕ × SocketAncillary × List Packet
send_vectored_with_ancillary_to (send_failed kind) bufs a =
    (err kind, record a { truncated = false }, [])
send_vectored_with_ancillary_to (accepted count) bufs a = (
  ok count,
  record a { truncated = false },
  record { bytes = take count (gather bufs); control = take a.length a.buffer } ∷ [],
)

-- The tokio stream: WouldBlock is retried, any other error is returned.
abbrev pub RecvResult : Type 0
RecvResult = Poll (Result IoError (List ℕ)) × SocketAncillary × List RecvEvent

-- `retry` is the next round of the loop.
abbrev pub recv_match :
    Result IoError (List ℕ × Bool) × SocketAncillary → List RecvEvent → RecvResult → RecvResult
recv_match (ok (bytes, _), a) events retry = (ready (ok bytes), a, events)
recv_match (err would_block, a) events retry = retry
recv_match (err kind, a) events retry = (ready (err kind), a, events)

unfoldable pub recv_vectored_with_ancillary : List RecvEvent → SocketAncillary → RecvResult
unfolding recv_vectored_with_ancillary_from
recv_vectored_with_ancillary [] a = (pending, a, [])
recv_vectored_with_ancillary (unreadable kind ∷ events) a = (ready (err kind), a, events)
recv_vectored_with_ancillary (answered answer ∷ events) a =
    let result = recv_vectored_with_ancillary_from answer a in
    recv_match result events (recv_vectored_with_ancillary events result.1)

abbrev pub SendResult : Type 0
SendResult = Poll (Result IoError ℕ) × List Packet × List SendEvent

abbrev pub send_match :
    Result IoError ℕ × SocketAncillary × List Packet → List SendEvent → SendResult → SendResult
send_match (ok count, _, packets) events retry = (ready (ok count), packets, events)
send_match (err would_block, _, packets) events retry = retry
send_match (err kind, _, packets) events retry = (ready (err kind), packets, events)

unfoldable pub send_vectored_with_ancillary :
    List SendEvent → List (List ℕ) → SocketAncillary → SendResult
unfolding send_vectored_with_ancillary_to
send_vectored_with_ancillary [] bufs a = (pending, [], [])
send_vectored_with_ancillary (unwritable kind ∷ events) bufs a = (ready (err kind), [], events)
send_vectored_with_ancillary (tried answer ∷ events) bufs a =
    let result = send_vectored_with_ancillary_to answer bufs a in
    send_match result events (send_vectored_with_ancillary events bufs result.1)
