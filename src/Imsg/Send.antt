-- ===== src/Imsg/Send.antt =====
-- Handler::send_message of privsep/src/imsg.rs.
use privsep_rs.Prelude.{
  ℕ, ◌+◌, ◌^◌, Bool, true, false, Option, none, some, List, [], ◌∷◌, length, ltb, ◌==◌,
  if◌then◌else◌, Result, ok, err,
}
use privsep_rs.Ancillary.{SocketAncillary, add_fds}
use privsep_rs.Ancillary.Cmsg.{Libc}
use privsep_rs.Stream.{
  IoError, not_connected, other, invalid_data, write_zero, Poll, pending, ready, SendEvent, Packet,
  SendResult, send_vectored_with_ancillary,
}
use privsep_rs.Imsg.{Serde, Handler, fresh}
use privsep_rs.Imsg.Header.{Message, as_bytes, reserved}

abbrev pub u16_limit : ℕ
u16_limit = 2 ^ 16

-- The result of a send, what it put on the socket and the events that are left.
pub record Sent : Type 0 where
  pub result : Poll (Result IoError (Unit {0}))
  pub packets : List Packet
  pub events : List SendEvent

abbrev pub refused : IoError → List SendEvent → Sent
refused kind events = record { result = ready (err kind); packets = []; events = events }

-- if length != message_length { short message }
abbrev pub check_length : ℕ → Poll (Result IoError ℕ) → Poll (Result IoError (Unit {0}))
check_length expected pending = pending
check_length expected (ready (err kind)) = ready (err kind)
check_length expected (ready (ok count)) =
    ready (if count == expected then ok tt else err write_zero)

abbrev pub to_sent : ℕ → SendResult → Sent
to_sent expected (result, packets, events) = record {
  result = check_length expected result;
  packets = packets;
  events = events;
}

-- An empty payload is no buffer of its own.
abbrev pub iovs : List ℕ → List ℕ → List (List ℕ)
iovs header [] = header ∷ []
iovs header (b ∷ bytes) = header ∷ (b ∷ bytes) ∷ []

module _ (c : Libc) where
  -- if let Some(fd) = fd { ancillary.add_fds(..) }
  unfoldable pub attach : Option ℕ → SocketAncillary × Bool
  attach none = (fresh, true)
  attach (some fd) = add_fds c (fd ∷ []) fresh

  unfoldable pub send_attached : Message → List ℕ → List SendEvent → SocketAncillary × Bool → Sent
  send_attached message bytes events (ancillary, false) = refused other events
  send_attached message bytes events (ancillary, true) =
      let header = as_bytes c.endian message in
      to_sent message.length (send_vectored_with_ancillary events (iovs header bytes) ancillary)

  unfoldable pub send_serialized : ℕ → Message → Option ℕ → List SendEvent → Option (List ℕ) → Sent
  send_serialized pid message fd events none = refused invalid_data events
  send_serialized pid message fd events (some bytes) =
      let total = length bytes + message.length in
      if ltb total u16_limit
      then send_attached (record message { pid = pid; length = total }) bytes events (attach fd)
      else refused invalid_data events

  -- `pid` is getpid().
  unfoldable pub send_message_internal :
      {T : Type 0} → Serde T → ℕ → Handler → Message → Option ℕ → T → List SendEvent → Sent
  send_message_internal serde pid h message fd payload events =
      if h.shutdown
      then refused not_connected events
      else send_serialized pid message fd events (serde.serialize payload)

  unfoldable pub send_message :
      {T : Type 0} → Serde T → ℕ → Handler → Message → Option ℕ → T → List SendEvent → Sent
  send_message serde pid h message fd payload events =
      if ltb message.id reserved
      then refused other events
      else send_message_internal serde pid h message fd payload events
