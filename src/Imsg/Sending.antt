-- ===== src/Imsg/Sending.antt =====
-- The refusals of Handler::send_message of privsep/src/imsg.rs.
use privsep_rs.Prelude.{
  ℕ, ◌+◌, ◌≤◌, ◌<◌, ◌≡◌, refl, ap, ◌∙◌, Bool, true, false, Option, none, some, List, [], ◌∷◌, ◌++◌,
  length, append-nil, lt→ltb, le→ltb,
}
use privsep_rs.Ancillary.{SocketAncillary}
use privsep_rs.Ancillary.Cmsg.{Libc}
use privsep_rs.Stream.{
  IoError, not_connected, other, invalid_data, SendEvent, gather, send_vectored_with_ancillary,
}
use privsep_rs.Imsg.{Serde, Handler}
use privsep_rs.Imsg.Header.{Message, reserved, as_bytes}
use privsep_rs.Imsg.Send.{
  refused, to_sent, iovs, attach, send_attached, send_serialized, send_message_internal,
  send_message, u16_limit,
}

pub gather-iovs : (header bytes : List ℕ) → gather (iovs header bytes) ≡ header ++ bytes
gather-iovs header [] = refl
gather-iovs header (b ∷ bytes) = ap (λ (t : List ℕ). header ++ (b ∷ t)) (append-nil bytes)

-- The message that is sent, with these bytes of payload.
abbrev pub stamped : ℕ → Message → List ℕ → Message
stamped pid m bytes = record m { pid = pid; length = length bytes + m.length }

module _ (c : Libc) {T : Type 0} (serde : Serde T) (pid : ℕ) (h : Handler) (m : Message)
    (fd : Option ℕ) (payload : T) (events : List SendEvent) where
  -- Why a send is refused before the socket, each reason with what the code has checked by then.
  pub data Refusal : IoError → Type 0 where
    reserved_id : m.id < reserved → Refusal other
    is_shut : reserved ≤ m.id → h.shutdown ≡ true → Refusal not_connected
    unserializable :
        reserved ≤ m.id → h.shutdown ≡ false → serde.serialize payload ≡ none → Refusal invalid_data
    too_long :
        (bytes : List ℕ)
        → reserved ≤ m.id
        → h.shutdown ≡ false
        → serde.serialize payload ≡ some bytes
        → u16_limit ≤ length bytes + m.length
        → Refusal invalid_data
    no_room :
        (bytes : List ℕ)
        → reserved ≤ m.id
        → h.shutdown ≡ false
        → serde.serialize payload ≡ some bytes
        → length bytes + m.length < u16_limit
        → (attach c fd).1 ≡ false
        → Refusal other

  past_id :
      reserved ≤ m.id
      → send_message c serde pid h m fd payload events
        ≡ send_message_internal c serde pid h m fd payload events
  unfolding send_message
  past_id unreserved = rw (le→ltb m.id reserved unreserved)

  past_shutdown :
      h.shutdown ≡ false
      → send_message_internal c serde pid h m fd payload events
        ≡ send_serialized c pid m fd events (serde.serialize payload)
  unfolding send_message_internal
  past_shutdown open_handler = rw open_handler

  past_length :
      (bytes : List ℕ)
      → length bytes + m.length < u16_limit
      → send_serialized c pid m fd events (some bytes)
        ≡ send_attached c (stamped pid m bytes) bytes events (attach c fd)
  unfolding send_serialized
  past_length bytes fits = rw (lt→ltb (length bytes + m.length) u16_limit fits)

  over_length :
      (bytes : List ℕ)
      → u16_limit ≤ length bytes + m.length
      → send_serialized c pid m fd events (some bytes) ≡ refused invalid_data events
  unfolding send_serialized
  over_length bytes long = rw (le→ltb (length bytes + m.length) u16_limit long)

  not_attached :
      (x : Message) (bytes : List ℕ) (r : SocketAncillary × Bool)
      → r.1 ≡ false
      → send_attached c x bytes events r ≡ refused other events
  unfolding send_attached
  not_attached x bytes (a, true) e = cc
  not_attached x bytes (a, false) e = refl

  up_to_serialized :
      (o : Option (List ℕ))
      → reserved ≤ m.id
      → h.shutdown ≡ false
      → serde.serialize payload ≡ o
      → send_message c serde pid h m fd payload events ≡ send_serialized c pid m fd events o
  up_to_serialized o unreserved open_handler e =
      past_id unreserved ∙ past_shutdown open_handler ∙ ap (send_serialized c pid m fd events) e

  -- With a reason to refuse it, a send returns the error of that reason, puts nothing on the socket
  -- and uses no event of it.
  pub send_message-refused :
      {kind : IoError}
      → Refusal kind
      → send_message c serde pid h m fd payload events ≡ refused kind events
  send_message-refused (reserved_id low) = unfold send_message in rw (lt→ltb m.id reserved low)
  send_message-refused (is_shut unreserved shut) =
      past_id unreserved ∙ (unfold send_message_internal in rw shut)
  send_message-refused (unserializable unreserved open_handler e) =
      up_to_serialized none unreserved open_handler e ∙ (unfold send_serialized in refl)
  send_message-refused (too_long bytes unreserved open_handler e long) =
      up_to_serialized (some bytes) unreserved open_handler e ∙ over_length bytes long
  send_message-refused (no_room bytes unreserved open_handler e fits full) =
      up_to_serialized (some bytes) unreserved open_handler e
      ∙ past_length bytes fits
      ∙ not_attached (stamped pid m bytes) bytes (attach c fd) full

  -- Past the refusals a send is one vectored write, and a check of its count.
  pub send_message-write :
      (bytes : List ℕ) (a : SocketAncillary)
      → reserved ≤ m.id
      → h.shutdown ≡ false
      → serde.serialize payload ≡ some bytes
      → length bytes + m.length < u16_limit
      → attach c fd ≡ (a, true)
      → send_message c serde pid h m fd payload events
        ≡ to_sent (length bytes + m.length) (
            send_vectored_with_ancillary events
              (iovs (as_bytes c.endian (stamped pid m bytes)) bytes)
              a)
  send_message-write bytes a unreserved open_handler e fits attached =
      up_to_serialized (some bytes) unreserved open_handler e
      ∙ past_length bytes fits
      ∙ ap (send_attached c (stamped pid m bytes) bytes events) attached
      ∙ (unfold send_attached in refl)
