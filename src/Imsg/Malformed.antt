-- ===== src/Imsg/Malformed.antt =====
-- Handler::recv_message of privsep/src/imsg.rs on headers that it does not check, and on two messages
-- that arrive together.
use privsep_rs.Prelude.{
  ℕ, zero, suc, ◌≤◌, ◌<◌, ◌≡◌, refl, ap, sym, ◌∙◌, true, false, Option, none, some, List, [], ◌∷◌,
  ◌++◌, length, take, drop, replicate, length-append, append-nil, arith, ltb, leb, if◌then◌else◌,
  le→ltb, le→leb, ok,
}
use mathlib.Core.Path.{ap₂}
use privsep_rs.Ancillary.{all_messages}
use privsep_rs.Ancillary.Cmsg.{Libc}
use privsep_rs.Stream.{Packet, received, RecvEvent, answered}
use privsep_rs.Imsg.{Serde, Handler}
use privsep_rs.Imsg.Header.{Message, IsMessage, as_bytes}
use privsep_rs.Imsg.Recv.{
  Fds, Received, returned, take_fds, rights_of, is_complete, deserialized, split_message, recv_loop,
  no_fds, recv_message,
}
use privsep_rs.Imsg.Framing.{frame, IsFrame, length-frame, length-as_bytes, peek-as_bytes}
use privsep_rs.Imsg.Receiving.{Content, message, content, recv_many, recv_loop_complete}
use privsep_rs.Imsg.OneRead.{with_control, recv_loop-frame, recv_message-open, recv_loop-first}

module _ (c : Libc) {T : Type 0} (serde : Serde T) where
  module _ (m : Message) (valid : IsMessage m) (short : m.length ≤ 16) (rest : List ℕ) where
    abbrev buffer : List ℕ
    buffer = as_bytes c.endian m ++ rest

    size : 16 ≤ length buffer
    size = omega (arith, length-append (as_bytes c.endian m) rest, length-as_bytes c m)

    short_complete : is_complete c buffer ≡ true
    unfolding is_complete
    short_complete = rw (le→leb 16 (length buffer) size) (
        ap (λ (x : Message). leb x.length (length buffer)) (peek-as_bytes c m valid rest)
        ∙ le→leb m.length (length buffer) (omega (arith, size)))

    split_short :
        (fds : Fds) (events : List RecvEvent)
        → split_message c serde buffer fds events
          ≡ deserialized c serde m (drop m.length buffer) fds events (serde.deserialize [])
    unfolding split_message
    split_short fds events =
        ap split (peek-as_bytes c m valid rest)
        ∙ ap
            (λ b.
              deserialized c serde m (drop m.length buffer) fds events
                (serde.deserialize (if b then drop 16 (take m.length buffer) else [])))
            (le→ltb 16 m.length short)
      where
        split : Message → Received T
        split x =
            deserialized c serde x (drop x.length buffer) fds events
              (serde.deserialize (if ltb 16 x.length then drop 16 (take x.length buffer) else []))

    -- With an open handler: a header with fields in range at the front of the read buffer, whose
    -- length is at most that of a header, is taken for a message without payload, and only as many
    -- bytes as it says are removed: with less than 16 the rest of the header stays in the buffer.
    pub recv_message-short :
        (h : Handler) (events : List RecvEvent)
        → h.shutdown ≡ false
        → h.read_buffer ≡ buffer
        → recv_message c serde h events
          ≡ deserialized c serde m (drop m.length buffer) no_fds events (serde.deserialize [])
    unfolding recv_message
    recv_message-short h events open_handler same =
        rw (open_handler, same)
          (recv_loop_complete c serde (length events) buffer no_fds events short_complete
            ∙ split_short no_fds events)

  -- With an open handler: a header with fields in range and a length of zero is never removed.
  -- With it at the front of the read buffer, and a payload type that can be read from no bytes,
  -- every later receive returns that message again, as often as the caller goes on.
  pub recv_many-zero_length :
      (m : Message) (rest : List ℕ) (payload : T) (n : ℕ) (h : Handler) (events : List RecvEvent)
      → IsMessage m
      → m.length ≡ 0
      → serde.deserialize [] ≡ some payload
      → h.shutdown ≡ false
      → h.read_buffer ≡ as_bytes c.endian m ++ rest
      → recv_many c serde n h events ≡ replicate n (message m payload)
  unfolding recv_many
  recv_many-zero_length m rest payload zero h events valid none_long empty open_handler same = refl
  recv_many-zero_length m rest payload (suc n) h events valid none_long empty open_handler same =
      let received =
        recv_message-short m valid (omega arith) rest h events open_handler same
        ∙ ap₂
            (λ (k : ℕ) (o : Option T).
              deserialized c serde m (drop k (buffer m valid (omega arith) rest)) no_fds events o)
            none_long empty in
      ap₂ (λ (x : Content T) (xs : List (Content T)). x ∷ xs)
        (ap (λ (r : Received T). content r.progress) received)
        (ap₂
            (λ (b : List ℕ) (es : List RecvEvent).
              recv_many c serde n (record h { read_buffer = b }) es)
            (ap (λ (r : Received T). r.read_buffer) received)
            (ap (λ (r : Received T). r.events) received)
          ∙ recv_many-zero_length m rest payload n
              (record h { read_buffer = as_bytes c.endian m ++ rest }) events valid none_long empty
              open_handler refl)

  -- With an open handler and an empty buffer: when one read brings two frames, with the control
  -- data of the second packet, which hold one descriptor, the first receive returns the first
  -- message with that descriptor, and the second receive returns the second message with none.
  pub recv_message-wrong_owner :
      (m m' : Message) (payload payload' : List ℕ) (t t' : T) (p q : Packet) (fd : ℕ) (h : Handler)
      (events : List RecvEvent)
      → IsFrame c m payload
      → IsFrame c m' payload'
      → p.bytes ≡ frame c m payload
      → q.bytes ≡ frame c m' payload'
      → serde.deserialize payload ≡ some t
      → serde.deserialize payload' ≡ some t'
      → rights_of c (all_messages c (with_control q.control)) ≡ fd ∷ []
      → h.shutdown ≡ false
      → h.read_buffer ≡ []
      → let r =
          recv_message c serde h
            (answered (received (p.bytes ++ q.bytes) q.control false false) ∷ events) in
        (r.progress ≡ returned (ok (some (m, some fd, t))))
        × ((recv_message c serde (record h { read_buffer = r.read_buffer }) r.events).progress
            ≡ returned (ok (some (m', none, t'))))
  recv_message-wrong_owner m m' payload payload' t t' p q fd h events f f' bytes bytes' read read'
        rights open_handler empty =
      (
        ap (λ (r : Received T). r.progress) first,
        ap₂
              (λ (b : List ℕ) (es : List RecvEvent).
                (recv_message c serde (record h { read_buffer = b }) es).progress)
              (ap (λ (r : Received T). r.read_buffer) first)
              (ap (λ (r : Received T). r.events) first)
            ∙ ap (λ (r : Received T). r.progress) second,
      )
    where
      event : RecvEvent
      event = answered (received (p.bytes ++ q.bytes) q.control false false)

      both : p.bytes ++ q.bytes ≡ frame c m payload ++ frame c m' payload'
      both = ap₂ (λ (x y : List ℕ). x ++ y) bytes bytes'

      some_bytes : 0 < length (p.bytes ++ q.bytes)
      some_bytes =
          omega (arith, length-append p.bytes q.bytes, ap length bytes, length-frame c m payload)

      kept : Fds
      kept = record { held = some fd; closed = [] }

      first :
          recv_message c serde h (event ∷ events)
          ≡ deserialized c serde m (frame c m' payload') kept events (some t)
      first =
          recv_message-open c serde h [] (event ∷ events) open_handler empty
          ∙ recv_loop-first c serde (p.bytes ++ q.bytes) q.control (suc (length events)) events
              some_bytes
          ∙ ap₂
              (λ (b fds : List ℕ).
                recv_loop c serde (suc (length events)) b (take_fds no_fds fds) events)
              both rights
          ∙ unfold take_fds in
            recv_loop-frame c serde m payload (frame c m' payload') t (length events) kept events f
              read

      second :
          recv_message c serde (record h { read_buffer = frame c m' payload' }) events
          ≡ deserialized c serde m' [] no_fds events (some t')
      second =
          recv_message-open c serde (record h { read_buffer = frame c m' payload' })
            (frame c m' payload' ++ []) events open_handler (sym (append-nil (frame c m' payload')))
          ∙ recv_loop-frame c serde m' payload' [] t' (length events) no_fds events f' read'
