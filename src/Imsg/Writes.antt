-- ===== src/Imsg/Writes.antt =====
-- Handler::send_message of privsep/src/imsg.rs behind its refusals, and the write of
-- privsep/src/net/stream.rs.
use privsep_rs.Prelude.{
  ℕ, ◌+◌, ◌≤◌, ◌<◌, ◌≡◌, ◌⊎◌, ap, sym, subst, ◌∙◌, Bool, true, false, Bool-cases, inl, inr, Option,
  some, Option-cases, List, [], ◌∷◌, length, take, take-length, All, arith, ltb, ltb→lt, ltb→le, ok,
  err,
}
use mathlib.Core.Path.{ap₂}
use privsep_rs.Ancillary.{SocketAncillary}
use privsep_rs.Ancillary.Cmsg.{Libc}
use privsep_rs.Stream.{
  IoError, not_connected, other, invalid_data, would_block, pending, ready, accepted, send_failed,
  SendEvent, unwritable, tried, Packet, gather, SendResult, send_vectored_with_ancillary_to,
  send_vectored_with_ancillary,
}
use privsep_rs.Imsg.{Serde, Handler}
use privsep_rs.Imsg.Header.{Message, header_length, reserved, as_bytes}
use privsep_rs.Imsg.Send.{Sent, to_sent, iovs, attach, send_message, u16_limit}
use privsep_rs.Imsg.Framing.{frame, length-frame}
use privsep_rs.Imsg.Sending.{
  gather-iovs, stamped, Refusal, reserved_id, is_shut, unserializable, too_long, no_room,
  send_message-refused, send_message-write,
}

-- The kernel takes no more bytes than it is offered.
abbrev pub IsBounded : ℕ → SendEvent → Type 0
IsBounded n (tried (accepted count)) = count ≤ n
IsBounded n _ = Unit {0}

-- What one write puts on the socket.
abbrev pub written : ℕ → List (List ℕ) → SocketAncillary → Packet
written count bufs a = record { bytes = take count (gather bufs); control = take a.length a.buffer }

-- A write that returns a count took that many bytes at most, and put just them on the socket.
pub send_vectored-ok :
    (events : List SendEvent) (n : ℕ) (bufs : List (List ℕ)) (a : SocketAncillary) (count : ℕ)
    (packets : List Packet) (rest : List SendEvent)
    → All (IsBounded n) events
    → send_vectored_with_ancillary events bufs a ≡ (ready (ok count), packets, rest)
    → (count ≤ n) × (packets ≡ written count bufs a ∷ [])
unfolding send_vectored_with_ancillary send_vectored_with_ancillary_to
send_vectored-ok [] n bufs a count packets rest bounded e = cc
send_vectored-ok (unwritable kind ∷ events) n bufs a count packets rest bounded e = cc
send_vectored-ok (tried (accepted k) ∷ events) n bufs a count packets rest bounded e = ground arith
send_vectored-ok (tried (send_failed would_block) ∷ events) n bufs a count packets rest bounded e =
    send_vectored-ok events n bufs (record a { truncated = false }) count packets rest bounded.1 e
send_vectored-ok (tried (send_failed _) ∷ events) n bufs a count packets rest bounded e = cc

module _ (c : Libc) {T : Type 0} (serde : Serde T) (pid : ℕ) (h : Handler) (m : Message)
    (fd : Option ℕ) (payload : T) (events : List SendEvent) where
  -- What a send has checked when it writes.
  pub record Passed (bytes : List ℕ) (a : SocketAncillary) : Type 0 where
    pub unreserved : reserved ≤ m.id
    pub is_open : h.shutdown ≡ false
    pub serialized : serde.serialize payload ≡ some bytes
    pub fits : length bytes + m.length < u16_limit
    pub attached : attach c fd ≡ (a, true)

  with_bytes :
      (bytes : List ℕ)
      → reserved ≤ m.id
      → h.shutdown ≡ false
      → serde.serialize payload ≡ some bytes
      → ((kind : IoError) × Refusal c serde pid h m fd payload events kind)
        ⊎ ((bytes : List ℕ) × (a : SocketAncillary) × Passed bytes a)
  with_bytes bytes unreserved is_open e =
      elim (Bool-cases (ltb (length bytes + m.length) u16_limit)) [
        | inr long ↦ inl (
          invalid_data,
          too_long bytes unreserved is_open e (ltb→le (length bytes + m.length) u16_limit long),
        )
        | inl short ↦
            let fits = ltb→lt (length bytes + m.length) u16_limit short in
            elim (Bool-cases (attach c fd).1) [
              | inr full ↦ inl (other, no_room bytes unreserved is_open e fits full)
              | inl room ↦ inr (
                bytes,
                (attach c fd).0,
                record {
                  unreserved = unreserved;
                  is_open = is_open;
                  serialized = e;
                  fits = fits;
                  attached = λ i. ((attach c fd).0, room i);
                },
              )
            ]
      ]

  -- There is a reason to refuse a send, or it passes all checks.
  pub send_cases :
      ((kind : IoError) × Refusal c serde pid h m fd payload events kind)
      ⊎ ((bytes : List ℕ) × (a : SocketAncillary) × Passed bytes a)
  send_cases = elim (Bool-cases (ltb m.id reserved)) [
    | inl low ↦ inl (other, reserved_id (ltb→lt m.id reserved low))
    | inr high ↦
        let unreserved = ltb→le m.id reserved high in
        elim (Bool-cases h.shutdown) [
          | inl shut ↦ inl (not_connected, is_shut unreserved shut)
          | inr is_open ↦ elim (Option-cases (serde.serialize payload)) [
            | inl e ↦ inl (invalid_data, unserializable unreserved is_open e)
            | inr (bytes, e) ↦ with_bytes bytes unreserved is_open e
          ]
        ]
  ]

  write-ok :
      (expected : ℕ) (r : SendResult)
      → (to_sent expected r).result ≡ ready (ok tt)
      → r.0 ≡ ready (ok expected)
  write-ok expected (pending, packets, rest) e = cc
  write-ok expected (ready (err kind), packets, rest) e = cc
  write-ok expected (ready (ok count), packets, rest) e = ground arith

  Passed-ok :
      (bytes : List ℕ) (a : SocketAncillary)
      → Passed bytes a
      → header_length ≤ m.length
      → All (IsBounded (header_length + length bytes)) events
      → (send_message c serde pid h m fd payload events).result ≡ ready (ok tt)
      → (m.length ≡ header_length)
        × (length bytes + m.length < u16_limit)
        × ((send_message c serde pid h m fd payload events).packets
            ≡ record {
              bytes = frame c (stamped pid m bytes) bytes;
              control = take (attach c fd).0.length (attach c fd).0.buffer;
            }
              ∷ [])
  Passed-ok bytes a p long bounded done = (
    omega (arith, packet.0),
    p.fits,
    ap (λ (s : Sent). s.packets) write
        ∙ packet.1
        ∙ ap₂
            (λ (b : List ℕ) (x : SocketAncillary).
              record { bytes = b; control = take x.length x.buffer } ∷ [])
            whole (sym (ap (λ (r : SocketAncillary × Bool). r.0) p.attached)),
  )
    where
      total : ℕ
      total = length bytes + m.length

      bufs : List (List ℕ)
      bufs = iovs (as_bytes c.endian (stamped pid m bytes)) bytes

      outcome : SendResult
      outcome = send_vectored_with_ancillary events bufs a

      write : send_message c serde pid h m fd payload events ≡ to_sent total outcome
      write =
          send_message-write c serde pid h m fd payload events bytes a p.unreserved p.is_open
            p.serialized p.fits p.attached

      counted : outcome.0 ≡ ready (ok total)
      counted = write-ok total outcome (sym (ap (λ (s : Sent). s.result) write) ∙ done)

      packet : (total ≤ header_length + length bytes) × (outcome.1 ≡ written total bufs a ∷ [])
      packet =
          send_vectored-ok events (header_length + length bytes) bufs a total outcome.1 outcome.2
            bounded (λ i. (counted i, outcome.1, outcome.2))

      whole : take total (gather bufs) ≡ frame c (stamped pid m bytes) bytes
      whole =
          ap₂ (λ (n : ℕ) (t : List ℕ). take n t)
            (omega (arith, packet.0, length-frame c (stamped pid m bytes) bytes))
            (gather-iovs (as_bytes c.endian (stamped pid m bytes)) bytes)
          ∙ take-length (frame c (stamped pid m bytes) bytes)

  -- A send that returns Ok, of a message whose length is that of a header at least, over a kernel
  -- that takes no more than it is offered: the length was that of a header, the total is a
  -- 16-bit number, and the socket was given one packet, the frame of the stamped message with the
  -- control messages of the descriptor. So a message whose length already counts a payload, such as
  -- a received one, is never sent with Ok.
  pub send_message-ok :
      (bytes : List ℕ)
      → serde.serialize payload ≡ some bytes
      → header_length ≤ m.length
      → All (IsBounded (header_length + length bytes)) events
      → (send_message c serde pid h m fd payload events).result ≡ ready (ok tt)
      → (m.length ≡ header_length)
        × (length bytes + m.length < u16_limit)
        × ((send_message c serde pid h m fd payload events).packets
            ≡ record {
              bytes = frame c (stamped pid m bytes) bytes;
              control = take (attach c fd).0.length (attach c fd).0.buffer;
            }
              ∷ [])
  send_message-ok bytes e long bounded done = elim send_cases [
    | inl (kind, r) ↦ cc (
      done,
      ap (λ (s : Sent). s.result) (send_message-refused c serde pid h m fd payload events r),
    )
    | inr (bytes', a, p) ↦
        Passed-ok bytes a (subst (λ b. Passed b a) (cc (p.serialized, e)) p) long bounded done
  ]
