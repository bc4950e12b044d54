-- ===== src/Imsg/Framing.antt =====
-- The splitting of the read buffer in Handler::recv_message of privsep/src/imsg.rs.
use privsep_rs.Prelude.{
  ℕ, ◌+◌, ◌≤◌, ◌≡◌, ap, sym, subst, ◌∙◌, true, List, [], ◌∷◌, ◌++◌, length, take, drop,
  length-append, append_assoc, take-append_self, take-append_le, drop-append_self, drop-append_le,
  All, arith, ltb, if◌then◌else◌, lt→ltb, le→ltb, leb→le,
}
use mathlib.Core.Path.{ap₂}
use privsep_rs.Ancillary.Cmsg.{Libc}
use privsep_rs.Stream.{RecvEvent}
use privsep_rs.Stream.Events.{stream, IsLive}
use privsep_rs.Imsg.{Serde}
use privsep_rs.Imsg.Header.{
  Message, IsMessage, header_length, as_bytes, from_bytes, IsMessage-IsLayout,
}
use privsep_rs.Imsg.Recv.{Fds, Received, peek, is_complete, deserialized, split_message}

module _ (c : Libc) where
  -- A message on the wire.
  abbrev pub frame : Message → List ℕ → List ℕ
  frame m payload = as_bytes c.endian m ++ payload

  -- The header is in range, and its length is that of the whole message.
  pub record IsFrame (m : Message) (payload : List ℕ) : Type 0 where
    pub valid : IsMessage m
    pub total : m.length ≡ header_length + length payload

  pub length-as_bytes : (m : Message) → length (as_bytes c.endian m) ≡ 16
  length-as_bytes m = (IsMessage-IsLayout c.endian).length-to_bytes m

  pub length-frame :
      (m : Message) (payload : List ℕ) → length (frame m payload) ≡ 16 + length payload
  length-frame m payload =
      length-append (as_bytes c.endian m) payload ∙ omega (arith, length-as_bytes m)

  -- The header at the front of a buffer, whatever follows.
  pub peek-as_bytes :
      (m : Message) → IsMessage m → (rest : List ℕ) → peek c (as_bytes c.endian m ++ rest) ≡ m
  peek-as_bytes m valid rest =
      ap (λ (n : ℕ). from_bytes c.endian (take n (as_bytes c.endian m ++ rest)))
        (sym (length-as_bytes m))
      ∙ ap (from_bytes c.endian) (take-append_self (as_bytes c.endian m) rest)
      ∙ (IsMessage-IsLayout c.endian).from_bytes-to_bytes m valid

  -- The payload of a frame, as the code cuts it out.
  payload_of :
      (m : Message) (payload : List ℕ)
      → IsFrame m payload
      → (if ltb 16 m.length then drop 16 (frame m payload) else []) ≡ payload
  payload_of m [] f = rw (le→ltb 16 m.length (omega (arith, f.total)))
  payload_of m (b ∷ bytes) f = rw (lt→ltb 16 m.length (omega (arith, f.total))) (
      ap (λ (n : ℕ). drop n (frame m (b ∷ bytes))) (sym (length-as_bytes m))
      ∙ drop-append_self (as_bytes c.endian m) (b ∷ bytes))

  module _ (m : Message) (payload : List ℕ) (ok_frame : IsFrame m payload) where
    module _ (buf more rest : List ℕ) (same : buf ++ more ≡ frame m payload ++ rest) where
      pub peek-frame : 16 ≤ length buf → peek c buf ≡ m
      peek-frame h =
          ap (from_bytes c.endian) (sym (take-append_le 16 buf more h))
          ∙ ap (peek c) (same ∙ append_assoc (as_bytes c.endian m) payload rest)
          ∙ peek-as_bytes m ok_frame.valid (payload ++ rest)

      -- A buffer is complete when it holds the frame.
      pub is_complete-frame : is_complete c buf ≡ true → m.length ≤ length buf
      unfolding is_complete
      is_complete-frame h =
          let header : 16 ≤ length buf = leb→le 16 (length buf) (ground arith) in
          subst (λ x. x.length ≤ length buf) (peek-frame header)
            (leb→le (peek c buf).length (length buf) (ground arith))

      frame_fits : m.length ≡ length (frame m payload)
      frame_fits = ok_frame.total ∙ sym (length-frame m payload)

      pub drop-frame : m.length ≤ length buf → drop m.length buf ++ more ≡ rest
      drop-frame h =
          sym (drop-append_le m.length buf more h)
          ∙ ap₂ (λ (n : ℕ) (t : List ℕ). drop n t) frame_fits same
          ∙ drop-append_self (frame m payload) rest

      take-frame : m.length ≤ length buf → take m.length buf ≡ frame m payload
      take-frame h =
          sym (take-append_le m.length buf more h)
          ∙ ap₂ (λ (n : ℕ) (t : List ℕ). take n t) frame_fits same
          ∙ take-append_self (frame m payload) rest

      pub split_message-frame :
          {T : Type 0} (serde : Serde T) (fds : Fds) (events : List RecvEvent)
          → m.length ≤ length buf
          → split_message c serde buf fds events
            ≡ deserialized c serde m (drop m.length buf) fds events (serde.deserialize payload)
      unfolding split_message
      split_message-frame {T} serde fds events h =
          ap split (peek-frame (omega (arith, ok_frame.total)))
          ∙ ap (λ (t : List ℕ). result (if ltb 16 m.length then drop 16 t else [])) (take-frame h)
          ∙ ap result (payload_of m payload ok_frame)
        where
          split : Message → Received T
          split x =
              deserialized c serde x (drop x.length buf) fds events
                (serde.deserialize (if ltb 16 x.length then drop 16 (take x.length buf) else []))

          result : List ℕ → Received T
          result t = deserialized c serde m (drop m.length buf) fds events (serde.deserialize t)

  -- What a receive makes of a frame at the front of its bytes: the outcome of its payload, with the
  -- bytes behind the frame unread.
  pub record FrameRead {T : Type 0} (serde : Serde T) (m : Message) (payload rest : List ℕ)
      (r : Received T) : Type 0 where
    pub fds : Fds
    pub outcome : r ≡ deserialized c serde m r.read_buffer fds r.events (serde.deserialize payload)
    pub unread : r.read_buffer ++ stream r.events ≡ rest
    pub live : All IsLive r.events
