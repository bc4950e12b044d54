-- ===== src/Ancillary/Append.antt =====
-- `add_to_ancillary_data` of privsep/src/net/ancillary.rs on a buffer of control messages.
use privsep_rs.Prelude.{
  ℕ, ◌+◌, ◌-◌, ◌*◌, ◌^◌, ◌≤◌, ◌<◌, ◌≡◌, ap, ◌∙◌, sym, subst, true, false, Bool, Option, some, List,
  [], ◌∷◌, ◌++◌, length, take, drop, length-append, append_assoc, take-append_self,
  take-append-drop, length-take, length-drop, drop-drop, All, arith,
}
use mathlib.Core.Path.{ap₂}
use privsep_rs.Memory.{Layout, IsLayout, zeros, write_at, bytes_of}
use privsep_rs.Memory.Splice.{write_at-seam, length-zeros}
use privsep_rs.Ancillary.{
  SocketAncillary, last_header, write_message, append_message, add_to_ancillary_data,
}
use privsep_rs.Ancillary.Cmsg.{Libc, IsLibc}
use privsep_rs.Ancillary.Encoding.{
  Cmsg, Holds, IsCmsg, space, encode, encode_all, space-pos, encode_all-append,
}
use privsep_rs.Ancillary.Walk.{last_header-encode_all}
use privsep_rs.Ancillary.Write.{message_of, length-bytes_of, write-encode}

module _ (c : Libc) (laws : IsLibc c) {T : Type 0} (l : Layout T) {IsRepr : T → Type 0}
    (layout : IsLayout l IsRepr) (source : List T) (level kind : ℕ) where
  abbrev added : Cmsg
  added = message_of l source level kind

  -- The write, with the used part, the space and the rest of the buffer taken apart.
  append_message-seam :
      (ms : List Cmsg) (old rest : List ℕ)
      → All (IsCmsg c) ms
      → length old ≡ space c added
      → append_message c l
          (encode_all c ms ++ (old ++ rest))
          (length (encode_all c ms))
          (space c added + length (encode_all c ms))
          source
          level
          kind
        ≡ (
          true,
          encode_all c ms ++ (encode c added ++ rest),
          space c added + length (encode_all c ms),
        )
  unfolding append_message write_message
  append_message-seam ms old rest valid same =
      ap found zeroed
      ∙ ap (write (used ++ (zeros (space c added) ++ rest))) (ap (last_header c) front ∙ last)
      ∙ ap headed (sym size)
      ∙ ap done (write-encode c laws added used rest)
    where
      write : List ℕ → Option ℕ → Bool × List ℕ × ℕ
      write b = write_message c l b (space c added + length (encode_all c ms)) source level kind

      found : List ℕ → Bool × List ℕ × ℕ
      found b = write b (last_header c (take (space c added + length (encode_all c ms)) b))

      used : List ℕ
      used = encode_all c ms

      done : List ℕ → Bool × List ℕ × ℕ
      done b = (true, b, space c added + length (encode_all c ms))

      headed : ℕ → Bool × List ℕ × ℕ
      headed n = done (
          write_at (c.cmsg_data (length used)) (bytes_of l source) (
            write_at (length used)
              (c.cmsghdr.to_bytes
                (record { cmsg_len = c.cmsg_len n; cmsg_level = level; cmsg_type = kind }))
              (used ++ (zeros (space c added) ++ rest))))

      zeroed :
          write_at
            (length used)
            (zeros (space c added + length used - length used))
            (used ++ (old ++ rest))
          ≡ used ++ (zeros (space c added) ++ rest)
      zeroed =
          ap (λ (k : ℕ). write_at (length used) (zeros k) (used ++ (old ++ rest))) (omega arith)
          ∙ write_at-seam used old (zeros (space c added)) rest
              (same ∙ sym (length-zeros (space c added)))

      front :
          take (space c added + length used) (used ++ (zeros (space c added) ++ rest))
          ≡ used ++ zeros (space c added)
      front =
          ap₂ (λ (k : ℕ) (t : List ℕ). take k t)
            (omega
              (arith, length-append used (zeros (space c added)), length-zeros (space c added)))
            (sym (append_assoc used (zeros (space c added)) rest))
          ∙ take-append_self (used ++ zeros (space c added)) rest

      last : last_header c (used ++ zeros (space c added)) ≡ some (length used)
      last = last_header-encode_all c laws ms (space c added) valid (space-pos c laws added)

      size : length (bytes_of l source) ≡ length source * l.size
      size = length-bytes_of l layout source

  module _ (a : SocketAncillary) (ms : List Cmsg) (holds : Holds c a ms) where
    -- The guards, by the number of bytes of the source.
    passes :
        (n : ℕ)
        → n ≡ length source * l.size
        → n < 2 ^ 32
        → c.cmsg_space n + a.length ≤ length a.buffer
        → length a.buffer < 2 ^ 64
        → add_to_ancillary_data c l a.buffer a.length source level kind
          ≡ append_message c l a.buffer a.length (c.cmsg_space n + a.length) source level kind
    unfolding add_to_ancillary_data
    passes n e few room small = guards n e few room
      where
        goal : ℕ → Type 0
        goal k =
            add_to_ancillary_data c l a.buffer a.length source level kind
            ≡ append_message c l a.buffer a.length (c.cmsg_space k + a.length) source level kind

        guards :
            (k : ℕ)
            → k ≡ length source * l.size
            → k < 2 ^ 32
            → c.cmsg_space k + a.length ≤ length a.buffer
            → goal k
        guards k h f r = subst goal (sym h) (
            ground (
              arith,
              subst (λ j. j < 2 ^ 32) h f,
              subst (λ j. c.cmsg_space j + a.length ≤ length a.buffer) h r,
            ))

    stops :
        (n : ℕ)
        → n ≡ length source * l.size
        → length a.buffer < c.cmsg_space n + a.length
        → add_to_ancillary_data c l a.buffer a.length source level kind
          ≡ (false, a.buffer, a.length)
    unfolding add_to_ancillary_data
    stops n e full = ground (arith, subst (λ j. length a.buffer < c.cmsg_space j + a.length) e full)

    -- The buffer: its messages, the space, and what stands behind.
    pieces :
        a.buffer
        ≡ encode_all c ms
          ++ (take (space c added) (drop a.length a.buffer)
              ++ drop (space c added) (drop a.length a.buffer))
    pieces =
        sym (take-append-drop a.length a.buffer)
        ∙ ap₂ (λ (s t : List ℕ). s ++ t) holds.used
            (sym (take-append-drop (space c added) (drop a.length a.buffer)))

    pub used_length : a.length ≡ length (encode_all c ms)
    used_length = omega (arith, length-take a.length a.buffer, ap length holds.used, holds.fits)

    -- With space for the message: the encoding of the messages and the new one, and what stood
    -- behind.
    pub add_to_ancillary_data-append :
        All (IsCmsg c) ms
        → length a.buffer < 2 ^ 64
        → length (bytes_of l source) < 2 ^ 32
        → space c (message_of l source level kind) + a.length ≤ length a.buffer
        → add_to_ancillary_data c l a.buffer a.length source level kind ≡ (
          true,
          encode_all c (ms ++ (message_of l source level kind ∷ []))
              ++ drop (space c (message_of l source level kind) + a.length) a.buffer,
          space c (message_of l source level kind) + a.length,
        )
    add_to_ancillary_data-append valid small few room =
        passes (length (bytes_of l source)) (length-bytes_of l layout source) few room small
        ∙ ap₂ (λ (b : List ℕ) (k : ℕ). append_message c l b k (space c added + k) source level kind)
            pieces used_length
        ∙ append_message-seam ms old rest valid (
            omega (
              arith,
              length-take (space c added) (drop a.length a.buffer),
              length-drop a.length a.buffer,
            ))
        ∙ ap₂ (λ (b : List ℕ) (k : ℕ). (true, b, space c added + k))
            (sym (append_assoc (encode_all c ms) (encode c added) rest)
              ∙ ap₂ (λ (s t : List ℕ). s ++ t) (sym (encode_all-append c ms added))
                  (drop-drop (space c added) a.length a.buffer
                    ∙ ap (λ (k : ℕ). drop k a.buffer) (omega arith)))
            (sym used_length)
      where
        old : List ℕ
        old = take (space c added) (drop a.length a.buffer)

        rest : List ℕ
        rest = drop (space c added) (drop a.length a.buffer)

    -- With no space for it: nothing changes.
    pub add_to_ancillary_data-full :
        length a.buffer < space c (message_of l source level kind) + a.length
        → add_to_ancillary_data c l a.buffer a.length source level kind
          ≡ (false, a.buffer, a.length)
    add_to_ancillary_data-full full =
        stops (length (bytes_of l source)) (length-bytes_of l layout source) full
