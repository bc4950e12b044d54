-- ===== src/Ancillary/Write.antt =====
-- The write of one control message at a seam, in add_to_ancillary_data of
-- privsep/src/net/ancillary.rs.
use privsep_rs.Prelude.{
  ℕ, ◌+◌, ◌-◌, ◌*◌, ◌≡◌, ap, ◌∙◌, sym, List, [], ◌∷◌, ◌++◌, length, length-append, append_assoc,
  arith,
}
use mathlib.Core.Path.{ap₂}
use privsep_rs.Memory.{Layout, IsLayout, zeros, write_at, bytes_of}
use privsep_rs.Memory.Splice.{write_at-seam, length-zeros, zeros-add}
use privsep_rs.Ancillary.Cmsg.{Libc, IsLibc}
use privsep_rs.Ancillary.Encoding.{Cmsg, header_of, space, encode}

-- The message that `add_to_ancillary_data` adds.
abbrev pub message_of : {T : Type 0} → Layout T → List T → ℕ → ℕ → Cmsg
message_of l source level kind = record { level = level; kind = kind; payload = bytes_of l source }

module _ {T : Type 0} (l : Layout T) {IsRepr : T → Type 0} (layout : IsLayout l IsRepr) where
  pub length-bytes_of : (source : List T) → length (bytes_of l source) ≡ length source * l.size
  length-bytes_of [] = omega arith
  length-bytes_of (t ∷ source) = omega (
    arith,
    length-append (l.to_bytes t) (bytes_of l source),
    layout.length-to_bytes t,
    length-bytes_of source,
  )

module _ (c : Libc) (laws : IsLibc c) (m : Cmsg) (before rest : List ℕ) where
  abbrev header_bytes : List ℕ
  header_bytes = c.cmsghdr.to_bytes (header_of c m)

  abbrev pad : ℕ
  pad = c.cmsg_len 0 - c.cmsghdr.size

  abbrev tail : ℕ
  tail = space c m - c.cmsg_len (length m.payload)

  split_space : space c m ≡ c.cmsghdr.size + (pad + (length m.payload + tail))
  split_space = omega (
    arith,
    laws.size-le-len,
    laws.len_add (length m.payload),
    laws.len-le-space (length m.payload),
  )

  split_zeros :
      zeros (space c m) ++ rest
      ≡ zeros c.cmsghdr.size ++ (zeros pad ++ (zeros (length m.payload) ++ (zeros tail ++ rest)))
  split_zeros =
      ap (λ (k : ℕ). zeros k ++ rest) split_space
      ∙ rw (zeros-add, zeros-add, zeros-add, append_assoc, append_assoc, append_assoc)

  data_seam : c.cmsg_data (length before) ≡ length ((before ++ header_bytes) ++ zeros pad)
  data_seam = omega (
    arith,
    laws.data_offset (length before),
    laws.size-le-len,
    laws.header_layout.length-to_bytes (header_of c m),
    length-append (before ++ header_bytes) (zeros pad),
    length-append before header_bytes,
    length-zeros pad,
  )

  -- Header and data written over the zeroed space give the encoded message.
  pub write-encode :
      write_at
        (c.cmsg_data (length before))
        m.payload
        (write_at (length before) header_bytes (before ++ (zeros (space c m) ++ rest)))
      ≡ before ++ (encode c m ++ rest)
  write-encode =
      let n = length m.payload in
      let behind = zeros tail ++ rest in
      let write_data = write_at (c.cmsg_data (length before)) m.payload in
      let headed = (before ++ header_bytes) ++ zeros pad in
      ap (λ (t : List ℕ). write_data (write_at (length before) header_bytes (before ++ t)))
        split_zeros
      ∙ ap write_data (
          write_at-seam before (zeros c.cmsghdr.size) header_bytes
            (zeros pad ++ (zeros n ++ behind))
            (length-zeros c.cmsghdr.size
              ∙ sym (laws.header_layout.length-to_bytes (header_of c m))))
      ∙ ap₂ (λ (p : ℕ) (t : List ℕ). write_at p m.payload t) data_seam
          (sym (
            append_assoc (before ++ header_bytes) (zeros pad) (zeros n ++ behind)
            ∙ append_assoc before header_bytes (zeros pad ++ (zeros n ++ behind))))
      ∙ write_at-seam headed (zeros n) m.payload behind (length-zeros n)
      ∙ simp append_assoc
