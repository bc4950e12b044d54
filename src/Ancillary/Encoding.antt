-- ===== src/Ancillary/Encoding.antt =====
-- The control messages in the buffer of privsep/src/net/ancillary.rs as a list, and the bytes of that
-- list.
use privsep_rs.Prelude.{
  ℕ, ◌+◌, ◌-◌, ◌≤◌, ◌≡◌, ap, ◌∙◌, sym, List, [], ◌∷◌, ◌++◌, length, length-append, append_assoc,
  append-nil, take, arith,
}
use privsep_rs.Memory.{zeros}
use privsep_rs.Memory.Splice.{read_at-seam, length-zeros}
use privsep_rs.Ancillary.{SocketAncillary}
use privsep_rs.Ancillary.Cmsg.{Libc, IsLibc, CmsgHdr, IsCmsgHdr, header_at}

-- One control message: level, type and data bytes.
pub record Cmsg : Type 0 where
  pub level : ℕ
  pub kind : ℕ
  pub payload : List ℕ

module _ (c : Libc) where
  abbrev pub header_of : Cmsg → CmsgHdr
  header_of m = record {
    cmsg_len = c.cmsg_len (length m.payload);
    cmsg_level = m.level;
    cmsg_type = m.kind;
  }

  pub record IsCmsg (m : Cmsg) : Type 0 where
    pub header : IsCmsgHdr (header_of m)

  abbrev pub space : Cmsg → ℕ
  space m = c.cmsg_space (length m.payload)

  -- What follows the header: its padding, the data, and the padding behind.
  abbrev pub body : Cmsg → List ℕ
  body m =
      zeros (c.cmsg_len 0 - c.cmsghdr.size)
      ++ (m.payload ++ zeros (space m - c.cmsg_len (length m.payload)))

  -- CMSG_SPACE bytes: header, padding, data, padding.
  abbrev pub encode : Cmsg → List ℕ
  encode m = c.cmsghdr.to_bytes (header_of m) ++ body m

  abbrev pub encode_all : List Cmsg → List ℕ
  encode_all [] = []
  encode_all (m ∷ ms) = encode m ++ encode_all ms

  -- The buffer's used part holds just these messages.
  pub record Holds (a : SocketAncillary) (ms : List Cmsg) : Type 0 where
    pub fits : a.length ≤ length a.buffer
    pub used : take a.length a.buffer ≡ encode_all ms

  pub encode_all-append :
      (ms : List Cmsg) (m : Cmsg) → encode_all (ms ++ (m ∷ [])) ≡ encode_all ms ++ encode m
  encode_all-append [] m = append-nil (encode m)
  encode_all-append (x ∷ ms) m =
      ap (λ (t : List ℕ). encode x ++ t) (encode_all-append ms m)
      ∙ sym (append_assoc (encode x) (encode_all ms) (encode m))

module _ (c : Libc) (laws : IsLibc c) where
  length-body : (m : Cmsg) → length (body c m) + c.cmsghdr.size ≡ space c m
  length-body m = omega (
    arith,
    length-append (zeros (c.cmsg_len 0 - c.cmsghdr.size))
        (m.payload ++ zeros (space c m - c.cmsg_len (length m.payload))),
    length-append m.payload (zeros (space c m - c.cmsg_len (length m.payload))),
    length-zeros (c.cmsg_len 0 - c.cmsghdr.size),
    length-zeros (space c m - c.cmsg_len (length m.payload)),
    laws.size-le-len,
    laws.len_add (length m.payload),
    laws.len-le-space (length m.payload),
  )

  pub length-encode : (m : Cmsg) → length (encode c m) ≡ space c m
  length-encode m = omega (
    arith,
    length-append (c.cmsghdr.to_bytes (header_of c m)) (body c m),
    laws.header_layout.length-to_bytes (header_of c m),
    length-body m,
  )

  -- The header of a message is read back, whatever stands before and behind it.
  pub header_at-encode :
      (m : Cmsg) (before after : List ℕ)
      → IsCmsg c m
      → header_at c (before ++ (encode c m ++ after)) (length before) ≡ header_of c m
  header_at-encode m before after valid =
      let bytes = c.cmsghdr.to_bytes (header_of c m) in
      ap (λ (t : List ℕ). header_at c (before ++ t) (length before))
        (append_assoc bytes (body c m) after)
      ∙ read_at-seam c.cmsghdr.from_bytes c.cmsghdr.size before bytes (body c m ++ after)
          (laws.header_layout.length-to_bytes (header_of c m))
      ∙ laws.header_layout.from_bytes-to_bytes (header_of c m) valid.header

  pub space-pos : (m : Cmsg) → c.cmsghdr.size ≤ space c m
  space-pos m = omega (arith, length-body m)
