-- ===== src/Ancillary/RoundTrip.antt =====
-- AncillaryData::try_from_cmsghdr and the iterators of privsep/src/net/ancillary.rs on a buffer of
-- control messages.
use privsep_rs.Prelude.{
  ℕ, zero, suc, ◌+◌, ◌-◌, ◌≤◌, ◌<◌, ◌≡◌, refl, ap, ◌∙◌, sym, none, some, List, [], ◌∷◌, ◌++◌, map,
  Result, ok, err, length, take, drop, length-append, append_assoc, take-append_self,
  drop-append_self, All, arith, ne→==, ◌==◌, if◌then◌else◌, le→ltb,
}
use mathlib.Core.Path.{ap₂}
use privsep_rs.Prelude.Iter.{collect, collect-some, collect-none}
use privsep_rs.Memory.{zeros}
use privsep_rs.Memory.Splice.{length-zeros}
use privsep_rs.Ancillary.{
  SocketAncillary, AncillaryData, AncillaryError, scm_rights, scm_credentials, unknown, messages,
  header_after, yield_header, parse_header, try_from_cmsghdr, next_message, all_messages,
}
use privsep_rs.Ancillary.Cmsg.{Libc, IsLibc}
use privsep_rs.Ancillary.Encoding.{
  Cmsg, Holds, header_of, IsCmsg, space, encode, encode_all, length-encode, header_at-encode,
  space-pos,
}
use privsep_rs.Ancillary.Walk.{nxthdr-end, nxthdr-encode, end_offset, length-encode_all}

-- How a message is read.
abbrev pub decode : Libc → Cmsg → Result AncillaryError AncillaryData
decode c m =
    if m.level == c.sol_socket
    then (if m.kind == c.scm_rights
        then ok (scm_rights m.payload)
        else if m.kind == c.scm_credentials
        then ok (scm_credentials m.payload)
        else err (unknown c.sol_socket m.kind))
    else err (unknown m.level m.kind)

module _ (c : Libc) (laws : IsLibc c) where
  module _ (m : Cmsg) (before after : List ℕ) where
    abbrev front : List ℕ
    front = (before ++ c.cmsghdr.to_bytes (header_of c m)) ++ zeros (c.cmsg_len 0 - c.cmsghdr.size)

    abbrev behind : List ℕ
    behind = zeros (space c m - c.cmsg_len (length m.payload)) ++ after

    data_seam : before ++ (encode c m ++ after) ≡ front ++ (m.payload ++ behind)
    data_seam = simp append_assoc

    data_offset : c.cmsg_data (length before) ≡ length front
    data_offset = omega (
      arith,
      laws.data_offset (length before),
      laws.size-le-len,
      laws.header_layout.length-to_bytes (header_of c m),
      length-append (before ++ c.cmsghdr.to_bytes (header_of c m))
          (zeros (c.cmsg_len 0 - c.cmsghdr.size)),
      length-append before (c.cmsghdr.to_bytes (header_of c m)),
      length-zeros (c.cmsg_len 0 - c.cmsghdr.size),
    )

    data_bytes :
        take
          (c.cmsg_len (length m.payload) - c.cmsg_len 0)
          (drop (c.cmsg_data (length before)) (before ++ (encode c m ++ after)))
        ≡ m.payload
    data_bytes =
        ap₂ (λ (n p : ℕ). take n (drop p (before ++ (encode c m ++ after))))
          (omega (arith, laws.len_add (length m.payload))) data_offset
        ∙ ap (λ (t : List ℕ). take (length m.payload) (drop (length front) t)) data_seam
        ∙ ap (take (length m.payload)) (drop-append_self front (m.payload ++ behind))
        ∙ take-append_self m.payload behind

    in_buffer :
        c.cmsg_data (length before) + (c.cmsg_len (length m.payload) - c.cmsg_len 0)
        ≤ length (before ++ (encode c m ++ after))
    in_buffer = omega (
      arith,
      ap length data_seam,
      data_offset,
      laws.len_add (length m.payload),
      length-append front (m.payload ++ behind),
      length-append m.payload behind,
    )

    parse_header-encode :
        parse_header c (before ++ (encode c m ++ after)) (length before) (header_of c m)
        ≡ decode c m
    unfolding parse_header
    parse_header-encode = rw (
      data_bytes,
      le→ltb (c.cmsg_len (length m.payload)) (c.cmsg_len 0)
          (omega (arith, laws.len_add (length m.payload))),
      le→ltb (length (before ++ (encode c m ++ after)))
          (c.cmsg_data (length before) + (c.cmsg_len (length m.payload) - c.cmsg_len 0)) in_buffer,
    )

    pub try_from_cmsghdr-encode :
        IsCmsg c m
        → try_from_cmsghdr c (before ++ (encode c m ++ after)) (length before) ≡ decode c m
    unfolding try_from_cmsghdr
    try_from_cmsghdr-encode valid =
        ap (parse_header c (before ++ (encode c m ++ after)) (length before))
          (header_at-encode c laws m before after valid)
        ∙ parse_header-encode

  -- One step of the iterator, from a header to a later one.
  next_message-step :
      (b : List ℕ) (p q : ℕ)
      → c.cmsg_nxthdr b p ≡ some q
      → p < q
      → next_message c (record { buffer = b; current = some p })
        ≡ some (try_from_cmsghdr c b q, record { buffer = b; current = some q })
  unfolding next_message header_after
  next_message-step b p q e lt = rw (e, ne→== p q (omega arith))

  next_message-end :
      (b : List ℕ) (p : ℕ)
      → c.cmsg_nxthdr b p ≡ none
      → next_message c (record { buffer = b; current = some p }) ≡ none
  unfolding next_message header_after
  next_message-end b p e = ap (yield_header c (record { buffer = b; current = some p })) e

  -- From a message on, the iterator returns the messages behind it.
  collect-encode_all :
      (ms : List Cmsg) (m : Cmsg) (before : List ℕ) (fuel : ℕ)
      → IsCmsg c m
      → All (IsCmsg c) ms
      → length ms ≤ fuel
      → collect (next_message c) fuel (record {
        buffer = before ++ (encode c m ++ encode_all c ms);
        current = some (length before);
      })
        ≡ map (decode c) ms
  collect-encode_all [] m before zero valid valids enough = unfold collect in refl
  collect-encode_all [] m before (suc fuel) valid valids enough =
      collect-none (next_message c) (suc fuel) (
        next_message-end (before ++ (encode c m ++ [])) (length before)
          (nxthdr-end c laws before m valid))
  collect-encode_all (m' ∷ ms) m before zero valid valids enough = absurd (omega arith)
  collect-encode_all (m' ∷ ms) m before (suc fuel) valid (valid', valids) enough =
      let rest = encode c m' ++ encode_all c ms in
      let b = before ++ (encode c m ++ rest) in
      let q = length before + space c m in
      collect-some (next_message c) fuel (
        next_message-step b (length before) q
          (nxthdr-encode c laws before m valid m' (encode_all c ms) valid')
          (omega (arith, space-pos c laws m, laws.header_pos)))
      ∙ ap₂
          (λ (b' : List ℕ) (p : ℕ).
            try_from_cmsghdr c b' p
            ∷ collect (next_message c) fuel (record { buffer = b'; current = some p }))
          (sym (append_assoc before (encode c m) rest)) (end_offset c laws before m)
      ∙ ap₂
          (λ (r : Result AncillaryError AncillaryData)
              (rs : List (Result AncillaryError AncillaryData)).
            r ∷ rs)
          (try_from_cmsghdr-encode m' (before ++ encode c m) (encode_all c ms) valid')
          (collect-encode_all ms m' (before ++ encode c m) fuel valid' valids (omega arith))

  next_message-first :
      (b : List ℕ)
      → c.cmsg_firsthdr b ≡ some 0
      → next_message c (record { buffer = b; current = none })
        ≡ some (try_from_cmsghdr c b 0, record { buffer = b; current = some 0 })
  unfolding next_message header_after
  next_message-first b e = ap (yield_header c (record { buffer = b; current = none })) e

  next_message-null :
      (b : List ℕ)
      → c.cmsg_firsthdr b ≡ none
      → next_message c (record { buffer = b; current = none }) ≡ none
  unfolding next_message header_after
  next_message-null b e = ap (yield_header c (record { buffer = b; current = none })) e

  collect_first :
      (ms : List Cmsg)
      → All (IsCmsg c) ms
      → collect
          (next_message c)
          (suc (length (encode_all c ms)))
          (record { buffer = encode_all c ms; current = none })
        ≡ map (decode c) ms
  collect_first [] valids =
      collect-none (next_message c) 1
        (next_message-null [] (laws.firsthdr_small [] laws.header_pos))
  collect_first (m ∷ ms) (valid, valids) =
      let b = encode c m ++ encode_all c ms in
      let size = length-append (encode c m) (encode_all c ms) in
      collect-some (next_message c) (length b) (
        next_message-first b
          (laws.firsthdr_fits b (omega (arith, size, length-encode c laws m, space-pos c laws m))))
      ∙ ap₂
          (λ (r : Result AncillaryError AncillaryData)
              (rs : List (Result AncillaryError AncillaryData)).
            r ∷ rs)
          (try_from_cmsghdr-encode m [] (encode_all c ms) valid)
          (collect-encode_all ms m [] (length b) valid valids
            (omega (arith, size, length-encode_all c laws ms)))

  -- The iterator returns the messages that the buffer holds, in order.
  pub all_messages-Holds :
      (a : SocketAncillary) (ms : List Cmsg)
      → Holds c a ms
      → All (IsCmsg c) ms
      → all_messages c a ≡ map (decode c) ms
  unfolding all_messages messages
  all_messages-Holds a ms holds valids =
      ap
        (λ (b : List ℕ).
          collect (next_message c) (suc (length b)) (record { buffer = b; current = none }))
        holds.used
      ∙ collect_first ms valids
