-- ===== src/Ancillary/Walk.antt =====
-- The walk over the control headers in `add_to_ancillary_data` and `messages` of
-- privsep/src/net/ancillary.rs.
use privsep_rs.Prelude.{
  ℕ, zero, suc, ◌+◌, ◌-◌, ◌≤◌, ◌<◌, ◌≡◌, refl, ap, ◌∙◌, sym, inl, inr, Option, none, some, List, [],
  ◌∷◌, ◌++◌, length, length-append, append_assoc, append-nil, All, arith, ==-refl, ne→==,
}
use mathlib.Core.Path.{ap₂}
use privsep_rs.Memory.{zeros}
use privsep_rs.Memory.Splice.{read_at-seam, length-zeros, zeros-add}
use privsep_rs.Ancillary.{walk, last_header}
use privsep_rs.Ancillary.Cmsg.{Libc, IsLibc, header_at}
use privsep_rs.Ancillary.Encoding.{
  Cmsg, IsCmsg, space, encode, encode_all, length-encode, header_at-encode, space-pos,
}

module _ (c : Libc) (laws : IsLibc c) where
  -- The offset behind a message is the length of what stands up to there.
  pub end_offset :
      (before : List ℕ) (m : Cmsg) → length before + space c m ≡ length (before ++ encode c m)
  end_offset before m = omega (arith, length-append before (encode c m), length-encode c laws m)

  header_at-end :
      (before after : List ℕ) (m : Cmsg)
      → header_at c (before ++ (encode c m ++ after)) (length before + space c m)
        ≡ header_at c ((before ++ encode c m) ++ after) (length (before ++ encode c m))
  header_at-end before after m =
      ap₂ (header_at c) (sym (append_assoc before (encode c m) after)) (end_offset before m)

  header_at-zeros :
      (before : List ℕ) (k : ℕ)
      → c.cmsghdr.size ≤ k
      → (header_at c (before ++ zeros k) (length before)).cmsg_len ≡ 0
  header_at-zeros before k h =
      let rest = k - c.cmsghdr.size in
      let split : k ≡ c.cmsghdr.size + rest = omega arith in
      ap (λ (t : List ℕ). (header_at c (before ++ t) (length before)).cmsg_len)
        (ap zeros split ∙ zeros-add c.cmsghdr.size rest)
      ∙ ap (λ h. h.cmsg_len)
          (read_at-seam c.cmsghdr.from_bytes c.cmsghdr.size before (zeros c.cmsghdr.size)
            (zeros rest) (length-zeros c.cmsghdr.size))
      ∙ laws.header_zero

  module _ (before : List ℕ) (m : Cmsg) (valid : IsCmsg c m) where
    -- Behind the last message the walk ends.
    pub nxthdr-end : c.cmsg_nxthdr (before ++ (encode c m ++ [])) (length before) ≡ none
    nxthdr-end =
        laws.nxthdr_last (before ++ (encode c m ++ [])) (length before) (length m.payload)
          (ap (λ h. h.cmsg_len) (header_at-encode c laws m before [] valid))
          (omega (
            arith,
            length-append before (encode c m ++ []),
            ap length (append-nil (encode c m)),
            length-encode c laws m,
            laws.header_pos,
          ))

    -- A message is followed by the next one.
    pub nxthdr-encode :
        (m' : Cmsg) (after : List ℕ)
        → IsCmsg c m'
        → c.cmsg_nxthdr (before ++ (encode c m ++ (encode c m' ++ after))) (length before)
          ≡ some (length before + space c m)
    nxthdr-encode m' after valid' =
        let rest = encode c m' ++ after in
        laws.nxthdr_next (before ++ (encode c m ++ rest)) (length before) (length m.payload)
          (length m'.payload) (ap (λ h. h.cmsg_len) (header_at-encode c laws m before rest valid))
          (ap (λ h. h.cmsg_len)
            (header_at-end before rest m
              ∙ header_at-encode c laws m' (before ++ encode c m) after valid'))
          (omega (
            arith,
            length-append before (encode c m ++ rest),
            length-append (encode c m) rest,
            length-append (encode c m') after,
            length-encode c laws m,
            length-encode c laws m',
          ))

    -- The last message is followed by the zeroed space.
    pub nxthdr-zeros :
        (k : ℕ)
        → c.cmsghdr.size ≤ k
        → c.cmsg_nxthdr (before ++ (encode c m ++ zeros k)) (length before)
          ≡ some (length before + space c m)
    nxthdr-zeros k h =
        laws.nxthdr_empty (before ++ (encode c m ++ zeros k)) (length before) (length m.payload)
          (ap (λ h. h.cmsg_len) (header_at-encode c laws m before (zeros k) valid))
          (omega (
            arith,
            length-append before (encode c m ++ zeros k),
            length-append (encode c m) (zeros k),
            length-encode c laws m,
            length-zeros k,
          ))
          (ap (λ h. h.cmsg_len) (header_at-end before (zeros k) m)
            ∙ header_at-zeros (before ++ encode c m) k h)

  pub walk_null :
      (b : List ℕ) (fuel : ℕ) (previous : Option ℕ) → walk c b fuel none previous ≡ previous
  unfolding walk
  walk_null b zero previous = refl
  walk_null b (suc fuel) previous = refl

  pub walk-same :
      (b : List ℕ) (p fuel : ℕ) (previous : Option ℕ)
      → c.cmsg_nxthdr b p ≡ some p
      → walk c b (suc fuel) (some p) previous ≡ some p
  unfolding walk
  walk-same b p fuel previous e = rw (e, ==-refl)

  pub walk-end :
      (b : List ℕ) (p fuel : ℕ) (previous : Option ℕ)
      → c.cmsg_nxthdr b p ≡ none
      → walk c b (suc fuel) (some p) previous ≡ some p
  unfolding walk
  walk-end b p fuel previous e = rw e (walk_null b fuel (some p))

  -- The walk from a zeroed header stays there, on either kind of system.
  walk-zeros :
      (before : List ℕ) (k fuel : ℕ) (previous : Option ℕ)
      → c.cmsghdr.size ≤ k
      → walk c (before ++ zeros k) (suc fuel) (some (length before)) previous ≡ some (length before)
  walk-zeros before k fuel previous h =
      elim (laws.nxthdr_zero (before ++ zeros k) (length before) (header_at-zeros before k h)) [
        | inl e ↦ walk-end (before ++ zeros k) (length before) fuel previous e
        | inr e ↦ walk-same (before ++ zeros k) (length before) fuel previous e
      ]

  -- One step of the walk, from a header to a later one.
  pub walk-step :
      (b : List ℕ) (p q fuel : ℕ) (previous : Option ℕ)
      → c.cmsg_nxthdr b p ≡ some q
      → p < q
      → walk c b (suc fuel) (some p) previous ≡ walk c b fuel (some q) (some p)
  unfolding walk
  walk-step b p q fuel previous e lt = rw (e, ne→== q p (omega arith))

  -- From a message the walk steps to what follows it, a message or the zeroed space.
  nxthdr-encode_all :
      (before : List ℕ) (m : Cmsg) (ms : List Cmsg) (k : ℕ)
      → IsCmsg c m
      → All (IsCmsg c) ms
      → c.cmsghdr.size ≤ k
      → c.cmsg_nxthdr (before ++ (encode c m ++ (encode_all c ms ++ zeros k))) (length before)
        ≡ some (length before + space c m)
  nxthdr-encode_all before m [] k valid valids h = nxthdr-zeros before m valid k h
  nxthdr-encode_all before m (m' ∷ ms) k valid (valid', valids) h =
      ap (λ (t : List ℕ). c.cmsg_nxthdr (before ++ (encode c m ++ t)) (length before))
        (append_assoc (encode c m') (encode_all c ms) (zeros k))
      ∙ nxthdr-encode before m valid m' (encode_all c ms ++ zeros k) valid'

  -- Over messages and zeroed space the walk ends at the zeroed space.
  pub walk-encode_all :
      (ms : List Cmsg) (before : List ℕ) (k fuel : ℕ) (previous : Option ℕ)
      → All (IsCmsg c) ms
      → c.cmsghdr.size ≤ k
      → length ms ≤ fuel
      → walk c (before ++ (encode_all c ms ++ zeros k)) (suc fuel) (some (length before)) previous
        ≡ some (length (before ++ encode_all c ms))
  walk-encode_all [] before k fuel previous valid h enough =
      walk-zeros before k fuel previous h
      ∙ ap (λ (t : List ℕ). some (length t)) (sym (append-nil before))
  walk-encode_all (m ∷ ms) before k zero previous valid h enough = absurd (omega arith)
  walk-encode_all (m ∷ ms) before k (suc fuel) previous (valid, valids) h enough =
      let rest = encode_all c ms ++ zeros k in
      let start = some (length before) in
      ap (λ (t : List ℕ). walk c (before ++ t) (suc (suc fuel)) start previous)
        (append_assoc (encode c m) (encode_all c ms) (zeros k))
      ∙ walk-step (before ++ (encode c m ++ rest)) (length before) (length before + space c m)
          (suc fuel) previous (nxthdr-encode_all before m ms k valid valids h)
          (omega (arith, space-pos c laws m, laws.header_pos))
      ∙ ap₂ (λ (t : List ℕ) (p : ℕ). walk c t (suc fuel) (some p) start)
          (sym (append_assoc before (encode c m) rest)) (end_offset before m)
      ∙ walk-encode_all ms (before ++ encode c m) k fuel start valids h (omega arith)
      ∙ ap (λ (t : List ℕ). some (length t)) (append_assoc before (encode c m) (encode_all c ms))

  pub length-encode_all : (ms : List Cmsg) → length ms ≤ length (encode_all c ms)
  length-encode_all [] = omega arith
  length-encode_all (m ∷ ms) = omega (
    arith,
    length-append (encode c m) (encode_all c ms),
    length-encode c laws m,
    space-pos c laws m,
    laws.header_pos,
    length-encode_all ms,
  )

  -- The last header of messages and zeroed space is the zeroed one.
  pub last_header-encode_all :
      (ms : List Cmsg) (k : ℕ)
      → All (IsCmsg c) ms
      → c.cmsghdr.size ≤ k
      → last_header c (encode_all c ms ++ zeros k) ≡ some (length (encode_all c ms))
  unfolding last_header
  last_header-encode_all ms k valid h =
      let b = encode_all c ms ++ zeros k in
      let size = length-append (encode_all c ms) (zeros k) in
      rw (laws.firsthdr_fits b (omega (arith, size, length-zeros k))) (
        walk-encode_all ms [] k (length b) (some 0) valid h
          (omega (arith, size, length-encode_all ms)))
