-- ===== src/Ancillary/Linux.antt =====
-- One platform that meets the contract: 64-bit Linux, with its header of 16 bytes, alignment to 8
-- and numbers for the constants.
use privsep_rs.Prelude.{
  ℕ, ◌+◌, ◌*◌, ◌/◌, ◌≤◌, ◌<◌, ◌≡◌, ◌⊎◌, refl, ap, ◌∙◌, inl, inr, Option, none, some, List, [], ◌++◌,
  length, length-append, drop, ltb, if◌then◌else◌, arith,
}
use privsep_rs.Memory.{Layout, IsLayout, read_at, zeros}
use privsep_rs.Memory.Ints.{
  little, to_ne_bytes, from_ne_bytes, int_at, length-to_ne_bytes, drop-to_ne_bytes,
  int_at-to_ne_bytes,
}
use privsep_rs.Ancillary.Cmsg.{Libc, IsLibc, CmsgHdr, IsCmsgHdr, UCred, IsUCred}

abbrev align : ℕ → ℕ
align n = (n + 7) / 8 * 8

cmsghdr_bytes : CmsgHdr → List ℕ
cmsghdr_bytes h =
    to_ne_bytes little 8 h.cmsg_len
    ++ (to_ne_bytes little 4 h.cmsg_level ++ (to_ne_bytes little 4 h.cmsg_type ++ []))

cmsghdr_from : List ℕ → CmsgHdr
cmsghdr_from bytes = record {
  cmsg_len = int_at little 8 bytes;
  cmsg_level = int_at little 4 (drop 8 bytes);
  cmsg_type = int_at little 4 (drop 4 (drop 8 bytes));
}

abbrev cmsghdr : Layout CmsgHdr
cmsghdr = record { size = 16; to_bytes = cmsghdr_bytes; from_bytes = cmsghdr_from }

ucred_bytes : UCred → List ℕ
ucred_bytes u =
    to_ne_bytes little 4 u.pid ++ (to_ne_bytes little 4 u.uid ++ (to_ne_bytes little 4 u.gid ++ []))

ucred_from : List ℕ → UCred
ucred_from bytes = record {
  pid = int_at little 4 bytes;
  uid = int_at little 4 (drop 4 bytes);
  gid = int_at little 4 (drop 4 (drop 4 bytes));
}

abbrev ucred : Layout UCred
ucred = record { size = 12; to_bytes = ucred_bytes; from_bytes = ucred_from }

header : List ℕ → ℕ → CmsgHdr
header b p = read_at 16 cmsghdr_from p b

firsthdr : List ℕ → Option ℕ
firsthdr b = if ltb (length b) 16 then none else some 0

nxthdr : List ℕ → ℕ → Option ℕ
nxthdr b p =
    let q = p + align (header b p).cmsg_len in
    if ltb (header b p).cmsg_len 16
    then none
    else if ltb (length b) (q + 16)
    then none
    else if ltb (length b) (q + align (header b q).cmsg_len)
    then none
    else some q

unfoldable pub linux : Libc
unfolding firsthdr nxthdr header cmsghdr_bytes cmsghdr_from ucred_bytes ucred_from
linux = record {
  endian = little;
  cmsg_space = λ n. 16 + align n;
  cmsg_len = λ n. 16 + n;
  cmsg_data = λ p. p + 16;
  cmsg_firsthdr = firsthdr;
  cmsg_nxthdr = nxthdr;
  cmsghdr = cmsghdr;
  ucred = ucred;
  sol_socket = 1;
  scm_rights = 1;
  scm_credentials = 2;
}

cmsghdr-IsLayout : IsLayout cmsghdr IsCmsgHdr
unfolding cmsghdr_bytes cmsghdr_from
cmsghdr-IsLayout = record {
  length-to_bytes = λ h. omega (
    arith,
    length-append (to_ne_bytes little 8 h.cmsg_len)
        (to_ne_bytes little 4 h.cmsg_level ++ (to_ne_bytes little 4 h.cmsg_type ++ [])),
    length-append (to_ne_bytes little 4 h.cmsg_level) (to_ne_bytes little 4 h.cmsg_type ++ []),
    length-append (to_ne_bytes little 4 h.cmsg_type) [],
    length-to_ne_bytes little 8 h.cmsg_len,
    length-to_ne_bytes little 4 h.cmsg_level,
    length-to_ne_bytes little 4 h.cmsg_type,
  );
  from_bytes-to_bytes = λ h r. simp drop-to_ne_bytes (
      rw (
        int_at-to_ne_bytes little 8 h.cmsg_len _ r.len_fits,
        int_at-to_ne_bytes little 4 h.cmsg_level _ r.level_fits,
        int_at-to_ne_bytes little 4 h.cmsg_type _ r.type_fits,
      ));
}

ucred-IsLayout : IsLayout ucred IsUCred
unfolding ucred_bytes ucred_from
ucred-IsLayout = record {
  length-to_bytes = λ u. omega (
    arith,
    length-append (to_ne_bytes little 4 u.pid)
        (to_ne_bytes little 4 u.uid ++ (to_ne_bytes little 4 u.gid ++ [])),
    length-append (to_ne_bytes little 4 u.uid) (to_ne_bytes little 4 u.gid ++ []),
    length-append (to_ne_bytes little 4 u.gid) [],
    length-to_ne_bytes little 4 u.pid,
    length-to_ne_bytes little 4 u.uid,
    length-to_ne_bytes little 4 u.gid,
  );
  from_bytes-to_bytes = λ u r. simp drop-to_ne_bytes (
      rw (
        int_at-to_ne_bytes little 4 u.pid _ r.pid_fits,
        int_at-to_ne_bytes little 4 u.uid _ r.uid_fits,
        int_at-to_ne_bytes little 4 u.gid _ r.gid_fits,
      ));
}

nxthdr_zero :
    (b : List ℕ) (p : ℕ) → (header b p).cmsg_len ≡ 0 → (nxthdr b p ≡ none) ⊎ (nxthdr b p ≡ some p)
unfolding nxthdr
nxthdr_zero b p h = inl (ground arith)

module _ (b : List ℕ) (p n : ℕ) (this : (header b p).cmsg_len ≡ 16 + n) where
  next_offset : p + align (header b p).cmsg_len ≡ p + (16 + align n)
  next_offset = omega arith

  nxthdr_last : length b < p + (16 + align n) + 16 → nxthdr b p ≡ none
  unfolding nxthdr
  nxthdr_last h = ground arith

  nxthdr_empty :
      p + (16 + align n) + 16 ≤ length b
      → (header b (p + (16 + align n))).cmsg_len ≡ 0
      → nxthdr b p ≡ some (p + (16 + align n))
  unfolding nxthdr
  nxthdr_empty fits next =
      ground (arith, next_offset, ap (λ (q : ℕ). (header b q).cmsg_len) next_offset ∙ next)

  nxthdr_next :
      (m : ℕ)
      → (header b (p + (16 + align n))).cmsg_len ≡ 16 + m
      → p + (16 + align n) + (16 + align m) ≤ length b
      → nxthdr b p ≡ some (p + (16 + align n))
  unfolding nxthdr
  nxthdr_next m next fits =
      ground (arith, next_offset, ap (λ (q : ℕ). (header b q).cmsg_len) next_offset ∙ next)

nxthdr_forward : (b : List ℕ) (p q : ℕ) → nxthdr b p ≡ some q → (q ≡ p) ⊎ ((p < q) × (q < length b))
unfolding nxthdr
nxthdr_forward b p q h = inr (ground arith)

zero_header : (cmsghdr_from (zeros 16)).cmsg_len ≡ 0
unfolding cmsghdr_from from_ne_bytes
zero_header = refl

firsthdr_fits : (b : List ℕ) → 16 ≤ length b → firsthdr b ≡ some 0
unfolding firsthdr
firsthdr_fits b h = ground arith

firsthdr_small : (b : List ℕ) → length b < 16 → firsthdr b ≡ none
unfolding firsthdr
firsthdr_small b h = ground arith

pub linux-IsLibc : IsLibc linux
unfolding linux
linux-IsLibc = record {
  header_layout = cmsghdr-IsLayout;
  ucred_layout = ucred-IsLayout;
  ucred_pos = omega arith;
  sol_socket_fits = omega arith;
  scm_rights_fits = omega arith;
  scm_credentials_fits = omega arith;
  kinds_differ = λ e. absurd (omega arith);
  header_zero = zero_header;
  header_pos = omega arith;
  size-le-len = omega arith;
  len_add = λ n. omega arith;
  len-le-space = λ n. omega arith;
  data_offset = λ p. refl;
  firsthdr_small = firsthdr_small;
  firsthdr_fits = firsthdr_fits;
  nxthdr_zero = nxthdr_zero;
  nxthdr_last = nxthdr_last;
  nxthdr_empty = nxthdr_empty;
  nxthdr_next = λ b p n m this next fits. nxthdr_next b p n this m next fits;
  nxthdr_forward = nxthdr_forward;
}
