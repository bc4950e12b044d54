-- ===== src/Ancillary/Cmsg.antt =====
-- What privsep/src/net/ancillary.rs uses of libc: the CMSG macros on a control buffer, the struct
-- `cmsghdr`, and the constants. A pointer into the buffer is its offset, and null is `none`.
use privsep_rs.Prelude.{ℕ, ◌+◌, ◌^◌, ◌≤◌, ◌<◌, ◌≡◌, ◌≢◌, ◌⊎◌, Option, none, some, List, length}
use privsep_rs.Memory.Ints.{Endian, int_layout}
use privsep_rs.Memory.{Layout, IsLayout, read_at, zeros}

-- libc::cmsghdr
pub record CmsgHdr : Type 0 where
  pub cmsg_len : ℕ
  pub cmsg_level : ℕ
  pub cmsg_type : ℕ

-- libc::ucred
pub record UCred : Type 0 where
  pub pid : ℕ
  pub uid : ℕ
  pub gid : ℕ

-- The platform: its byte order, and libc's macros, structs and constants for it.
pub record Libc : Type 0 where
  pub endian : Endian
  pub cmsg_space : ℕ → ℕ
  pub cmsg_len : ℕ → ℕ
  pub cmsg_data : ℕ → ℕ
  -- the control buffer stands for the msghdr: `msg_control`, and `msg_controllen` is its length
  pub cmsg_firsthdr : List ℕ → Option ℕ
  pub cmsg_nxthdr : List ℕ → ℕ → Option ℕ
  pub cmsghdr : Layout CmsgHdr
  pub ucred : Layout UCred
  pub sol_socket : ℕ
  pub scm_rights : ℕ
  pub scm_credentials : ℕ

-- `*(p as *const cmsghdr)`
abbrev pub header_at : Libc → List ℕ → ℕ → CmsgHdr
header_at c control p = read_at c.cmsghdr.size c.cmsghdr.from_bytes p control

-- The fields are a `size_t` and two `c_int` bit patterns.
pub record IsCmsgHdr (h : CmsgHdr) : Type 0 where
  pub len_fits : h.cmsg_len < 2 ^ 64
  pub level_fits : h.cmsg_level < 2 ^ 32
  pub type_fits : h.cmsg_type < 2 ^ 32

pub record IsUCred (u : UCred) : Type 0 where
  pub pid_fits : u.pid < 2 ^ 32
  pub uid_fits : u.uid < 2 ^ 32
  pub gid_fits : u.gid < 2 ^ 32

-- RawFd, a `c_int`
abbrev pub raw_fd : Libc → Layout ℕ
raw_fd c = int_layout c.endian 4

abbrev pub IsFd : ℕ → Type 0
IsFd fd = fd < 256 ^ 4

-- cmsg(3), and the macros' contract on a buffer of well-formed control messages. At a header of
-- length zero Linux answers null and other systems the same header.
pub record IsLibc (c : Libc) : Type 0 where
  pub header_layout : IsLayout c.cmsghdr IsCmsgHdr
  pub ucred_layout : IsLayout c.ucred IsUCred
  pub ucred_pos : 0 < c.ucred.size
  pub sol_socket_fits : c.sol_socket < 2 ^ 32
  pub scm_rights_fits : c.scm_rights < 2 ^ 32
  pub scm_credentials_fits : c.scm_credentials < 2 ^ 32
  pub kinds_differ : c.scm_rights ≢ c.scm_credentials
  pub header_zero : (c.cmsghdr.from_bytes (zeros c.cmsghdr.size)).cmsg_len ≡ 0
  pub header_pos : 0 < c.cmsghdr.size
  pub size-le-len : c.cmsghdr.size ≤ c.cmsg_len 0
  pub len_add : (n : ℕ) → c.cmsg_len n ≡ c.cmsg_len 0 + n
  pub len-le-space : (n : ℕ) → c.cmsg_len n ≤ c.cmsg_space n
  pub data_offset : (p : ℕ) → c.cmsg_data p ≡ p + c.cmsg_len 0
  pub firsthdr_small : (b : List ℕ) → length b < c.cmsghdr.size → c.cmsg_firsthdr b ≡ none
  pub firsthdr_fits : (b : List ℕ) → c.cmsghdr.size ≤ length b → c.cmsg_firsthdr b ≡ some 0
  pub nxthdr_zero :
      (b : List ℕ) (p : ℕ)
      → (header_at c b p).cmsg_len ≡ 0
      → (c.cmsg_nxthdr b p ≡ none) ⊎ (c.cmsg_nxthdr b p ≡ some p)
  pub nxthdr_last :
      (b : List ℕ) (p n : ℕ)
      → (header_at c b p).cmsg_len ≡ c.cmsg_len n
      → length b < p + c.cmsg_space n + c.cmsghdr.size
      → c.cmsg_nxthdr b p ≡ none
  pub nxthdr_empty :
      (b : List ℕ) (p n : ℕ)
      → (header_at c b p).cmsg_len ≡ c.cmsg_len n
      → p + c.cmsg_space n + c.cmsghdr.size ≤ length b
      → (header_at c b (p + c.cmsg_space n)).cmsg_len ≡ 0
      → c.cmsg_nxthdr b p ≡ some (p + c.cmsg_space n)
  pub nxthdr_next :
      (b : List ℕ) (p n m : ℕ)
      → (header_at c b p).cmsg_len ≡ c.cmsg_len n
      → (header_at c b (p + c.cmsg_space n)).cmsg_len ≡ c.cmsg_len m
      → p + c.cmsg_space n + c.cmsg_space m ≤ length b
      → c.cmsg_nxthdr b p ≡ some (p + c.cmsg_space n)
  -- The macro stays in the buffer, and steps forward or not at all.
  pub nxthdr_forward :
      (b : List ℕ) (p q : ℕ) → c.cmsg_nxthdr b p ≡ some q → (q ≡ p) ⊎ ((p < q) × (q < length b))
