-- ===== src/Ancillary.antt =====
-- privsep/src/net/ancillary.rs: control messages in a byte buffer. `usize` has 64 bits.
pub mod Cmsg
pub mod Encoding
pub mod Walk
pub mod Write
pub mod Append
pub mod Units
pub mod RoundTrip
pub mod Stored
pub mod Operations
pub mod Loops
pub mod Linux
mod Tests
use privsep_rs.Prelude.{
  ℕ, zero, suc, ◌+◌, ◌-◌, ◌*◌, ◌%◌, ◌^◌, ◌≡◌, Bool, true, false, not, ◌||◌, Option, none, some,
  List, [], ◌∷◌, ◌++◌, take, drop, ltb, leb, ◌==◌, if◌then◌else◌, Result, ok, err,
}
use privsep_rs.Prelude
use privsep_rs.Prelude.Iter.{collect}
use privsep_rs.Memory.{Layout, write_at, zeros, bytes_of}
use Cmsg.{Libc, CmsgHdr, UCred, header_at, raw_fd}

abbrev usize_limit : ℕ
usize_limit = 2 ^ 64

abbrev u32_limit : ℕ
u32_limit = 2 ^ 32

-- `buffer` is the whole slice; its first `length` bytes hold control messages.
pub record SocketAncillary : Type 0 where
  pub buffer : List ℕ
  pub length : ℕ
  pub truncated : Bool

-- SocketCred is a newtype of libc::ucred.
abbrev pub SocketCred : Type 0
SocketCred = UCred

abbrev pub new_cred : SocketCred
new_cred = record { pid = 0; uid = 0; gid = 0 }

abbrev pub set_pid : ℕ → SocketCred → SocketCred
set_pid pid cred = record cred { pid = pid }

abbrev pub set_uid : ℕ → SocketCred → SocketCred
set_uid uid cred = record cred { uid = uid }

abbrev pub set_gid : ℕ → SocketCred → SocketCred
set_gid gid cred = record cred { gid = gid }

abbrev pub new : List ℕ → SocketAncillary
new buffer = record { buffer = buffer; length = 0; truncated = false }

abbrev pub capacity : SocketAncillary → ℕ
capacity a = Prelude.length a.buffer

abbrev pub len : SocketAncillary → ℕ
len a = a.length

abbrev pub is_empty : SocketAncillary → Bool
is_empty a = a.length == 0

abbrev pub clear : SocketAncillary → SocketAncillary
clear a = record a { length = 0; truncated = false }

-- The two kinds of control message, each with the bytes that its iterator has left.
pub data AncillaryData : Type 0 where
  scm_rights : List ℕ → AncillaryData
  scm_credentials : List ℕ → AncillaryData

-- `fault` is no Rust value: the length in the header is less than that of a header, or the slice of the
-- data would not lie in the buffer, and the behaviour of the program is undefined there.
pub data AncillaryError : Type 0 where
  unknown : ℕ → ℕ → AncillaryError
  fault : AncillaryError

-- AncillaryDataIter::next; the state is the `data` slice
unfoldable pub next_unit : {T : Type 0} → Layout T → List ℕ → Option (T × List ℕ)
next_unit l bytes =
    if leb l.size (Prelude.length bytes)
    then some (l.from_bytes (take l.size bytes), drop l.size bytes)
    else none

-- `for unit in iter`
unfoldable pub units : {T : Type 0} → Layout T → List ℕ → List T
units l bytes = collect (next_unit l) (Prelude.length bytes) bytes

pub record Messages : Type 0 where
  pub buffer : List ℕ
  pub current : Option ℕ

unfoldable pub messages : SocketAncillary → Messages
messages a = record { buffer = take a.length a.buffer; current = none }

abbrev same : Option ℕ → ℕ → Bool
same none q = false
same (some p) q = p == q

module _ (c : Libc) where
  -- while !cmsg.is_null() { previous = cmsg; cmsg = NXTHDR(cmsg); if eq(cmsg, previous) { break } }
  pub walk : List ℕ → ℕ → Option ℕ → Option ℕ → Option ℕ
  walk control zero cmsg previous = previous
  walk control (suc fuel) none previous = previous
  walk control (suc fuel) (some p) previous =
      let cmsg = c.cmsg_nxthdr control p in
      let rest = walk control fuel cmsg (some p) in if same cmsg p then some p else rest

  -- The last header of a control buffer. A header takes a byte at least.
  pub last_header : List ℕ → Option ℕ
  unfolding walk
  last_header control =
      let first = c.cmsg_firsthdr control in walk control (suc (Prelude.length control)) first first

  -- The header and the data are written at the header that the walk found.
  pub write_message :
      {T : Type 0} → Layout T → List ℕ → ℕ → List T → ℕ → ℕ → Option ℕ → Bool × List ℕ × ℕ
  write_message l buffer new_length source level kind none = (false, buffer, new_length)
  write_message l buffer new_length source level kind (some p) =
      let header : CmsgHdr = record {
        cmsg_len = c.cmsg_len (Prelude.length source * l.size);
        cmsg_level = level;
        cmsg_type = kind;
      } in
      let headed = write_at p (c.cmsghdr.to_bytes header) buffer in
      (true, write_at (c.cmsg_data p) (bytes_of l source) headed, new_length)

  -- One control message behind `len`, in space that is there.
  pub append_message : {T : Type 0} → Layout T → List ℕ → ℕ → ℕ → List T → ℕ → ℕ → Bool × List ℕ × ℕ
  append_message l buffer len new_length source level kind =
      let zeroed = write_at len (zeros (new_length - len)) buffer in
      write_message l zeroed new_length source level kind (last_header (take new_length zeroed))

  -- The result, the buffer and the length.
  pub add_to_ancillary_data :
      {T : Type 0} → Layout T → List ℕ → ℕ → List T → ℕ → ℕ → Bool × List ℕ × ℕ
  add_to_ancillary_data l buffer len source level kind =
      let source_len = Prelude.length source * l.size in
      let new_length = c.cmsg_space source_len + len in
      if not (ltb source_len usize_limit)
      then (false, buffer, len)
      else if not (ltb source_len u32_limit)
      then (false, buffer, len)
      else if not (ltb new_length usize_limit)
      then (false, buffer, len)
      else if ltb (Prelude.length buffer) new_length
      then (false, buffer, len)
      else append_message l buffer len new_length source level kind

  abbrev pub store : SocketAncillary → Bool × List ℕ × ℕ → SocketAncillary × Bool
  store a (added, buffer, len) =
      (record { buffer = buffer; length = len; truncated = false }, added)

  pub add_fds : List ℕ → SocketAncillary → SocketAncillary × Bool
  add_fds fds a =
      store a (add_to_ancillary_data (raw_fd c) a.buffer a.length fds c.sol_socket c.scm_rights)

  pub add_creds : List SocketCred → SocketAncillary → SocketAncillary × Bool
  add_creds creds a =
      store a (add_to_ancillary_data c.ucred a.buffer a.length creds c.sol_socket c.scm_credentials)

  -- `cmsg` stands at offset `p`; `cmsg_len - CMSG_LEN(0)` is the number of data bytes.
  pub parse_header : List ℕ → ℕ → CmsgHdr → Result AncillaryError AncillaryData
  parse_header control p cmsg =
      let data_len = cmsg.cmsg_len - c.cmsg_len 0 in
      let bytes = take data_len (drop (c.cmsg_data p) control) in
      if ltb cmsg.cmsg_len (c.cmsg_len 0) || ltb (Prelude.length control) (c.cmsg_data p + data_len)
      then err fault
      else if cmsg.cmsg_level == c.sol_socket
      then (if cmsg.cmsg_type == c.scm_rights
          then ok (scm_rights bytes)
          else if cmsg.cmsg_type == c.scm_credentials
          then ok (scm_credentials bytes)
          else err (unknown c.sol_socket cmsg.cmsg_type))
      else err (unknown cmsg.cmsg_level cmsg.cmsg_type)

  pub try_from_cmsghdr : List ℕ → ℕ → Result AncillaryError AncillaryData
  unfolding parse_header
  try_from_cmsghdr control p = parse_header control p (header_at c control p)

  -- The header after `current`, and the first header where there is none.
  pub header_after : List ℕ → Option ℕ → Option ℕ
  header_after control none = c.cmsg_firsthdr control
  header_after control (some current) = c.cmsg_nxthdr control current

  -- What the iterator makes of the header that it found.
  pub yield_header : Messages → Option ℕ → Option (Result AncillaryError AncillaryData × Messages)
  yield_header m none = none
  yield_header m (some p) =
      if same m.current p
      then none
      else some (try_from_cmsghdr m.buffer p, record m { current = some p })

  -- Messages::next
  pub next_message : Messages → Option (Result AncillaryError AncillaryData × Messages)
  unfolding header_after yield_header
  next_message m = yield_header m (header_after m.buffer m.current)

  -- `for result in ancillary.messages()`
  pub all_messages : SocketAncillary → List (Result AncillaryError AncillaryData)
  all_messages a = collect next_message (suc (Prelude.length (messages a).buffer)) (messages a)
