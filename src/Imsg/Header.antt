-- ===== src/Imsg/Header.antt =====
-- privsep/src/imsg.rs: the message header and its bytes.
use privsep_rs.Prelude.{ℕ, ◌^◌, ◌%◌, ◌<◌, ◌≡◌, List, [], ◌++◌, length, length-append, drop, arith}
use privsep_rs.Memory.{Layout, IsLayout}
use privsep_rs.Memory.Ints.{
  Endian, to_ne_bytes, int_at, length-to_ne_bytes, drop-to_ne_bytes, int_at-to_ne_bytes,
}

-- `pid` is the bit pattern of a `pid_t`.
pub record Message : Type 0 where
  pub id : ℕ
  pub length : ℕ
  pub flags : ℕ
  pub peer_id : ℕ
  pub pid : ℕ

abbrev pub reserved : ℕ
reserved = 10

-- size_of::<Message>()
abbrev pub header_length : ℕ
header_length = 16

-- `getpid()` is an argument.
abbrev pub new : ℕ → ℕ → Message
new pid id = record { id = id; length = header_length; flags = 0; peer_id = 0; pid = pid }

abbrev pub min : ℕ → Message
min pid = new pid reserved

-- `peer_id as u32` of a 64-bit `usize`
abbrev pub connect : ℕ → ℕ → Message
connect pid peer_id = record (new pid 1) { peer_id = peer_id % 2 ^ 32 }

pub record IsMessage (m : Message) : Type 0 where
  pub id_fits : m.id < 2 ^ 32
  pub length_fits : m.length < 2 ^ 16
  pub flags_fits : m.flags < 2 ^ 16
  pub peer_id_fits : m.peer_id < 2 ^ 32
  pub pid_fits : m.pid < 2 ^ 32

-- `repr(C)`: the fields in order, with no padding.
unfoldable pub as_bytes : Endian → Message → List ℕ
as_bytes e m =
    to_ne_bytes e 4 m.id
    ++ (to_ne_bytes e 2 m.length
        ++ (to_ne_bytes e 2 m.flags
            ++ (to_ne_bytes e 4 m.peer_id ++ (to_ne_bytes e 4 m.pid ++ []))))

unfoldable pub from_bytes : Endian → List ℕ → Message
from_bytes e bytes = record {
  id = int_at e 4 bytes;
  length = int_at e 2 (drop 4 bytes);
  flags = int_at e 2 (drop 2 (drop 4 bytes));
  peer_id = int_at e 4 (drop 2 (drop 2 (drop 4 bytes)));
  pid = int_at e 4 (drop 4 (drop 2 (drop 2 (drop 4 bytes))));
}

abbrev pub layout : Endian → Layout Message
layout e = record { size = header_length; to_bytes = as_bytes e; from_bytes = from_bytes e }

pub IsMessage-IsLayout : (e : Endian) → IsLayout (layout e) IsMessage
unfolding as_bytes from_bytes
IsMessage-IsLayout e = record {
  length-to_bytes = λ m. omega (
    arith,
    length-append (to_ne_bytes e 4 m.id) (
        to_ne_bytes e 2 m.length
        ++ (to_ne_bytes e 2 m.flags
            ++ (to_ne_bytes e 4 m.peer_id ++ (to_ne_bytes e 4 m.pid ++ [])))),
    length-append (to_ne_bytes e 2 m.length)
        (to_ne_bytes e 2 m.flags ++ (to_ne_bytes e 4 m.peer_id ++ (to_ne_bytes e 4 m.pid ++ []))),
    length-append (to_ne_bytes e 2 m.flags)
        (to_ne_bytes e 4 m.peer_id ++ (to_ne_bytes e 4 m.pid ++ [])),
    length-append (to_ne_bytes e 4 m.peer_id) (to_ne_bytes e 4 m.pid ++ []),
    length-append (to_ne_bytes e 4 m.pid) [],
    length-to_ne_bytes e 4 m.id,
    length-to_ne_bytes e 2 m.length,
    length-to_ne_bytes e 2 m.flags,
    length-to_ne_bytes e 4 m.peer_id,
    length-to_ne_bytes e 4 m.pid,
  );
  from_bytes-to_bytes = λ m r. simp drop-to_ne_bytes (
      rw (
        int_at-to_ne_bytes e 4 m.id _ r.id_fits,
        int_at-to_ne_bytes e 2 m.length _ r.length_fits,
        int_at-to_ne_bytes e 2 m.flags _ r.flags_fits,
        int_at-to_ne_bytes e 4 m.peer_id _ r.peer_id_fits,
        int_at-to_ne_bytes e 4 m.pid _ r.pid_fits,
      ));
}

-- The bytes of a header with fields in range are 16, and are read back as that header.
pub from_bytes-as_bytes :
    (e : Endian) (m : Message)
    → IsMessage m
    → (length (as_bytes e m) ≡ header_length) × (from_bytes e (as_bytes e m) ≡ m)
from_bytes-as_bytes e m valid =
    ((IsMessage-IsLayout e).length-to_bytes m, (IsMessage-IsLayout e).from_bytes-to_bytes m valid)
