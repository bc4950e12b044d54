-- ===== src/Ancillary/Tests.antt =====
-- Control messages of privsep/src/net/ancillary.rs in a buffer of 64-bit Linux.
use privsep_rs.Prelude.{
  ℕ, ◌^◌, ◌+◌, ◌≤◌, ◌<◌, ◌≡◌, true, false, List, [], ◌∷◌, ◌++◌, length, All, arith, ok,
}
use privsep_rs.Prelude.Iter.{Drains}
use privsep_rs.Memory.{zeros, bytes_of}
use privsep_rs.Memory.Ints.{to_ne_bytes}
use privsep_rs.Ancillary.{
  SocketAncillary, SocketCred, scm_rights, scm_credentials, new, new_cred, set_pid, set_uid,
  set_gid, add_fds, add_creds, all_messages, units, messages, next_unit, next_message, last_header,
}
use privsep_rs.Ancillary.Cmsg.{raw_fd, IsUCred}
use privsep_rs.Ancillary.Encoding.{space}
use privsep_rs.Ancillary.Operations.{
  rights, credentials, add_fds-IsWellFormed, add_creds-IsWellFormed, add_fds-full, add_creds-full,
  messages-add_fds, messages-add_creds,
}
use privsep_rs.Ancillary.Stored.{IsWellFormed, new-Holds}
use privsep_rs.Ancillary.Loops.{units-Drains, all_messages-Drains, Walks, last_header-Walks}
use privsep_rs.Ancillary.Linux.{linux, linux-IsLibc}

abbrev empty : SocketAncillary
empty = new (zeros 64)

abbrev tiny : SocketAncillary
tiny = new (zeros 16)

abbrev cred : SocketCred
cred = set_pid 7 (set_uid 1000 (set_gid 100 new_cred))

empty-IsWellFormed : IsWellFormed linux empty []
empty-IsWellFormed = record { holds = new-Holds linux (zeros 64); valid = tt; small = omega arith }

tiny-IsWellFormed : IsWellFormed linux tiny []
tiny-IsWellFormed = record { holds = new-Holds linux (zeros 16); valid = tt; small = omega arith }

rights_room : space linux (rights linux (3 ∷ 4 ∷ [])) + 0 ≤ 64
unfolding linux to_ne_bytes
rights_room = omega arith

creds_room : space linux (credentials linux (cred ∷ [])) + 0 ≤ 64
unfolding linux to_ne_bytes
creds_room = omega arith

creds_few : length (bytes_of linux.ucred (cred ∷ [])) < 2 ^ 32
unfolding linux to_ne_bytes
creds_few = omega arith

tiny_full : length tiny.buffer < space linux (rights linux (3 ∷ [])) + 0
unfolding linux to_ne_bytes
tiny_full = omega arith

tiny_creds_full : length tiny.buffer < space linux (credentials linux (cred ∷ [])) + 0
unfolding linux to_ne_bytes
tiny_creds_full = omega arith

cred_fits : All IsUCred (cred ∷ [])
cred_fits = (record { pid_fits = omega arith; uid_fits = omega arith; gid_fits = omega arith }, tt)

add_fds-IsWellFormed_run :
    ((add_fds linux (3 ∷ 4 ∷ []) empty).1 ≡ true)
    × IsWellFormed linux (add_fds linux (3 ∷ 4 ∷ []) empty).0 (rights linux (3 ∷ 4 ∷ []) ∷ [])
    × (length (add_fds linux (3 ∷ 4 ∷ []) empty).0.buffer ≡ 64)
add_fds-IsWellFormed_run =
    add_fds-IsWellFormed linux linux-IsLibc empty [] empty-IsWellFormed (3 ∷ 4 ∷ []) (omega arith)
      rights_room

add_creds-IsWellFormed_run :
    ((add_creds linux (cred ∷ []) empty).1 ≡ true)
    × IsWellFormed linux (add_creds linux (cred ∷ []) empty).0 (credentials linux (cred ∷ []) ∷ [])
    × (length (add_creds linux (cred ∷ []) empty).0.buffer ≡ 64)
add_creds-IsWellFormed_run =
    add_creds-IsWellFormed linux linux-IsLibc empty [] empty-IsWellFormed (cred ∷ []) creds_few
      creds_room

add_fds-full_run : add_fds linux (3 ∷ []) tiny ≡ (record tiny { truncated = false }, false)
add_fds-full_run = add_fds-full linux linux-IsLibc tiny [] tiny-IsWellFormed (3 ∷ []) tiny_full

add_creds-full_run : add_creds linux (cred ∷ []) tiny ≡ (record tiny { truncated = false }, false)
add_creds-full_run =
    add_creds-full linux linux-IsLibc tiny [] tiny-IsWellFormed (cred ∷ []) tiny_creds_full

messages-add_fds_example :
    (all_messages linux (add_fds linux (3 ∷ 4 ∷ []) empty).0
      ≡ all_messages linux empty ++ (ok (scm_rights (bytes_of (raw_fd linux) (3 ∷ 4 ∷ []))) ∷ []))
    × (units (raw_fd linux) (bytes_of (raw_fd linux) (3 ∷ 4 ∷ [])) ≡ 3 ∷ 4 ∷ [])
messages-add_fds_example =
    messages-add_fds linux linux-IsLibc empty [] empty-IsWellFormed (3 ∷ 4 ∷ []) (omega arith)
      (omega arith, (omega arith, tt)) rights_room

messages-add_creds_run :
    (all_messages linux (add_creds linux (cred ∷ []) empty).0
      ≡ all_messages linux empty ++ (ok (scm_credentials (bytes_of linux.ucred (cred ∷ []))) ∷ []))
    × (units linux.ucred (bytes_of linux.ucred (cred ∷ [])) ≡ cred ∷ [])
messages-add_creds_run =
    messages-add_creds linux linux-IsLibc empty [] empty-IsWellFormed (cred ∷ []) creds_few
      cred_fits creds_room

-- Bytes that no control message starts with.
abbrev garbage : List ℕ
garbage = 255 ∷ 1 ∷ 2 ∷ zeros 20

units-Drains_run : Drains (next_unit (raw_fd linux)) garbage (units (raw_fd linux) garbage)
units-Drains_run = units-Drains (raw_fd linux) (omega arith) garbage

all_messages-Drains_run :
    Drains
      (next_message linux)
      (messages (record { buffer = garbage; length = 20; truncated = false }))
      (all_messages linux (record { buffer = garbage; length = 20; truncated = false }))
all_messages-Drains_run =
    all_messages-Drains linux linux-IsLibc
      (record { buffer = garbage; length = 20; truncated = false })

last_header-Walks_run :
    Walks linux garbage
      (linux.cmsg_firsthdr garbage)
      (linux.cmsg_firsthdr garbage)
      (last_header linux garbage)
last_header-Walks_run = last_header-Walks linux linux-IsLibc garbage
