-- ===== src/Imsg/Samples.antt =====
-- Messages and payloads for the tests of privsep/src/imsg.rs.
use privsep_rs.Prelude.{ℕ, ◌≤◌, refl, some, List, [], ◌∷◌, arith}
use privsep_rs.Memory.Ints.{to_ne_bytes}
use privsep_rs.Ancillary.Linux.{linux}
use privsep_rs.Ancillary.Encoding.{space}
use privsep_rs.Ancillary.Operations.{rights}
use privsep_rs.Imsg.{Serde, Handler, from_stream}
use privsep_rs.Imsg.Header.{Message, IsMessage, new}
use privsep_rs.Imsg.Framing.{IsFrame}
use privsep_rs.Imsg.Sending.{stamped}

-- Payloads of bytes, which no conversion refuses.
abbrev pub raw : Serde (List ℕ)
raw = record { serialize = some; deserialize = some }

abbrev pub handler : Handler
handler = from_stream 5

abbrev pub payload : List ℕ
payload = 104 ∷ 105 ∷ []

-- A message as `new` makes it, and what is sent of it with that payload.
abbrev pub hello : Message
hello = new 42 11

abbrev pub hello_sent : Message
hello_sent = stamped 42 hello payload

abbrev pub bye : Message
bye = new 42 12

pub hello_sent-IsMessage : IsMessage hello_sent
hello_sent-IsMessage = record {
  id_fits = omega arith;
  length_fits = omega arith;
  flags_fits = omega arith;
  peer_id_fits = omega arith;
  pid_fits = omega arith;
}

pub hello-IsMessage : IsMessage hello
hello-IsMessage = record {
  id_fits = omega arith;
  length_fits = omega arith;
  flags_fits = omega arith;
  peer_id_fits = omega arith;
  pid_fits = omega arith;
}

pub bye-IsMessage : IsMessage bye
bye-IsMessage = record {
  id_fits = omega arith;
  length_fits = omega arith;
  flags_fits = omega arith;
  peer_id_fits = omega arith;
  pid_fits = omega arith;
}

pub hello-IsFrame : IsFrame linux hello_sent payload
hello-IsFrame = record { valid = hello_sent-IsMessage; total = refl }

pub bye-IsFrame : IsFrame linux bye []
bye-IsFrame = record { valid = bye-IsMessage; total = refl }

-- The room that one descriptor takes.
pub rights_room : space linux (rights linux (9 ∷ [])) ≤ 128
unfolding linux to_ne_bytes
rights_room = omega arith
