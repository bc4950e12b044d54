-- ===== src/Imsg.antt =====
-- privsep/src/imsg.rs: the message handler over one end of a socket pair.
pub mod Header
pub mod Send
pub mod Recv
pub mod Framing
pub mod Receiving
pub mod Arrivals
pub mod Descriptors
pub mod Progress
pub mod EndOfFile
pub mod OneRead
pub mod Malformed
pub mod Cancelled
pub mod Sending
pub mod Writes
pub mod EndToEnd
pub mod Transfer
pub mod Live
pub mod Queue
pub mod Simulation
pub mod Fifo
pub mod Sockets
pub mod Bounds
pub mod Samples
mod Tests
mod SendTests
mod SocketTests
mod QueueTests
use privsep_rs.Prelude.{ℕ, Bool, true, false, Option, List, []}
use privsep_rs.Memory.{zeros}
use privsep_rs.Ancillary
use privsep_rs.Ancillary.{SocketAncillary}

-- bincode with serde, for the type of the payload; `none` is its error.
pub record Serde (T : Type 0) : Type 0 where
  pub serialize : T → Option (List ℕ)
  pub deserialize : List ℕ → Option T

-- `socket` is the descriptor of the stream.
pub record Handler : Type 0 where
  pub socket : ℕ
  pub shutdown : Bool
  pub read_buffer : List ℕ

-- From<UnixStream>
abbrev pub from_stream : ℕ → Handler
from_stream socket = record { socket = socket; shutdown = false; read_buffer = [] }

-- Closes the descriptor, which is returned, and marks the handler.
unfoldable pub shutdown : Handler → Handler × ℕ
shutdown h = (record h { shutdown = true }, h.socket)

abbrev pub buffer_length : ℕ
buffer_length = 0xffff

-- The ancillary buffer of one call.
abbrev pub fresh : SocketAncillary
fresh = Ancillary.new (zeros 128)
