-- ===== src/Memory.antt =====
-- Bytes of memory: the native-endian integers of a target, layouts, reads and writes.
mod Bytes
pub mod Ints
pub mod Splice
unfoldable pub use Bytes.*
