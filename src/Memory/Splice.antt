-- ===== src/Memory/Splice.antt =====
-- Reads and writes at a seam of a byte list.
use privsep_rs.Prelude.{
  ℕ, ◌+◌, ◌≤◌, ◌≡◌, List, ◌++◌, length, length-append, take-append_self, drop-append_self,
  drop-append_add, length-take, length-replicate, replicate-append, length-drop, arith,
}
use privsep_rs.Memory.Bytes.{write_at, read_at, zeros}

module _ (before old bytes after : List ℕ) (same : length old ≡ length bytes) where
  -- A write over a stretch of its own length replaces that stretch.
  pub write_at-seam :
      write_at (length before) bytes (before ++ (old ++ after)) ≡ before ++ (bytes ++ after)
  unfolding write_at
  write_at-seam = rw (take-append_self, ← same, drop-append_add, drop-append_self)

-- A read of a stretch of its own length returns that stretch.
pub read_at-seam :
    {T : Type 0} (from_bytes : List ℕ → T) (n : ℕ) (before bytes after : List ℕ)
    → length bytes ≡ n
    → read_at n from_bytes (length before) (before ++ (bytes ++ after)) ≡ from_bytes bytes
unfolding read_at
read_at-seam from_bytes n before bytes after same = rw (← same, drop-append_self, take-append_self)

pub length-zeros : (n : ℕ) → length (zeros n) ≡ n
length-zeros n = length-replicate n 0

pub zeros-add : (m n : ℕ) → zeros (m + n) ≡ zeros m ++ zeros n
zeros-add m n = replicate-append m n 0

pub length-write_at :
    (p : ℕ) (bytes memory : List ℕ)
    → p + length bytes ≤ length memory
    → length (write_at p bytes memory) ≡ length memory
unfolding write_at
length-write_at p bytes memory h =
    rw (length-append, length-append)
      (omega (arith, length-take p memory, length-drop (p + length bytes) memory))
