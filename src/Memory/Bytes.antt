-- ===== src/Memory/Bytes.antt =====
-- The layout of a `repr(C)` value, and the accesses through a raw pointer (`memcpy`, `fill`,
-- `read_unaligned`) as offsets into a byte list.
use privsep_rs.Prelude.{ℕ, ◌+◌, ◌≡◌, List, [], ◌∷◌, ◌++◌, length, take, drop, replicate}

-- How a value of type `T` lies in memory; `size` is `size_of::<T>()`.
pub record Layout (T : Type 0) : Type 0 where
  pub size : ℕ
  pub to_bytes : T → List ℕ
  pub from_bytes : List ℕ → T

-- The values that `IsRepr` admits fill `size` bytes and are read back as they were written.
pub record IsLayout {T : Type 0} (l : Layout T) (IsRepr : T → Type 0) : Type 0 where
  pub length-to_bytes : (t : T) → length (l.to_bytes t) ≡ l.size
  pub from_bytes-to_bytes : (t : T) → IsRepr t → l.from_bytes (l.to_bytes t) ≡ t

-- Overwrite the bytes from offset `p` on.
unfoldable pub write_at : ℕ → List ℕ → List ℕ → List ℕ
write_at p bytes memory = take p memory ++ (bytes ++ drop (p + length bytes) memory)

-- Read a value at offset `p`.
unfoldable pub read_at {ℓ} : {T : Type ℓ} → ℕ → (List ℕ → T) → ℕ → List ℕ → T
read_at size from_bytes p memory = from_bytes (take size (drop p memory))

-- `n` bytes of zero.
abbrev pub zeros : ℕ → List ℕ
zeros n = replicate n 0

-- The memory of a slice of values.
abbrev pub bytes_of : {T : Type 0} → Layout T → List T → List ℕ
bytes_of l [] = []
bytes_of l (t ∷ ts) = l.to_bytes t ++ bytes_of l ts
