-- ===== src/Memory/Ints.antt =====
-- Unsigned integers of `w` bytes in the byte order of the target.
use privsep_rs.Prelude.{
  ℕ, zero, suc, ◌+◌, ◌*◌, ◌/◌, ◌%◌, ◌^◌, ◌<◌, ◌≡◌, refl, ap, ◌∙◌, subst, List, [], ◌∷◌, ◌++◌,
  length, length-append, take, drop, take-append_self, drop-append_self, arith,
}
use native.Mathlib.Nat.{pow-suc}
use privsep_rs.Memory.Bytes.{Layout, IsLayout}

pub data Endian : Type 0 where
  little big : Endian

le_bytes : ℕ → ℕ → List ℕ
le_bytes zero v = []
le_bytes (suc w) v = (v % 256) ∷ le_bytes w (v / 256)

from_le : List ℕ → ℕ
from_le [] = 0
from_le (b ∷ bs) = b + 256 * from_le bs

be_bytes : ℕ → ℕ → List ℕ
be_bytes zero v = []
be_bytes (suc w) v = be_bytes w (v / 256) ++ ((v % 256) ∷ [])

from_be : ℕ → List ℕ → ℕ
from_be acc [] = acc
from_be acc (b ∷ bs) = from_be (acc * 256 + b) bs

-- `to_ne_bytes` of an integer of `w` bytes.
unfoldable pub to_ne_bytes : Endian → ℕ → ℕ → List ℕ
unfolding le_bytes be_bytes
to_ne_bytes little w v = le_bytes w v
to_ne_bytes big w v = be_bytes w v

unfoldable pub from_ne_bytes : Endian → List ℕ → ℕ
unfolding from_le from_be
from_ne_bytes little bs = from_le bs
from_ne_bytes big bs = from_be 0 bs

length-le_bytes : (w v : ℕ) → length (le_bytes w v) ≡ w
unfolding le_bytes
length-le_bytes zero v = refl
length-le_bytes (suc w) v = ap suc (length-le_bytes w (v / 256))

length-be_bytes : (w v : ℕ) → length (be_bytes w v) ≡ w
unfolding be_bytes
length-be_bytes zero v = refl
length-be_bytes (suc w) v =
    length-append (be_bytes w (v / 256)) _ ∙ omega (arith, length-be_bytes w (v / 256))

pub length-to_ne_bytes : (e : Endian) (w v : ℕ) → length (to_ne_bytes e w v) ≡ w
unfolding to_ne_bytes
length-to_ne_bytes little = length-le_bytes
length-to_ne_bytes big = length-be_bytes

-- A value that fits in `w + 1` bytes, without its last byte, fits in `w`.
div-lt-pow : (w v : ℕ) → v < 256 ^ suc w → v / 256 < 256 ^ w
div-lt-pow w v h = omega (arith, pow-suc 256 w)

from_le-le_bytes : (w v : ℕ) → v < 256 ^ w → from_le (le_bytes w v) ≡ v
unfolding from_le le_bytes
from_le-le_bytes zero v h = omega arith
from_le-le_bytes (suc w) v h = omega (arith, from_le-le_bytes w (v / 256) (div-lt-pow w v h))

from_be-append : (acc b : ℕ) (bs : List ℕ) → from_be acc (bs ++ (b ∷ [])) ≡ from_be acc bs * 256 + b
unfolding from_be
from_be-append acc b [] = refl
from_be-append acc b (c ∷ bs) = from_be-append (acc * 256 + c) b bs

from_be-be_bytes : (w v : ℕ) → v < 256 ^ w → from_be 0 (be_bytes w v) ≡ v
unfolding be_bytes
from_be-be_bytes zero v h = unfold from_be in omega arith
from_be-be_bytes (suc w) v h =
    from_be-append 0 (v % 256) (be_bytes w (v / 256))
    ∙ omega (arith, from_be-be_bytes w (v / 256) (div-lt-pow w v h))

pub from_ne_bytes-to_ne_bytes :
    (e : Endian) (w v : ℕ) → v < 256 ^ w → from_ne_bytes e (to_ne_bytes e w v) ≡ v
unfolding to_ne_bytes from_ne_bytes
from_ne_bytes-to_ne_bytes little = from_le-le_bytes
from_ne_bytes-to_ne_bytes big = from_be-be_bytes

-- One integer field at the front of a byte list.
abbrev pub int_at : Endian → ℕ → List ℕ → ℕ
int_at e w bs = from_ne_bytes e (take w bs)

module _ (e : Endian) (w v : ℕ) (rest : List ℕ) where
  pub drop-to_ne_bytes : drop w (to_ne_bytes e w v ++ rest) ≡ rest
  drop-to_ne_bytes =
      subst (λ k. drop k (to_ne_bytes e w v ++ rest) ≡ rest) (length-to_ne_bytes e w v)
        (drop-append_self (to_ne_bytes e w v) rest)

  take-to_ne_bytes : take w (to_ne_bytes e w v ++ rest) ≡ to_ne_bytes e w v
  take-to_ne_bytes =
      subst (λ k. take k (to_ne_bytes e w v ++ rest) ≡ to_ne_bytes e w v) (length-to_ne_bytes e w v)
        (take-append_self (to_ne_bytes e w v) rest)

  pub int_at-to_ne_bytes : v < 256 ^ w → int_at e w (to_ne_bytes e w v ++ rest) ≡ v
  int_at-to_ne_bytes h = ap (from_ne_bytes e) take-to_ne_bytes ∙ from_ne_bytes-to_ne_bytes e w v h

-- An integer of `w` bytes, by itself. A signed one stands for its bit pattern.
abbrev pub int_layout : Endian → ℕ → Layout ℕ
int_layout e w = record { size = w; to_bytes = to_ne_bytes e w; from_bytes = from_ne_bytes e }

pub int_layout-IsLayout : (e : Endian) (w : ℕ) → IsLayout (int_layout e w) (λ v. v < 256 ^ w)
int_layout-IsLayout e w = record {
  length-to_bytes = length-to_ne_bytes e w;
  from_bytes-to_bytes = from_ne_bytes-to_ne_bytes e w;
}
