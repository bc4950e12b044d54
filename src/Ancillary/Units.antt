-- ===== src/Ancillary/Units.antt =====
-- AncillaryDataIter of privsep/src/net/ancillary.rs on the bytes of a list of values.
use privsep_rs.Prelude.{
  ℕ, zero, suc, ◌≤◌, ◌<◌, ◌≡◌, ap, ◌∙◌, sym, none, some, List, [], ◌∷◌, ◌++◌, length, take, drop,
  length-append, take-append_self, drop-append_self, All, arith, le→leb, lt→leb,
}
use mathlib.Core.Path.{ap₂}
use privsep_rs.Prelude.Iter.{collect, collect-some, collect-none}
use privsep_rs.Memory.{Layout, IsLayout, bytes_of}
use privsep_rs.Ancillary.{next_unit, units}
use privsep_rs.Ancillary.Write.{length-bytes_of}

module _ {T : Type 0} (l : Layout T) {IsRepr : T → Type 0} (layout : IsLayout l IsRepr)
    (some_size : 0 < l.size) where
  next_unit-bytes :
      (t : T) (rest : List ℕ) → IsRepr t → next_unit l (l.to_bytes t ++ rest) ≡ some (t, rest)
  unfolding next_unit
  next_unit-bytes t rest valid =
      let size = layout.length-to_bytes t in
      rw
        (le→leb l.size (length (l.to_bytes t ++ rest))
          (omega (arith, size, length-append (l.to_bytes t) rest)))
        (ap some (
          ap₂ (λ (u : T) (r : List ℕ). (u, r))
            (ap (λ (n : ℕ). l.from_bytes (take n (l.to_bytes t ++ rest))) (sym size)
              ∙ ap l.from_bytes (take-append_self (l.to_bytes t) rest)
              ∙ layout.from_bytes-to_bytes t valid)
            (ap (λ (n : ℕ). drop n (l.to_bytes t ++ rest)) (sym size)
              ∙ drop-append_self (l.to_bytes t) rest)))

  next_unit-nil : next_unit l [] ≡ none
  unfolding next_unit
  next_unit-nil = rw (lt→leb l.size 0 some_size)

  collect-bytes_of :
      (source : List T) (fuel : ℕ)
      → All IsRepr source
      → length source ≤ fuel
      → collect (next_unit l) fuel (bytes_of l source) ≡ source
  collect-bytes_of [] fuel valid h = collect-none (next_unit l) fuel next_unit-nil
  collect-bytes_of (t ∷ source) zero valid h = absurd (omega arith)
  collect-bytes_of (t ∷ source) (suc fuel) (valid, valids) h =
      collect-some (next_unit l) fuel (next_unit-bytes t (bytes_of l source) valid)
      ∙ ap (λ (ts : List T). t ∷ ts) (collect-bytes_of source fuel valids (omega arith))

  -- The units of a slice's memory are the slice.
  pub units-bytes_of : (source : List T) → All IsRepr source → units l (bytes_of l source) ≡ source
  unfolding units
  units-bytes_of source valid =
      collect-bytes_of source (length (bytes_of l source)) valid (fewer source)
    where
      fewer : (ts : List T) → length ts ≤ length (bytes_of l ts)
      fewer ts = rw (length-bytes_of l layout ts) (grind arith)
