-- ===== src/Fd/Ownership.antt =====
-- Fd of privsep/src/net/fd.rs, over the laws of the kernel.
use privsep_rs.Prelude.{
  ℕ, ◌≡◌, ◌≢◌, ◌⊎◌, inl, inr, ap, sym, ◌∙◌, Bool-cases, Option-cases, none, some, ok, err, ◌==◌,
  ==_iff,
}
use privsep_rs.Stream.{not_connected}
use privsep_rs.Fd.{Kernel, IsKernel, duplicate, is_open, as_open, drop}

-- Two numbers are the same or not.
pub same_or_not : (x y : ℕ) → (x ≡ y) ⊎ (x ≢ y)
same_or_not x y = elim (Bool-cases (x == y)) [
  | inl e ↦ inl ((==_iff x y).0 e)
  | inr e ↦ inr (λ same. cc (e, (==_iff x y).1 same))
]

module _ (k : Kernel) (null : ℕ) (laws : IsKernel k null) where
  -- For a kernel that keeps its laws: the duplicate of an open descriptor is open for the same file, it
  -- stays open when the original is dropped, and when it is dropped instead, all descriptors are as
  -- they were before.
  pub duplicate-drop :
      (fd file n : ℕ) (s t : k.State)
      → k.file_of s fd ≡ some file
      → duplicate k fd s ≡ (ok n, t)
      → (k.file_of t n ≡ some file)
        × (k.file_of (drop k fd t) n ≡ some file)
        × ((x : ℕ) → k.file_of (drop k n t) x ≡ k.file_of s x)
  unfolding duplicate
  duplicate-drop fd file n s t e done =
      let o = laws.dup_ok fd n file s t done e in
      let apart : n ≢ fd = λ same. cc (o.was_free, e, same) in
      (
        o.is_open,
        laws.close_others fd n t apart ∙ o.is_open,
        λ x. elim (same_or_not x n) [
          | inl same ↦
              ap (k.file_of (drop k n t)) same
              ∙ laws.close_one n t
              ∙ sym o.was_free
              ∙ ap (k.file_of s) (sym same)
          | inr other ↦ laws.close_others n x t other ∙ o.others x other
        ],
      )

  -- For a kernel that keeps its laws: is_open returns Ok just for a descriptor that is open, and
  -- NotConnected for any other.
  pub is_open-outcome :
      (fd : ℕ) (s : k.State)
      → ((file : ℕ) × (k.file_of s fd ≡ some file) × (is_open k fd s ≡ ok tt))
        ⊎ ((k.file_of s fd ≡ none) × (is_open k fd s ≡ err not_connected))
  unfolding is_open
  is_open-outcome fd s = elim (Option-cases (k.file_of s fd)) [
    | inl e ↦ inr (e, ap (as_open k) (laws.getfd_closed fd s e).1)
    | inr (file, e) ↦ inl (file, e, ap (as_open k) (laws.getfd_open fd file s e).1)
  ]
