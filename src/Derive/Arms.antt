-- ===== src/Derive/Arms.antt =====
-- The arms of the match in the generated main of privsep-derive/src/lib.rs.
use privsep_rs.Prelude.{
  ℕ, zero, suc, ◌≡◌, ◌⊎◌, inl, inr, refl, subst, true, false, Bool-cases, Option, none, some, List,
  [], ◌∷◌, ◌++◌, get_elem?, ◌==◌,
}
use privsep_rs.Process.{Str, same_str}
use privsep_rs.Derive.Generate.{Entry, children_of, rev}
use privsep_rs.Derive.Generated.{find_arm}

module _ {T : Type 0} where
  or_else : Option (Entry T) → Option (Entry T) → Option (Entry T)
  or_else (some e) other = some e
  or_else none other = other

  find_arm-append :
      (xs ys : List (Entry T)) (name : Str)
      → find_arm (xs ++ ys) name ≡ or_else (find_arm xs name) (find_arm ys name)
  unfolding or_else
  find_arm-append [] ys name = refl
  find_arm-append (x ∷ xs) ys name = elim (Bool-cases (same_str x.name name)) [
    | inl e ↦ rw e refl
    | inr e ↦ rw e (find_arm-append xs ys name)
  ]

  -- An arm that is found: its entry, of a child of that name.
  pub record Found (entries : List (Entry T)) (name : Str) (e : Entry T) : Type 0 where
    pub index : ℕ
    pub at : get_elem? entries index ≡ some e
    pub is_child : (e.id == 0) ≡ false
    pub named : same_str e.name name ≡ true

  unfoldable pub Missing : List (Entry T) → Str → Type 0
  Missing entries name =
      (k : ℕ) (e : Entry T)
      → get_elem? entries k ≡ some e
      → (e.id == 0) ≡ false
      → same_str e.name name ≡ false

  Found-later :
      (x : Entry T) (entries : List (Entry T)) (name : Str) (e : Entry T)
      → Found entries name e
      → Found (x ∷ entries) name e
  Found-later x entries name e f = record {
    index = suc f.index;
    at = f.at;
    is_child = f.is_child;
    named = f.named;
  }

  Missing-parent :
      (x : Entry T) (entries : List (Entry T)) (name : Str)
      → (x.id == 0) ≡ true
      → Missing entries name
      → Missing (x ∷ entries) name
  unfolding Missing
  Missing-parent x entries name parent missing zero e at child =
      let same : x ≡ e = cc at in cc (parent, child, same)
  Missing-parent x entries name parent missing (suc k) e at child = missing k e at child

  Missing-other :
      (x : Entry T) (entries : List (Entry T)) (name : Str)
      → same_str x.name name ≡ false
      → Missing entries name
      → Missing (x ∷ entries) name
  unfolding Missing
  Missing-other x entries name other missing zero e at child =
      let same : x ≡ e = cc at in subst (λ (y : Entry T). same_str y.name name ≡ false) same other
  Missing-other x entries name other missing (suc k) e at child = missing k e at child

  pub find_arm-outcome :
      (entries : List (Entry T)) (name : Str)
      → ((e : Entry T) × (find_arm (rev (children_of entries)) name ≡ some e)
          × Found entries name e)
        ⊎ ((find_arm (rev (children_of entries)) name ≡ none) × Missing entries name)
  unfolding Missing or_else
  find_arm-outcome [] name = inr (refl, λ k e h. cc h)
  find_arm-outcome (x ∷ entries) name = elim (find_arm-outcome entries name) [
    | inl (e, found, f) ↦ elim (Bool-cases (x.id == 0)) [
      | inl parent ↦ inl (e, rw parent found, Found-later x entries name e f)
      | inr child ↦ inl (
        e,
        rw (child, find_arm-append (rev (children_of entries)) (x ∷ []) name, found) refl,
        Found-later x entries name e f,
      )
    ]
    | inr (not_found, missing) ↦ elim (Bool-cases (x.id == 0)) [
      | inl parent ↦ inr (rw parent not_found, Missing-parent x entries name parent missing)
      | inr child ↦ elim (Bool-cases (same_str x.name name)) [
        | inl same ↦ inl (
          x,
          rw (child, find_arm-append (rev (children_of entries)) (x ∷ []) name, not_found, same)
              refl,
          record { index = 0; at = refl; is_child = child; named = same },
        )
        | inr other ↦ inr (
          rw (child, find_arm-append (rev (children_of entries)) (x ∷ []) name, not_found, other)
              refl,
          Missing-other x entries name other missing,
        )
      ]
    ]
  ]
