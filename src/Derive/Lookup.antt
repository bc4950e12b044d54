-- ===== src/Derive/Lookup.antt =====
-- The tables that derive_privsep_enum of privsep-derive/src/lib.rs fills, entry by entry.
use privsep_rs.Prelude.{
  ℕ, zero, suc, ◌+◌, ◌≡◌, inl, inr, refl, ap, sym, subst, ◌∙◌, true, Bool-cases, Option, none, some,
  List, [], ◌∷◌, map, All, All-append, get_elem?, ◌==◌, ==_iff, ne→==, ok, arith,
}
use privsep_rs.Process.{Str, same_str}
use privsep_rs.Process.Connect.{wants}
use privsep_rs.Derive.{Attribute, Variant, ConnectMap, idents, collect_connect, resolve}
use privsep_rs.Derive.Resolve.{same_str_refl, same_str_eq, asked}
use privsep_rs.Derive.Table.{wants-derive}
use privsep_rs.Derive.Generate.{
  connect_word, disable_privdrop_word, Casing, has_attribute, Entry, children_of, rev, parent_of,
  first_entry,
}
use privsep_rs.Derive.Generated.{find_str, find_id}
use privsep_rs.Derive.Entries.{AreEntries, none_left, entry, child_peers-AreEntries}

module _ {T : Type 0} (casing : Casing) (parse : Str → Option T)
    (order : ConnectMap → ConnectMap) where
  module _ (attrs : List Attribute) (username : Str) (m : ConnectMap) (children : List Str) where
    pub find_id-AreEntries :
        (n k : ℕ) (vs : List Variant) (es : List (Entry T)) (e : Entry T)
        → AreEntries casing parse order attrs username m children n vs es
        → get_elem? es k ≡ some e
        → find_id (map (λ x. (x.id, x.ident)) es) (n + k) ≡ some e.ident
    find_id-AreEntries n k [] [] e none_left h = cc h
    find_id-AreEntries n k [] (x ∷ es) e all h = elim all [ ]
    find_id-AreEntries n k (v ∷ vs) [] e all h = elim all [ ]
    find_id-AreEntries n zero (v ∷ vs) (x ∷ es) e (entry first all) h =
        let same : x ≡ e = cc h in
        rw ((==_iff x.id (n + 0)).1 (first.id ∙ omega arith))
          (ap (λ (y : Entry T). some y.ident) same)
    find_id-AreEntries n (suc k) (v ∷ vs) (x ∷ es) e (entry first all) h =
        let later : find_id (map (λ x. (x.id, x.ident)) es) (n + suc k) ≡ some e.ident =
          ap (find_id (map (λ x. (x.id, x.ident)) es)) (omega arith)
          ∙ find_id-AreEntries (suc n) k vs es e all h in
        rw (ne→== x.id (n + suc k) (omega (arith, first.id))) later

    pub find_id-none :
        (n k : ℕ) (vs : List Variant) (es : List (Entry T))
        → AreEntries casing parse order attrs username m children n vs es
        → get_elem? es k ≡ none
        → find_id (map (λ x. (x.id, x.ident)) es) (n + k) ≡ none
    find_id-none n k [] [] none_left h = refl
    find_id-none n k [] (x ∷ es) all h = elim all [ ]
    find_id-none n k (v ∷ vs) [] all h = elim all [ ]
    find_id-none n zero (v ∷ vs) (x ∷ es) (entry first all) h = cc h
    find_id-none n (suc k) (v ∷ vs) (x ∷ es) (entry first all) h =
        let later : find_id (map (λ x. (x.id, x.ident)) es) (n + suc k) ≡ none =
          ap (find_id (map (λ x. (x.id, x.ident)) es)) (omega arith)
          ∙ find_id-none (suc n) k vs es all h in
        rw (ne→== x.id (n + suc k) (omega (arith, first.id))) later

    pub find_str-AreEntries :
        (n k : ℕ) (vs : List Variant) (es : List (Entry T)) (e : Entry T)
        → AreEntries casing parse order attrs username m children n vs es
        → get_elem? es k ≡ some e
        → find_str (map (λ x. (x.ident, x.name)) es) e.ident ≡ some (casing.kebab e.ident)
    find_str-AreEntries n k [] [] e none_left h = cc h
    find_str-AreEntries n k [] (x ∷ es) e all h = elim all [ ]
    find_str-AreEntries n k (v ∷ vs) [] e all h = elim all [ ]
    find_str-AreEntries n zero (v ∷ vs) (x ∷ es) e (entry first all) h =
        let same : x ≡ e = cc h in
        subst
          (λ (y : Entry T).
            find_str (map (λ z. (z.ident, z.name)) (x ∷ es)) y.ident ≡ some (casing.kebab y.ident))
          same
          (rw (same_str_refl x.ident)
            (ap (λ (s : Str). some s) (first.name ∙ ap casing.kebab (sym first.ident))))
    find_str-AreEntries n (suc k) (v ∷ vs) (x ∷ es) e (entry first all) h =
        elim (Bool-cases (same_str x.ident e.ident)) [
          | inl same ↦ rw same (
              ap (λ (s : Str). some s)
                (first.name ∙ ap casing.kebab (sym first.ident ∙ same_str_eq x.ident e.ident same)))
          | inr other ↦ rw other (find_str-AreEntries (suc n) k vs es e all h)
        ]

    pub children_of-privdrop :
        (n : ℕ) (vs : List Variant) (es : List (Entry T))
        → AreEntries casing parse order attrs username m children n vs es
        → All
            (λ (e : Entry T).
              e.options.disable_privdrop ≡ has_attribute attrs disable_privdrop_word)
            (rev (children_of es))
    children_of-privdrop n [] [] none_left = tt
    children_of-privdrop n [] (x ∷ es) all = elim all [ ]
    children_of-privdrop n (v ∷ vs) [] all = elim all [ ]
    children_of-privdrop n (v ∷ vs) (x ∷ es) (entry first all) = elim (Bool-cases (x.id == 0)) [
      | inl e ↦ rw e (children_of-privdrop (suc n) vs es all)
      | inr e ↦ rw e (
          All-append _ (rev (children_of es)) (x ∷ []) (children_of-privdrop (suc n) vs es all)
            (first.privdrop, tt))
    ]

    pub parent_of-privdrop :
        (vs : List Variant) (es : List (Entry T))
        → AreEntries casing parse order attrs username m children 0 vs es
        → first_entry casing parse order es ≡ true
        → (parent_of es).0.disable_privdrop ≡ has_attribute attrs disable_privdrop_word
    parent_of-privdrop [] [] none_left named = cc
    parent_of-privdrop [] (x ∷ es) all named = elim all [ ]
    parent_of-privdrop (v ∷ vs) [] all named = elim all [ ]
    parent_of-privdrop (v ∷ vs) (x ∷ es) (entry first all) named =
        rw ((==_iff x.id 0).1 first.id) first.privdrop

    pub wants-entries :
        (vs : List Variant) (es : List (Entry T)) (before temp : ConnectMap) (k p : ℕ)
        → AreEntries casing parse order attrs username m (idents vs) 0 vs es
        → first_entry casing parse order es ≡ true
        → collect_connect connect_word vs [] ≡ ok before
        → ((a b : Str) → asked temp a b ≡ asked before a b)
        → resolve (idents vs) temp before ≡ ok m
        → wants (map (λ e. e.connect) es) k p ≡ wants (map (λ e. e.connect) es) p k
    wants-entries [] [] before temp k p none_left named collected copied resolved = cc
    wants-entries [] (x ∷ es) before temp k p all named collected copied resolved = elim all [ ]
    wants-entries (v ∷ vs) es before temp k p all named collected copied resolved =
        rw
          (child_peers-AreEntries casing parse order attrs username m (idents (v ∷ vs)) 0 (v ∷ vs)
            es all)
          (wants-derive casing.kebab connect_word v vs temp before m k p collected copied resolved)
