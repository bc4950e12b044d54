-- ===== src/Derive/Display.antt =====
-- The generated AsRef and Display of privsep-derive/src/lib.rs, and the generated main together with
-- the conversions.
use privsep_rs.Prelude.{
  refl, [], ℕ, ◌≡◌, ◌≢◌, ◌⊎◌, inl, inr, ap, sym, subst, ◌∙◌, not, Option, none, some, List, ◌++◌,
  map, get_elem?, get-map, ==_iff, ne→==, ok,
}
use privsep_rs.Process.{Str, Process}
use privsep_rs.Fd.Ownership.{same_or_not}
use privsep_rs.Derive.{ConnectMap}
use privsep_rs.Derive.Resolve.{same_str_eq}
use privsep_rs.Derive.Generate.{Casing, Item, Entry, Generated, quoted, derive_privsep_enum}
use privsep_rs.Derive.Generated.{start_parent, main, as_static_str, try_from}
use privsep_rs.Derive.Entries.{derive_privsep_enum-Derivation}
use privsep_rs.Derive.Arms.{find_arm-outcome}
use privsep_rs.Derive.Dispatch.{HasDistinct, ChildStarts, main-ChildStarts}
use privsep_rs.Derive.Constants.{Declared, try_from-Declared}

abbrev pub written : Str → Option Str → Option Str
written out none = none
written out (some text) = some (out ++ text)

module _ {T : Type 0} where
  abbrev pub as_ref : Generated T → Str → Option Str
  as_ref g ident = as_static_str g ident

  -- The text is written behind what the formatter has.
  abbrev pub fmt : Generated T → Str → Str → Option Str
  fmt g ident out = written out (as_ref g ident)

  -- `main` with the name of this process starts it: the first as the parent, any other as a child.
  pub data IsStarted (g : Generated T) (id : ℕ) (p : Process) : Type 0 where
    as_parent :
        id ≡ 0
        → main g (some p.name) ≡ start_parent g.as_array g.options g.child_peers g.main_path
        → IsStarted g id p
    as_child : id ≢ 0 → ChildStarts g id p → IsStarted g id p

  -- No child has the name of the first process.
  main-quoted_first :
      (entries : List (Entry T)) (name : Str)
      → HasDistinct (map (λ (e : Entry T). e.name) entries)
      → get_elem? (map (λ (e : Entry T). e.name) entries) 0 ≡ some name
      → get_elem? (map (λ (e : Entry T). e.id) entries) 0 ≡ some 0
      → main (quoted entries) (some name)
        ≡ start_parent
            (quoted entries).as_array
            (quoted entries).options
            (quoted entries).child_peers
            (quoted entries).main_path
  unfolding main HasDistinct
  main-quoted_first entries name distinct named first = elim (find_arm-outcome entries name) [
    | inr (not_found, _) ↦ rw (main, not_found) refl
    | inl (e, found, f) ↦
        let here : f.index ≡ 0 =
          distinct f.index 0 name
            (get-map (λ (x : Entry T). x.name) entries f.index e f.at
              ∙ ap (λ (x : Str). some x) (same_str_eq e.name name f.named))
            named in
        let id_of : get_elem? (map (λ (x : Entry T). x.id) entries) 0 ≡ some e.id =
          subst (λ (i : ℕ). get_elem? (map (λ (x : Entry T). x.id) entries) i ≡ some e.id) here
            (get-map (λ (x : Entry T). x.id) entries f.index e f.at) in
        let zero_id : e.id ≡ 0 = cc (id_of, first) in cc (f.is_child, (==_iff e.id 0).1 zero_id)
  ]

module _ {T : Type 0} (casing : Casing) (parse : Str → Option T) (order : ConnectMap → ConnectMap)
    (item : Item) (g : Generated T)
    (derived : derive_privsep_enum casing parse order item ≡ ok g) where
  main-first :
      (p : Process) (ident : Str)
      → HasDistinct g.process_names
      → Declared g 0 p ident
      → main g (some p.name) ≡ start_parent g.as_array g.options g.child_peers g.main_path
  main-first p ident distinct declared =
      let d = derive_privsep_enum-Derivation casing parse order item g derived in
      subst
        (λ (x : Generated T).
          main x (some p.name) ≡ start_parent x.as_array x.options x.child_peers x.main_path)
        d.quotes
        (main-quoted_first d.entries p.name
          (subst (λ (x : Generated T). HasDistinct x.process_names) (sym d.quotes) distinct)
          (subst (λ (x : Generated T). get_elem? x.process_names 0 ≡ some p.name) (sym d.quotes)
            declared.names)
          (subst (λ (x : Generated T). get_elem? x.process_ids 0 ≡ some 0) (sym d.quotes)
            declared.ids))

  Declared-IsStarted :
      (id : ℕ) (p : Process) (ident : Str)
      → HasDistinct g.process_names
      → Declared g id p ident
      → IsStarted g id p
  Declared-IsStarted id p ident distinct declared = elim (same_or_not id 0) [
    | inl same ↦
        as_parent same
          (main-first p ident distinct (subst (λ (i : ℕ). Declared g i p ident) same declared))
    | inr other ↦ as_child other (
        main-ChildStarts casing parse order item g derived id p distinct declared.array
          (declared.connect ∙ ap not (ne→== id 0 other)))
  ]

  -- For an enum that is derived, whose processes have different names: each number either is the id of
  -- a process, at that index of the array, and converts to a variant that is displayed as the name of
  -- the process, with which as its first argument the generated `main` starts that process, the first
  -- as the parent with the generated tables, any other as a child with its row of the table; or it is
  -- past the last process, and the conversion fails.
  pub main-fmt :
      (id : ℕ)
      → HasDistinct g.process_names
      → ((p : Process) × (ident : Str) × (get_elem? g.as_array id ≡ some p)
          × (try_from g id ≡ some ident)
          × (fmt g ident [] ≡ some p.name)
          × IsStarted g id p)
        ⊎ ((try_from g id ≡ none) × (get_elem? g.as_array id ≡ none))
  main-fmt id distinct = elim (try_from-Declared casing parse order item g derived id) [
    | inr past ↦ inr past
    | inl (p, ident, declared) ↦ inl (
      p,
      ident,
      declared.array,
      declared.from_id,
      ap (written []) declared.static_str,
      Declared-IsStarted id p ident distinct declared,
    )
  ]
