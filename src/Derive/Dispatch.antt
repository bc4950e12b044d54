-- ===== src/Derive/Dispatch.antt =====
-- The functions that derive_privsep_enum of privsep-derive/src/lib.rs generates.
use privsep_rs.Prelude.{
  ℕ, ◌≡◌, inl, inr, ap, sym, subst, ◌∙◌, true, false, not, Option, some, List, [], ◌∷◌, map,
  get_elem?, get-map, get-map-some, ◌==◌, ok, arith,
}
use privsep_rs.Process.{Str, same_str, Process}
use privsep_rs.Process.Parent
use privsep_rs.Process.Parent.{first_name}
use privsep_rs.Derive.{ConnectMap}
use privsep_rs.Derive.Resolve.{same_str_refl, same_str_eq}
use privsep_rs.Derive.Generate.{
  Casing, Item, ChildOptions, Entry, Generated, children_of, rev, quoted, first_entry,
  derive_privsep_enum,
}
use privsep_rs.Derive.Generated.{start_child, find_arm, main}
use privsep_rs.Derive.Entries.{derive_privsep_enum-Derivation}
use privsep_rs.Derive.Arms.{Found, Missing, find_arm-outcome}

-- No two processes have the same name.
unfoldable pub HasDistinct : List Str → Type 0
HasDistinct names =
    (i j : ℕ) (x : Str) → get_elem? names i ≡ some x → get_elem? names j ≡ some x → i ≡ j

-- `main` with the name of this process starts it, as a child, with its row of the table.
pub record ChildStarts {T : Type 0} (g : Generated T) (k : ℕ) (p : Process) : Type 0 where
  pub connect : List Process
  pub options : ChildOptions
  pub child_main : T
  pub row : get_elem? g.child_peers k ≡ some connect
  pub starts : main g (some p.name) ≡ start_child connect p.name options child_main

module _ {T : Type 0} where
  main-Found :
      (entries : List (Entry T)) (k : ℕ) (p : Process) (e : Entry T)
      → HasDistinct (map (λ e. e.name) entries)
      → get_elem? (map (λ (x : Entry T). x.name) entries) k ≡ some p.name
      → find_arm (rev (children_of entries)) p.name ≡ some e
      → Found entries p.name e
      → ChildStarts (quoted entries) k p
  unfolding HasDistinct main
  main-Found entries k p e distinct at found f =
      let same_name = same_str_eq e.name p.name f.named in
      let here =
        distinct f.index k p.name
          (get-map (λ (x : Entry T). x.name) entries f.index e f.at
            ∙ ap (λ (x : Str). some x) same_name)
          at in
      record {
        connect = e.connect;
        options = e.options;
        child_main = e.main_path;
        row =
            subst
              (λ (i : ℕ). get_elem? (map (λ (x : Entry T). x.connect) entries) i ≡ some e.connect)
              here (get-map (λ (x : Entry T). x.connect) entries f.index e f.at);
        starts =
            rw (main, found)
              (ap (λ (x : Str). start_child e.connect x e.options e.main_path) same_name);
      }

  pub first_name-quoted :
      (casing : Casing) (parse : Str → Option T) (order : ConnectMap → ConnectMap)
      (entries : List (Entry T))
      → first_entry casing parse order entries ≡ true
      → first_name (quoted entries).as_array ≡ true
  first_name-quoted casing parse order [] e = cc e
  first_name-quoted casing parse order (x ∷ entries) e = e

  main-quoted :
      (entries : List (Entry T)) (k : ℕ) (p : Process)
      → HasDistinct (map (λ e. e.name) entries)
      → get_elem? (quoted entries).as_array k ≡ some p
      → p.connect ≡ true
      → ChildStarts (quoted entries) k p
  unfolding Missing
  main-quoted entries k p distinct at connects =
      let (x, found, same) =
        get-map-some (λ (x : Entry T). record { name = x.name; connect = not (x.id == 0) }) entries
          k p at in
      let name : x.name ≡ p.name = ap (λ (q : Process). q.name) same in
      let child : (x.id == 0) ≡ false =
        ground (arith, ap (λ (q : Process). q.connect) same, connects) in
      elim (find_arm-outcome entries p.name) [
        | inl (e, arm, f) ↦
            main-Found entries k p e distinct
              (get-map (λ (x : Entry T). x.name) entries k x found ∙ ap (λ (x : Str). some x) name)
              arm f
        | inr (_, missing) ↦ cc (
          missing k x found child,
          ap (λ (n : Str). same_str n p.name) name,
          same_str_refl p.name,
        )
      ]

module _ {T : Type 0} (casing : Casing) (parse : Str → Option T) (order : ConnectMap → ConnectMap)
    (item : Item) (g : Generated T)
    (derived : derive_privsep_enum casing parse order item ≡ ok g) where
  pub main-ChildStarts :
      (k : ℕ) (p : Process)
      → HasDistinct g.process_names
      → get_elem? g.as_array k ≡ some p
      → p.connect ≡ true
      → ChildStarts g k p
  main-ChildStarts k p distinct at connects =
      let d = derive_privsep_enum-Derivation casing parse order item g derived in
      subst (λ (x : Generated T). ChildStarts x k p) d.quotes
        (main-quoted d.entries k p
          (subst (λ (x : Generated T). HasDistinct x.process_names) (sym d.quotes) distinct)
          (subst (λ (x : Generated T). get_elem? x.as_array k ≡ some p) (sym d.quotes) at) connects)

  pub first_name-as_array : first_name g.as_array ≡ true
  first_name-as_array =
      let d = derive_privsep_enum-Derivation casing parse order item g derived in
      subst (λ (x : Generated T). first_name x.as_array ≡ true) d.quotes
        (first_name-quoted casing parse order d.entries d.named)
