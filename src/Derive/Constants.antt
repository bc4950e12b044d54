-- ===== src/Derive/Constants.antt =====
-- The constants, tables and conversions that derive_privsep_enum of privsep-derive/src/lib.rs
-- generates.
use privsep_rs.Prelude.{
  ℕ, ◌+◌, ◌≡◌, ◌⊎◌, inl, inr, ap, sym, subst, ◌∙◌, not, Option-cases, Option, none, some, All,
  get_elem?, get-map, get-map-none, ◌==◌, ok, arith,
}
use privsep_rs.Process.{Str, Process}
use privsep_rs.Process.Connect.{wants}
use privsep_rs.Derive.{ConnectMap, idents}
use privsep_rs.Derive.Resolve.{asked}
use privsep_rs.Derive.Generate.{
  disable_privdrop_word, Casing, has_attribute, Item, Entry, Generated, quoted, derive_privsep_enum,
}
use privsep_rs.Derive.Generated.{as_static_str, find_id, try_from}
use privsep_rs.Derive.Entries.{Derivation, derive_privsep_enum-Derivation, AreEntries-get}
use privsep_rs.Derive.Lookup.{
  find_id-AreEntries, find_id-none, find_str-AreEntries, children_of-privdrop, parent_of-privdrop,
  wants-entries,
}

-- A process that the constants name: its id is its index, and the conversions lead to its name.
pub record Declared {T : Type 0} (g : Generated T) (id : ℕ) (p : Process) (ident : Str)
    : Type 0 where
  pub array : get_elem? g.as_array id ≡ some p
  pub ids : get_elem? g.process_ids id ≡ some id
  pub names : get_elem? g.process_names id ≡ some p.name
  pub from_id : try_from g id ≡ some ident
  pub static_str : as_static_str g ident ≡ some p.name
  pub connect : p.connect ≡ not (id == 0)

module _ {T : Type 0} (casing : Casing) (parse : Str → Option T) (order : ConnectMap → ConnectMap)
    (item : Item) where
  Declared-quoted :
      (g : Generated T) (d : Derivation casing parse order item g) (id : ℕ) (e : Entry T)
      → get_elem? d.entries id ≡ some e
      → Declared (quoted d.entries) id (record { name = e.name; connect = not (e.id == 0) }) e.ident
  Declared-quoted g d id e at =
      let children = idents item.variants in
      let here : id ≡ 0 + id = omega arith in
      let (v, _, is_entry) =
        AreEntries-get casing parse order item.attrs d.username d.resolved children 0 item.variants
          d.entries id e d.are_entries at in
      record {
        array =
            get-map (λ (x : Entry T). record { name = x.name; connect = not (x.id == 0) }) d.entries
              id e at;
        ids =
            get-map (λ (x : Entry T). x.id) d.entries id e at
            ∙ ap (λ (n : ℕ). some n) (is_entry.id ∙ omega arith);
        names = get-map (λ (x : Entry T). x.name) d.entries id e at;
        from_id =
            ap (find_id (quoted d.entries).from_id) here
            ∙ find_id-AreEntries casing parse order item.attrs d.username d.resolved children 0 id
                item.variants d.entries e d.are_entries at;
        static_str =
            find_str-AreEntries casing parse order item.attrs d.username d.resolved children 0 id
              item.variants d.entries e d.are_entries at
            ∙ ap (λ (s : Str). some s) (sym (is_entry.name ∙ ap casing.kebab (sym is_entry.ident)));
        connect = ap (λ (n : ℕ). not (n == 0)) (is_entry.id ∙ omega arith);
      }

  module _ (g : Generated T) (derived : derive_privsep_enum casing parse order item ≡ ok g) where
    -- For an enum that is derived: each number either is the id of a process, which the arrays of
    -- processes, ids and names have at that index, that is connected if it is not the first, and that
    -- the conversions from the number to a variant and on to a name lead to; or it is past the last
    -- process, and the conversion fails.
    pub try_from-Declared :
        (id : ℕ)
        → ((p : Process) × (ident : Str) × Declared g id p ident)
          ⊎ ((try_from g id ≡ none) × (get_elem? g.as_array id ≡ none))
    try_from-Declared id =
        let d = derive_privsep_enum-Derivation casing parse order item g derived in
        let here : id ≡ 0 + id = omega arith in
        elim (Option-cases (get_elem? d.entries id)) [
          | inr (e, at) ↦ inl (
            record { name = e.name; connect = not (e.id == 0) },
            e.ident,
            subst
                (λ (x : Generated T).
                  Declared x id (record { name = e.name; connect = not (e.id == 0) }) e.ident)
                d.quotes (Declared-quoted g d id e at),
          )
          | inl past ↦ inr (
            ap (λ (x : Generated T). try_from x id) (sym d.quotes)
                ∙ ap (find_id (quoted d.entries).from_id) here
                ∙ find_id-none casing parse order item.attrs d.username d.resolved
                    (idents item.variants) 0 id item.variants d.entries d.are_entries past,
            ap (λ (x : Generated T). get_elem? x.as_array id) (sym d.quotes)
                ∙ get-map-none
                    (λ (x : Entry T). record { name = x.name; connect = not (x.id == 0) }) d.entries
                    id past,
          )
        ]

    -- For an enum that is derived, where the copy of the map has the entries of the map in whatever
    -- order: the generated table of connections is symmetric, a child is told to connect to another
    -- one just if that one is told to connect to it.
    pub wants-generated :
        (k p : ℕ)
        → ((m : ConnectMap) (a b : Str) → asked (order m) a b ≡ asked m a b)
        → wants g.child_peers k p ≡ wants g.child_peers p k
    wants-generated k p copied =
        let d = derive_privsep_enum-Derivation casing parse order item g derived in
        subst (λ (x : Generated T). wants x.child_peers k p ≡ wants x.child_peers p k) d.quotes
          (wants-entries casing parse order item.attrs d.username d.resolved (idents item.variants)
            item.variants d.entries d.before (order d.before) k p d.are_entries d.named d.collected
            (copied d.before) d.resolution)

    -- For an enum that is derived: the options of the parent and of every child disable the privilege
    -- drop just if the enum has the attribute disable_privdrop, whatever the variants' attributes are.
    pub privdrop-generated :
        All
          (λ (e : Entry T).
            e.options.disable_privdrop ≡ has_attribute item.attrs disable_privdrop_word)
          g.arms
        × (g.options.disable_privdrop ≡ has_attribute item.attrs disable_privdrop_word)
    privdrop-generated =
        let d = derive_privsep_enum-Derivation casing parse order item g derived in
        subst
          (λ (x : Generated T).
            All
              (λ (e : Entry T).
                e.options.disable_privdrop ≡ has_attribute item.attrs disable_privdrop_word)
              x.arms
            × (x.options.disable_privdrop ≡ has_attribute item.attrs disable_privdrop_word))
          d.quotes
          (
            children_of-privdrop casing parse order item.attrs d.username d.resolved
                (idents item.variants) 0 item.variants d.entries d.are_entries,
            parent_of-privdrop casing parse order item.attrs d.username d.resolved
                (idents item.variants) item.variants d.entries d.are_entries d.named,
          )
