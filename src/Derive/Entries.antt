-- ===== src/Derive/Entries.antt =====
-- The loop over the variants in derive_privsep_enum of privsep-derive/src/lib.rs, and the tables that
-- it fills.
use privsep_rs.Prelude.{
  ℕ, zero, suc, ◌+◌, ◌≡◌, inl, inr, refl, ap, sym, subst, ◌∙◌, true, Bool-cases, Option, some, List,
  [], ◌∷◌, ◌++◌, map, get_elem?, ok, err, ◌>>=◌, arith,
}
use mathlib.Core.Path.{ap₂}
use privsep_rs.Process.{Str, Process, enumerate, enumerate_from}
use privsep_rs.Derive.{
  Attribute, missing_parent, Variant, ConnectMap, get, idents, map_entries, child_peers,
  collect_connect, resolve, parse_attribute_value,
}
use privsep_rs.Derive.Resolve.{bind_ok}
use privsep_rs.Derive.Generate.{
  connect_word, main_path_word, username_word, disable_privdrop_word, main_suffix, Casing,
  has_attribute, parse_attribute_type, Item, Entry, Generated, quoted, entry_of, configure_one,
  configure, first_entry, checked, configured, connected, with_username, username_of,
  derive_privsep_enum,
}

module _ {T : Type 0} (casing : Casing) (parse : Str → Option T)
    (order : ConnectMap → ConnectMap) where
  module _ (attrs : List Attribute) (username : Str) (m : ConnectMap) (children : List Str) where
    -- The round for the variant of this index quoted the entry.
    pub record IsEntry (n : ℕ) (v : Variant) (e : Entry T) : Type 0 where
      pub id : e.id ≡ n
      pub ident : e.ident ≡ v.ident
      pub name : e.name ≡ casing.kebab v.ident
      pub connect : e.connect ≡ map_entries casing.kebab (get m v.ident) (enumerate children)
      pub privdrop : e.options.disable_privdrop ≡ has_attribute attrs disable_privdrop_word

    -- Each variant has its entry, in order.
    pub data AreEntries : ℕ → List Variant → List (Entry T) → Type 0 where
      none_left : {n : ℕ} → AreEntries n [] []
      entry :
          {n : ℕ} {v : Variant} {vs : List Variant} {e : Entry T} {es : List (Entry T)}
          → IsEntry n v e
          → AreEntries (suc n) vs es
          → AreEntries n (v ∷ vs) (e ∷ es)

    configure_one-IsEntry :
        (n : ℕ) (v : Variant) (e : Entry T)
        → configure_one casing parse order attrs username m children (n, v) ≡ ok e
        → IsEntry n v e
    configure_one-IsEntry n v e h =
        let (main_path, _, h1) =
          bind_ok
            (parse_attribute_type parse v.attrs main_path_word
              (casing.snake v.ident ++ main_suffix))
            (λ main_path. parse_attribute_value v.attrs username_word >>= λ own.
              ok (entry_of casing parse order attrs username m children (n, v) main_path own))
            e h in
        let (own, _, h2) =
          bind_ok (parse_attribute_value v.attrs username_word)
            (λ own. ok (entry_of casing parse order attrs username m children (n, v) main_path own))
            e h1 in
        let same : entry_of casing parse order attrs username m children (n, v) main_path own ≡ e =
          cc h2 in
        record {
          id = ap (λ (x : Entry T). x.id) (sym same);
          ident = ap (λ (x : Entry T). x.ident) (sym same);
          name = ap (λ (x : Entry T). x.name) (sym same);
          connect = ap (λ (x : Entry T). x.connect) (sym same);
          privdrop = ap (λ (x : Entry T). x.options.disable_privdrop) (sym same) ∙ ground arith;
        }

    pub configure-AreEntries :
        (n : ℕ) (vs : List Variant) (es : List (Entry T))
        → configure casing parse order attrs username m children (enumerate_from n vs) ≡ ok es
        → AreEntries n vs es
    unfolding configure
    configure-AreEntries n [] [] h = none_left
    configure-AreEntries n [] (e ∷ es) h = cc h
    configure-AreEntries n (v ∷ vs) es h =
        let (e, first, h1) =
          bind_ok (configure_one casing parse order attrs username m children (n, v))
            (λ e.
              configure casing parse order attrs username m children (enumerate_from (suc n) vs)
              >>= λ entries. ok (e ∷ entries))
            es h in
        let (entries, later, h2) =
          bind_ok
            (configure casing parse order attrs username m children (enumerate_from (suc n) vs))
            (λ entries. ok (e ∷ entries)) es h1 in
        let same : e ∷ entries ≡ es = cc h2 in
        subst (AreEntries n (v ∷ vs)) same (
          entry (configure_one-IsEntry n v e first) (configure-AreEntries (suc n) vs entries later))

    -- The entry of an index has it as its id.
    pub AreEntries-get :
        (n : ℕ) (vs : List Variant) (es : List (Entry T)) (k : ℕ) (e : Entry T)
        → AreEntries n vs es
        → get_elem? es k ≡ some e
        → (v : Variant) × (get_elem? vs k ≡ some v) × IsEntry (n + k) v e
    AreEntries-get n [] [] k e none_left h = cc h
    AreEntries-get n [] (x ∷ es) k e all h = elim all [ ]
    AreEntries-get n (v ∷ vs) [] k e all h = elim all [ ]
    AreEntries-get n (v ∷ vs) (x ∷ es) zero e (entry first all) h =
        let same : x ≡ e = cc h in
        (
          v,
          refl,
          subst (IsEntry (n + 0) v) same (subst (λ (i : ℕ). IsEntry i v x) (omega arith) first),
        )
    AreEntries-get n (v ∷ vs) (x ∷ es) (suc k) e (entry first all) h =
        let (w, found, is_entry) = AreEntries-get (suc n) vs es k e all h in
        (w, found, subst (λ (i : ℕ). IsEntry i w e) (omega arith) is_entry)

    -- The rows of the table are those of the connections' map.
    pub child_peers-AreEntries :
        (n : ℕ) (vs : List Variant) (es : List (Entry T))
        → AreEntries n vs es
        → map (λ e. e.connect) es ≡ child_peers casing.kebab m children (idents vs)
    unfolding child_peers
    child_peers-AreEntries n [] [] none_left = refl
    child_peers-AreEntries n [] (e ∷ es) all = elim all [ ]
    child_peers-AreEntries n (v ∷ vs) [] all = elim all [ ]
    child_peers-AreEntries n (v ∷ vs) (e ∷ es) (entry first all) =
        ap₂ (λ (x : List Process) (xs : List (List Process)). x ∷ xs) first.connect
          (child_peers-AreEntries (suc n) vs es all)

  -- The steps of a derivation that ends well.
  pub record Derivation (item : Item) (g : Generated T) : Type 0 where
    pub username : Str
    pub before : ConnectMap
    pub resolved : ConnectMap
    pub entries : List (Entry T)
    pub collected : collect_connect connect_word item.variants [] ≡ ok before
    pub resolution : resolve (idents item.variants) (order before) before ≡ ok resolved
    pub are_entries :
        AreEntries item.attrs username resolved (idents item.variants) 0 item.variants entries
    pub named : first_entry casing parse order entries ≡ true
    pub quotes : quoted entries ≡ g

  checked_ok :
      (entries : List (Entry T)) (g : Generated T)
      → checked casing parse order entries ≡ ok g
      → (first_entry casing parse order entries ≡ true) × (quoted entries ≡ g)
  checked_ok entries g h = elim (Bool-cases (first_entry casing parse order entries)) [
    | inl e ↦
        let done : checked casing parse order entries ≡ ok (quoted entries) = rw e refl in
        (e, cc (h, done))
    | inr e ↦
        let refused : checked casing parse order entries ≡ err missing_parent = rw e refl in
        cc (h, refused)
  ]

  pub derive_privsep_enum-Derivation :
      (item : Item) (g : Generated T)
      → derive_privsep_enum casing parse order item ≡ ok g
      → Derivation item g
  unfolding derive_privsep_enum
  derive_privsep_enum-Derivation item g h =
      let (username, _, h1) =
        bind_ok (username_of casing parse order item) (with_username casing parse order item) g h in
      let (before, collected, h2) =
        bind_ok (collect_connect connect_word item.variants [])
          (connected casing parse order item username) g h1 in
      let (resolved, resolution, h3) =
        bind_ok (resolve (idents item.variants) (order before) before)
          (configured casing parse order item username) g h2 in
      let (entries, are_configured, h4) =
        bind_ok
          (configure casing parse order item.attrs username resolved (idents item.variants)
            (enumerate item.variants))
          (checked casing parse order) g h3 in
      let (named, quotes) = checked_ok entries g h4 in
      record {
        username = username;
        before = before;
        resolved = resolved;
        entries = entries;
        collected = collected;
        resolution = resolution;
        are_entries =
            configure-AreEntries item.attrs username resolved (idents item.variants) 0 item.variants
              entries are_configured;
        named = named;
        quotes = quotes;
      }
