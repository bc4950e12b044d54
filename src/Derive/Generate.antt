-- ===== src/Derive/Generate.antt =====
-- derive_privsep_enum of privsep-derive/src/lib.rs: what is generated for an enum, and the generated
-- functions.
use privsep_rs.Prelude.{
  ℕ, Bool, true, false, not, ◌||◌, Option, none, some, List, [], ◌∷◌, ◌++◌, map, ◌==◌,
  if◌then◌else◌, Result, ok, err, ◌>>=◌,
}
use privsep_rs.Process.{Str, same_str, Process, enumerate}
use privsep_rs.Process.Parent.{first_name}
use privsep_rs.Process.Parent
use privsep_rs.Derive.{
  Attribute, DeriveError, bad_syntax, missing_username, missing_parent, parse_attribute_value,
  Variant, ConnectMap, get, idents, map_entries, collect_connect, resolve,
}

-- "connect"
abbrev pub connect_word : Str
connect_word = 99 ∷ 111 ∷ 110 ∷ 110 ∷ 101 ∷ 99 ∷ 116 ∷ []

-- "main_path"
abbrev pub main_path_word : Str
main_path_word = 109 ∷ 97 ∷ 105 ∷ 110 ∷ 95 ∷ 112 ∷ 97 ∷ 116 ∷ 104 ∷ []

-- "username"
abbrev pub username_word : Str
username_word = 117 ∷ 115 ∷ 101 ∷ 114 ∷ 110 ∷ 97 ∷ 109 ∷ 101 ∷ []

-- "disable_privdrop"
abbrev pub disable_privdrop_word : Str
disable_privdrop_word =
    100 ∷ 105 ∷ 115 ∷ 97 ∷ 98 ∷ 108 ∷ 101 ∷ 95 ∷ 112 ∷ 114 ∷ 105 ∷ 118 ∷ 100 ∷ 114 ∷ 111 ∷ 112 ∷ []

-- "::main"
abbrev pub main_suffix : Str
main_suffix = 58 ∷ 58 ∷ 109 ∷ 97 ∷ 105 ∷ 110 ∷ []

-- "_ID"
abbrev pub id_suffix : Str
id_suffix = 95 ∷ 73 ∷ 68 ∷ []

-- convert_case's conversions of an identifier.
pub record Casing : Type 0 where
  pub kebab : Str → Str
  pub snake : Str → Str
  pub upper_snake : Str → Str

-- attrs.iter().any(|a| a.path.is_ident(name))
abbrev pub has_attribute : List Attribute → Str → Bool
has_attribute [] name = false
has_attribute (a ∷ attrs) name = same_str a.path name || has_attribute attrs name

abbrev pub unwrap_or : Str → Option Str → Str
unwrap_or default none = default
unwrap_or default (some text) = text

-- LitStr::parse, of which `none` is the error.
abbrev pub parsed : {T : Type 0} → Option T → Result DeriveError T
parsed none = err bad_syntax
parsed (some x) = ok x

abbrev pub parse_attribute_type :
    {T : Type 0} → (Str → Option T) → List Attribute → Str → Str → Result DeriveError T
parse_attribute_type parse attrs name default =
    parse_attribute_value attrs name >>= λ text. parsed (parse (unwrap_or default text))

-- The literals of an Options value; its `config` is the argument of the generated `main`.
pub record ChildOptions : Type 0 where
  pub disable_privdrop : Bool
  pub username : Str

pub record Item : Type 0 where
  pub attrs : List Attribute
  pub variants : List Variant

-- What one round of the loop over the variants quotes.
pub record Entry (T : Type 0) : Type 0 where
  pub id : ℕ
  pub ident : Str
  pub name : Str
  pub id_name : Str
  pub main_path : T
  pub options : ChildOptions
  pub connect : List Process

-- The username of the enum.
abbrev pub default_username : Bool → Option Str → Result DeriveError Str
default_username disable_privdrop (some text) = ok text
default_username true none = ok []
default_username false none = err missing_username

-- The generated impl: its constants, and the tables that its functions match on.
pub record Generated (T : Type 0) : Type 0 where
  pub const_ids : List (Str × ℕ)
  pub process_ids : List ℕ
  pub process_names : List Str
  pub as_array : List Process
  pub arms : List (Entry T)
  pub options : ChildOptions
  pub main_path : Option T
  pub child_peers : List (List Process)
  pub static_strs : List (Str × Str)
  pub from_id : List (ℕ × Str)

abbrev is_child : {T : Type 0} → Entry T → Bool
is_child e = not (e.id == 0)

-- child_main, before it is reversed
abbrev pub children_of : {T : Type 0} → List (Entry T) → List (Entry T)
children_of [] = []
children_of (e ∷ entries) = if e.id == 0 then children_of entries else e ∷ children_of entries

abbrev pub rev : {A : Type 0} → List A → List A
rev [] = []
rev (x ∷ xs) = rev xs ++ (x ∷ [])

-- The options and the main function of the parent; `none` is unimplemented!().
abbrev pub parent_of : {T : Type 0} → List (Entry T) → ChildOptions × Option T
parent_of [] = (record { disable_privdrop = false; username = [] }, none)
parent_of (e ∷ entries) =
    let rest = parent_of entries in if e.id == 0 then (e.options, some e.main_path) else rest

abbrev pub quoted : {T : Type 0} → List (Entry T) → Generated T
quoted entries = record {
  const_ids = map (λ e. (e.id_name, e.id)) entries;
  process_ids = map (λ e. e.id) entries;
  process_names = map (λ e. e.name) entries;
  as_array = map (λ e. record { name = e.name; connect = is_child e }) entries;
  arms = rev (children_of entries);
  options = (parent_of entries).0;
  main_path = (parent_of entries).1;
  child_peers = map (λ e. e.connect) entries;
  static_strs = map (λ e. (e.ident, e.name)) entries;
  from_id = map (λ e. (e.id, e.ident)) entries;
}

-- `order` is the order in which the copy of the map is gone through; `parse` reads a path.
module _ {T : Type 0} (casing : Casing) (parse : Str → Option T)
    (order : ConnectMap → ConnectMap) where
  module _ (attrs : List Attribute) (username : Str) (m : ConnectMap) (children : List Str) where
    abbrev pub entry_of : ℕ × Variant → T → Option Str → Entry T
    entry_of (id, variant) main_path own = record {
      id = id;
      ident = variant.ident;
      name = casing.kebab variant.ident;
      id_name = casing.upper_snake variant.ident ++ id_suffix;
      main_path = main_path;
      options = record {
        disable_privdrop =
            has_attribute attrs disable_privdrop_word || has_attribute attrs disable_privdrop_word;
        username = unwrap_or username own;
      };
      connect = map_entries casing.kebab (get m variant.ident) (enumerate children);
    }

    abbrev pub configure_one : ℕ × Variant → Result DeriveError (Entry T)
    configure_one (id, variant) =
        parse_attribute_type parse variant.attrs main_path_word
          (casing.snake variant.ident ++ main_suffix)
        >>= λ main_path. parse_attribute_value variant.attrs username_word >>= λ own.
            ok (entry_of (id, variant) main_path own)

    -- The loop over the variants.
    unfoldable pub configure : List (ℕ × Variant) → Result DeriveError (List (Entry T))
    configure [] = ok []
    configure (v ∷ variants) =
        configure_one v >>= λ e. configure variants >>= λ entries. ok (e ∷ entries)

  abbrev pub first_entry : List (Entry T) → Bool
  first_entry [] = false
  first_entry (e ∷ entries) = same_str e.name Parent.parent_name

  abbrev pub checked : List (Entry T) → Result DeriveError (Generated T)
  checked entries = if first_entry entries then ok (quoted entries) else err missing_parent

  -- With the username and the resolved connections.
  abbrev pub configured : Item → Str → ConnectMap → Result DeriveError (Generated T)
  configured item username m =
      configure item.attrs username m (idents item.variants) (enumerate item.variants) >>= checked

  -- With the username and the connections.
  abbrev pub connected : Item → Str → ConnectMap → Result DeriveError (Generated T)
  connected item username m =
      resolve (idents item.variants) (order m) m >>= configured item username

  abbrev pub with_username : Item → Str → Result DeriveError (Generated T)
  with_username item username =
      collect_connect connect_word item.variants [] >>= connected item username

  abbrev pub username_of : Item → Result DeriveError Str
  username_of item =
      parse_attribute_value item.attrs username_word
      >>= default_username (has_attribute item.attrs disable_privdrop_word)

  unfoldable pub derive_privsep_enum : Item → Result DeriveError (Generated T)
  derive_privsep_enum item = username_of item >>= with_username item
