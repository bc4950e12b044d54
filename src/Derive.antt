-- ===== src/Derive.antt =====
-- privsep-derive/src/lib.rs: the attributes of the enum and the connections between its variants.
pub mod Resolve
pub mod Table
pub mod Generate
pub mod Generated
pub mod Entries
pub mod Arms
pub mod Dispatch
pub mod Lookup
pub mod Constants
pub mod Display
pub mod Startup
mod GenerateTests
mod StartupTests
mod Tests
use privsep_rs.Prelude.{
  ℕ, zero, suc, ◌≡◌, ◌↔◌, refl, ap, Bool, true, false, not, ◌&&◌, ◌||◌, Option, none, some, List,
  [], ◌∷◌, ◌++◌, ◌==◌, if◌then◌else◌, Result, ok, err, ◌>>=◌,
}
use privsep_rs.Process.{Str, same_str, Process, enumerate}

abbrev pub mem_str : Str → List Str → Bool
mem_str x [] = false
mem_str x (y ∷ ys) = same_str x y || mem_str x ys

-- syn::NestedMeta: a path of one identifier, or anything else.
pub data Nested : Type 0 where
  ident : Str → Nested
  other_nested : Nested

-- syn::Meta: a name with a string, a list, or anything else.
pub data Meta : Type 0 where
  string_value : Str → Meta
  list : List Nested → Meta
  other_meta : Meta

-- syn::Attribute; `meta` is the answer of parse_meta, `none` its error.
pub record Attribute : Type 0 where
  pub path : Str
  pub meta : Option Meta

-- The errors that the macro reports.
pub data DeriveError : Type 0 where
  bad_meta : DeriveError
  invalid_attribute : Str → DeriveError
  missing_username : DeriveError
  unknown_process : Str → DeriveError
  missing_parent : DeriveError
  bad_syntax : DeriveError

-- attrs.iter().find(|attr| attr.path.is_ident(name))
abbrev pub find_attribute : List Attribute → Str → Option Attribute
find_attribute [] name = none
find_attribute (a ∷ attrs) name =
    let rest = find_attribute attrs name in if same_str a.path name then some a else rest

abbrev pub string_of : Str → Option Meta → Result DeriveError (Option Str)
string_of name none = err bad_meta
string_of name (some (string_value lit)) = ok (some lit)
string_of name (some _) = err (invalid_attribute name)

abbrev pub idents_of : List Nested → List Str
idents_of [] = []
idents_of (ident i ∷ nested) = i ∷ idents_of nested
idents_of (other_nested ∷ nested) = idents_of nested

abbrev pub list_of : Str → Option Meta → Result DeriveError (List Str)
list_of name none = err bad_meta
list_of name (some (list nested)) = ok (idents_of nested)
list_of name (some _) = err (invalid_attribute name)

unfoldable pub parse_attribute_value : List Attribute → Str → Result DeriveError (Option Str)
parse_attribute_value attrs name = elim (find_attribute attrs name) [
  | none ↦ ok none
  | some attr ↦ string_of name attr.meta
]

unfoldable pub parse_attribute_ident : List Attribute → Str → Result DeriveError (List Str)
parse_attribute_ident attrs name = elim (find_attribute attrs name) [
  | none ↦ ok []
  | some attr ↦ list_of name attr.meta
]

pub record Variant : Type 0 where
  pub ident : Str
  pub attrs : List Attribute

abbrev pub idents : List Variant → List Str
idents [] = []
idents (v ∷ variants) = v.ident ∷ idents variants

-- HashMap<Ident, HashSet<Ident>>, in one of its orders
abbrev pub ConnectMap : Type 0
ConnectMap = List (Str × List Str)

-- connect_map.get(key), with the empty set for none
abbrev pub get : ConnectMap → Str → List Str
get [] key = []
get ((k, v) ∷ m) key = if same_str k key then v else get m key

abbrev pub has_key : ConnectMap → Str → Bool
has_key [] key = false
has_key ((k, v) ∷ m) key = same_str k key || has_key m key

-- connect_map.insert(key, value)
abbrev pub insert : Str → List Str → ConnectMap → ConnectMap
insert key value [] = (key, value) ∷ []
insert key value ((k, v) ∷ m) =
    let rest = insert key value m in if same_str k key then (k, value) ∷ m else (k, v) ∷ rest

-- if let Some(other) = connect_map.get_mut(entry) { other.insert(key) }
abbrev pub add_to : Str → Str → ConnectMap → ConnectMap
add_to entry key [] = []
add_to entry key ((k, v) ∷ m) =
    let rest = add_to entry key m in if same_str k entry then (k, key ∷ v) ∷ m else (k, v) ∷ rest

-- The inner loop, over the entries of one process.
unfoldable pub resolve_entries :
    List Str → Str → List Str → ConnectMap → Result DeriveError ConnectMap
resolve_entries children key [] m = ok m
resolve_entries children key (entry ∷ entries) m =
    let rest = resolve_entries children key entries (add_to entry key m) in
    if mem_str entry children then rest else err (unknown_process entry)

-- The outer loop, over the copy of the map.
unfoldable pub resolve : List Str → ConnectMap → ConnectMap → Result DeriveError ConnectMap
unfolding resolve_entries
resolve children [] m = ok m
resolve children ((key, entries) ∷ temp) m =
    resolve_entries children key entries m >>= resolve children temp

-- The first loop over the variants: the identifiers, and the map before it is resolved.
unfoldable pub collect_connect : Str → List Variant → ConnectMap → Result DeriveError ConnectMap
collect_connect connect [] m = ok m
collect_connect connect (v ∷ variants) m = parse_attribute_ident v.attrs connect >>= λ entries.
    collect_connect connect variants (insert v.ident entries m)

-- The entry of `child_connect` for one variant; `kebab` is to_case(Case::Kebab).
abbrev pub connect_entry : (Str → Str) → List Str → ℕ × Str → Process
connect_entry kebab connect (id, child) = record {
  name = kebab child;
  connect = (id == 0) || mem_str child connect;
}

abbrev pub map_entries : (Str → Str) → List Str → List (ℕ × Str) → List Process
map_entries kebab connect [] = []
map_entries kebab connect (c ∷ children) =
    connect_entry kebab connect c ∷ map_entries kebab connect children

-- The array that Parent::connect and, row by row, Child::new are called with.
unfoldable pub child_peers : (Str → Str) → ConnectMap → List Str → List Str → List (List Process)
child_peers kebab m children [] = []
child_peers kebab m children (c ∷ rest) =
    map_entries kebab (get m c) (enumerate children) ∷ child_peers kebab m children rest
