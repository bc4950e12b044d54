-- ===== src/Derive/Generated.antt =====
-- The functions that derive_privsep_enum of privsep-derive/src/lib.rs generates.
use privsep_rs.Prelude.{ℕ, Bool, Option, none, some, List, [], ◌∷◌, ◌==◌, if◌then◌else◌}
use privsep_rs.Process.{Str, same_str, Process}
use privsep_rs.Process.Parent.{first_name}
use privsep_rs.Process.Parent
use privsep_rs.Derive.Generate.{Generated, ChildOptions, Entry, unwrap_or}

-- What the generated `main` starts: Child::new and the child's main function, or Parent::new,
-- Parent::connect and the parent's.
pub data Started (T : Type 0) : Type 0 where
  start_child : List Process → Str → ChildOptions → T → Started T
  start_parent : List Process → ChildOptions → List (List Process) → Option T → Started T

abbrev pub find_str : List (Str × Str) → Str → Option Str
find_str [] ident = none
find_str ((i, name) ∷ table) ident =
    let rest = find_str table ident in if same_str i ident then some name else rest

abbrev pub find_id : List (ℕ × Str) → ℕ → Option Str
find_id [] id = none
find_id ((i, ident) ∷ table) id =
    let rest = find_id table id in if i == id then some ident else rest

module _ {T : Type 0} where
  -- The match on the name, over the arms in order.
  abbrev pub find_arm : List (Entry T) → Str → Option (Entry T)
  find_arm [] name = none
  find_arm (e ∷ arms) name =
      let rest = find_arm arms name in if same_str e.name name then some e else rest

  -- The argument is the first one of the program, if it has one.
  unfoldable pub main : Generated T → Option Str → Started T
  main g argument = elim (find_arm g.arms (unwrap_or [] argument)) [
    | some e ↦ start_child e.connect e.name e.options e.main_path
    | none ↦ start_parent g.as_array g.options g.child_peers g.main_path
  ]

  -- A value of the enum is the identifier of its variant.
  abbrev pub as_static_str : Generated T → Str → Option Str
  as_static_str g ident = find_str g.static_strs ident

  -- `none` is the error "Invalid privsep process ID".
  abbrev pub try_from : Generated T → ℕ → Option Str
  try_from g id = find_id g.from_id id

-- The options that Parent::new is called with, of the runtime's configuration.
abbrev pub options_of : Bool → Option Str → ChildOptions → Parent.Options
options_of foreground log_level options = record {
  disable_privdrop = options.disable_privdrop;
  foreground = foreground;
  log_level = log_level;
}
