-- ===== src/Derive/GenerateTests.antt =====
-- An enum with a parent and two children, of which the first asks for the second, through
-- derive_privsep_enum of privsep-derive/src/lib.rs.
use privsep_rs.Prelude.{
  ℕ, zero, suc, arith, ◌≡◌, ◌⊎◌, refl, Bool, true, false, none, some, List, [], ◌∷◌, ◌++◌, All,
  get_elem?, ok, ◌==◌, if◌then◌else◌,
}
use privsep_rs.Imsg.{from_stream}
use privsep_rs.Process.{Str, Process}
use privsep_rs.Process.Connect.{wants}
use privsep_rs.Process.Parent
use privsep_rs.Process.Parent.{in_parent, in_child, parent_name}
use privsep_rs.Derive.{
  string_value, list, ident, collect_connect, parse_attribute_value, parse_attribute_ident, resolve,
  resolve_entries,
}
use privsep_rs.Derive.Generate.{
  connect_word, username_word, disable_privdrop_word, Casing, has_attribute, Item, Entry, Generated,
  quoted, main_suffix, id_suffix, configure, derive_privsep_enum,
}
use privsep_rs.Derive.Generated.{try_from}
use privsep_rs.Derive.Dispatch.{HasDistinct}
use privsep_rs.Derive.Display.{fmt, IsStarted, main-fmt}
use privsep_rs.Derive.Constants.{Declared, try_from-Declared, wants-generated, privdrop-generated}

abbrev pub casing : Casing
casing = record { kebab = λ s. s; snake = λ s. s; upper_snake = λ s. s }

abbrev name_a : Str
name_a = 97 ∷ []

abbrev name_b : Str
name_b = 98 ∷ []

-- `a` asks for `b` and would drop no privileges, `b` has its own user.
abbrev pub item : Item
item = record {
  attrs = record { path = username_word; meta = some (string_value (117 ∷ [])) } ∷ [];
  variants =
      record { ident = parent_name; attrs = [] }
      ∷ record {
        ident = name_a;
        attrs =
            record { path = connect_word; meta = some (list (ident name_b ∷ [])) }
            ∷ record { path = disable_privdrop_word; meta = none }
            ∷ [];
      }
      ∷ record {
        ident = name_b;
        attrs = record { path = username_word; meta = some (string_value (119 ∷ [])) } ∷ [];
      }
      ∷ [];
}

abbrev pub sample_row : Bool → Bool → List Process
sample_row a b =
    record { name = parent_name; connect = true }
    ∷ record { name = name_a; connect = a }
    ∷ record { name = name_b; connect = b }
    ∷ []

abbrev sample_entry : ℕ → Str → Str → List Process → Entry Str
sample_entry id name username connect = record {
  id = id;
  ident = name;
  name = name;
  id_name = name ++ id_suffix;
  main_path = name ++ main_suffix;
  options = record { disable_privdrop = false; username = username };
  connect = connect;
}

abbrev pub generated : Generated Str
generated = quoted (
    sample_entry 0 parent_name (117 ∷ []) (sample_row false false)
    ∷ sample_entry 1 name_a (117 ∷ []) (sample_row false true)
    ∷ sample_entry 2 name_b (119 ∷ []) (sample_row true false)
    ∷ [])

pub derives : derive_privsep_enum casing some (λ m. m) item ≡ ok generated
unfolding derive_privsep_enum collect_connect parse_attribute_value parse_attribute_ident resolve
    resolve_entries configure
derives = refl

generated-HasDistinct : HasDistinct generated.process_names
unfolding HasDistinct
generated-HasDistinct zero zero x e f = refl
generated-HasDistinct zero (suc zero) x e f = cc (e, f)
generated-HasDistinct zero (suc (suc zero)) x e f = cc (e, f)
generated-HasDistinct (suc zero) zero x e f = cc (e, f)
generated-HasDistinct (suc zero) (suc zero) x e f = refl
generated-HasDistinct (suc zero) (suc (suc zero)) x e f = ground (arith, e, f)
generated-HasDistinct (suc (suc zero)) zero x e f = cc (e, f)
generated-HasDistinct (suc (suc zero)) (suc zero) x e f = ground (arith, e, f)
generated-HasDistinct (suc (suc zero)) (suc (suc zero)) x e f = refl
generated-HasDistinct (suc (suc (suc i))) j x e f = cc e
generated-HasDistinct i (suc (suc (suc j))) x e f = cc f

abbrev host : Parent.System
host = record {
  is_root = true;
  current_exe = ok (120 ∷ []);
  pair = λ n. ok (from_stream n);
  fork = λ n. if n == 2 then ok (in_child (ok tt)) else ok (in_parent 100);
  sigpipe = ok tt;
  this = 99;
  rust_log = none;
}

try_from-Declared_run :
    ((p : Process) × (ident : Str) × Declared generated 2 p ident)
    ⊎ ((try_from generated 2 ≡ none) × (get_elem? generated.as_array 2 ≡ none))
try_from-Declared_run = try_from-Declared casing some (λ m. m) item generated derives 2

main-fmt_example :
    ((p : Process) × (ident : Str) × (get_elem? generated.as_array 2 ≡ some p)
      × (try_from generated 2 ≡ some ident)
      × (fmt generated ident [] ≡ some p.name)
      × IsStarted generated 2 p)
    ⊎ ((try_from generated 2 ≡ none) × (get_elem? generated.as_array 2 ≡ none))
main-fmt_example = main-fmt casing some (λ m. m) item generated derives 2 generated-HasDistinct

wants-generated_example : wants generated.child_peers 2 1 ≡ wants generated.child_peers 1 2
wants-generated_example =
    wants-generated casing some (λ m. m) item generated derives 2 1 (λ m a b. refl)

privdrop-generated_example :
    All
      (λ (e : Entry Str).
        e.options.disable_privdrop ≡ has_attribute item.attrs disable_privdrop_word)
      generated.arms
    × (generated.options.disable_privdrop ≡ has_attribute item.attrs disable_privdrop_word)
privdrop-generated_example = privdrop-generated casing some (λ m. m) item generated derives
