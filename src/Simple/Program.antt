-- ===== src/Simple/Program.antt =====
-- The enum and main of privsep/examples/simple.rs.
use privsep_rs.Prelude.{ℕ, some, [], ◌∷◌, ◌++◌, Result, ok, err}
use privsep_rs.Stream.{IoError}
use privsep_rs.Process.{Str}
use privsep_rs.Derive.{string_value, list, ident}
use privsep_rs.Derive.Generate.{connect_word, username_word, Item}
use privsep_rs.Error.{Error, display}

-- "nobody"
abbrev pub nobody_word : Str
nobody_word = 110 ∷ 111 ∷ 98 ∷ 111 ∷ 100 ∷ 121 ∷ []

-- "Parent"
abbrev pub parent_ident : Str
parent_ident = 80 ∷ 97 ∷ 114 ∷ 101 ∷ 110 ∷ 116 ∷ []

-- "Hello"
abbrev pub hello_ident : Str
hello_ident = 72 ∷ 101 ∷ 108 ∷ 108 ∷ 111 ∷ []

-- "Child"
abbrev pub child_ident : Str
child_ident = 67 ∷ 104 ∷ 105 ∷ 108 ∷ 100 ∷ []

-- The enum, without its documentation.
abbrev pub privsep : Item
privsep = record {
  attrs = record { path = username_word; meta = some (string_value nobody_word) } ∷ [];
  variants =
      record { ident = parent_ident; attrs = [] }
      ∷ record { ident = hello_ident; attrs = [] }
      ∷ record {
        ident = child_ident;
        attrs = record { path = connect_word; meta = some (list (ident hello_ident ∷ [])) } ∷ [];
      }
      ∷ [];
}

-- "Error: "
abbrev error_text : Str
error_text = 69 ∷ 114 ∷ 114 ∷ 111 ∷ 114 ∷ 58 ∷ 32 ∷ []

-- What main prints to the standard error, for the result of Privsep::main.
unfoldable pub report : (IoError → Str) → (ℕ → Str) → (Str → Str) → Result Error (Unit {0}) → Str
unfolding display
report show_io show_errno debug (err e) =
    error_text ++ (display show_io show_errno debug e ++ (10 ∷ []))
report show_io show_errno debug (ok _) = []
