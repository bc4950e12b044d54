-- ===== src/Simple.antt =====
-- privsep/examples/simple.rs: a parent and two children that send each message back.
pub mod Select
pub mod Child
pub mod Parent
pub mod Turns
pub mod Ends
pub mod ParentEnds
pub mod Kept
pub mod Echo
pub mod Rally
pub mod Connected
pub mod Steps
pub mod Started
pub mod Program
mod Samples
mod Tests
mod ProgramTests
use privsep_rs.Prelude.{ℕ, List, [], ◌∷◌}
use privsep_rs.Process.{Str}

-- "child"
abbrev pub child_word : Str
child_word = 99 ∷ 104 ∷ 105 ∷ 108 ∷ 100 ∷ []

-- "hello"
abbrev pub hello_word : Str
hello_word = 104 ∷ 101 ∷ 108 ∷ 108 ∷ 111 ∷ []

-- "child process"
abbrev pub child_process_text : Str
child_process_text = 99 ∷ 104 ∷ 105 ∷ 108 ∷ 100 ∷ 32 ∷ 112 ∷ 114 ∷ 111 ∷ 99 ∷ 101 ∷ 115 ∷ 115 ∷ []

-- The generated ids.
abbrev pub parent_id : ℕ
parent_id = 0

abbrev pub hello_id : ℕ
hello_id = 1

abbrev pub child_id : ℕ
child_id = 2
