-- ===== src/Fd/Tests.antt =====
-- Descriptors of privsep/src/net/fd.rs in a table.
use privsep_rs.Prelude.{ℕ, ◌≡◌, refl, some, [], ◌∷◌}
use privsep_rs.Fd.{duplicate, drop}
use privsep_rs.Fd.Table.{Files, table, table-IsKernel}
use privsep_rs.Fd.Ownership.{duplicate-drop}

-- Standard input alone is open.
abbrev files : Files
files = (0, 7) ∷ []

duplicate-drop_example :
    (table.file_of ((1, 7) ∷ files) 1 ≡ some 7)
    × (table.file_of (drop table 0 ((1, 7) ∷ files)) 1 ≡ some 7)
    × ((x : ℕ) → table.file_of (drop table 1 ((1, 7) ∷ files)) x ≡ table.file_of files x)
unfolding duplicate
duplicate-drop_example =
    duplicate-drop table 0 table-IsKernel 0 7 1 files ((1, 7) ∷ files) refl refl
