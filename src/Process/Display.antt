-- ===== src/Process/Display.antt =====
-- The Display instances of Parent and Child of privsep/src/process.rs.
use privsep_rs.Prelude.{ℕ, [], ◌∷◌, ◌++◌}
use privsep_rs.Process.{Str}
use privsep_rs.Process.Parent.{parent_name}

-- `show_pid` is the Display instance of nix's Pid.
module _ (show_pid : ℕ → Str) where
  -- "{}({})"
  abbrev pub display : Str → ℕ → Str
  display name pid = name ++ (40 ∷ (show_pid pid ++ (41 ∷ [])))

  abbrev pub display_parent : ℕ → Str
  display_parent pid = display parent_name pid

  abbrev pub display_child : Str → ℕ → Str
  display_child name pid = display name pid
