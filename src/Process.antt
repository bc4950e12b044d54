-- ===== src/Process.antt =====
-- privsep/src/process.rs: the processes, their connections and the start of a child.
pub mod Connect
pub mod Sets
pub mod Handshake
pub mod Inbox
pub mod Startup
pub mod Parent
pub mod Forks
pub mod Privdrop
pub mod UserLast
pub mod Shutdown
pub mod Introduced
pub mod Child
pub mod ChildOrder
pub mod Session
pub mod Daemon
pub mod Display
pub mod Inherit
pub mod Samples
mod Tests
mod StartTests
mod ChildTests
mod SessionTests
use privsep_rs.Prelude.{
  ℕ, zero, suc, ◌+◌, ◌^◌, Bool, true, false, not, ◌&&◌, ◌||◌, Option, none, some, List, [], ◌∷◌,
  ◌++◌, length, get_elem?, set, drop, ltb, ◌==◌, if◌then◌else◌, Result, ok, err,
}
use privsep_rs.Stream.{IoError}
use privsep_rs.Imsg.{Handler}

-- The text of a name, as its bytes.
abbrev pub Str : Type 0
Str = List ℕ

abbrev pub same_str : Str → Str → Bool
same_str [] [] = true
same_str [] (y ∷ ys) = false
same_str (x ∷ xs) [] = false
same_str (x ∷ xs) (y ∷ ys) = (x == y) && same_str xs ys

-- Child process startup definition.
pub record Process : Type 0 where
  pub name : Str
  pub connect : Bool

-- A child process from the point of view of another process.
pub record Peer : Type 0 where
  pub name : Str
  pub handler : Option Handler
  pub pid : ℕ

-- Peer::default with a name; Pid::parent() is `parent_pid`.
abbrev pub unconnected : ℕ → Str → Peer
unconnected parent_pid name = record { name = name; handler = none; pid = parent_pid }

-- `iter().enumerate()` from a start
abbrev pub enumerate_from {ℓ} : {A : Type ℓ} → ℕ → List A → List (ℕ × A)
enumerate_from n [] = []
enumerate_from n (x ∷ xs) = (n, x) ∷ enumerate_from (suc n) xs

abbrev pub enumerate {ℓ} : {A : Type ℓ} → List A → List (ℕ × A)
enumerate xs = enumerate_from 0 xs
