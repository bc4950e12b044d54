-- ===== src/Derive/Startup.antt =====
-- The program that privsep-derive/src/lib.rs generates, with Parent::connect and Child::new of
-- privsep/src/process.rs.
use privsep_rs.Prelude.{ℕ, ◌≤◌, ◌≡◌, false, Option, some, List, ok, get_elem?}
use privsep_rs.Imsg.Recv.{Output}
use privsep_rs.Process.{Str, Process, Peer}
use privsep_rs.Process.Connect.{PairAnswer, done, connect, wants}
use privsep_rs.Process.Handshake.{
  System, wait_connections, Introduction, peer_ids, results_of, introduce, handshake, connected,
}
use privsep_rs.Process.Startup.{IsRun, handshake-connect}
use privsep_rs.Process.Inbox.{inbox}
use privsep_rs.Derive.{ConnectMap}
use privsep_rs.Derive.Resolve.{asked}
use privsep_rs.Derive.Generate.{Casing, Item, Generated, derive_privsep_enum}
use privsep_rs.Derive.Constants.{wants-generated}

module _ {T : Type 0} (casing : Casing) (parse : Str → Option T) (order : ConnectMap → ConnectMap)
    (item : Item) (g : Generated T) (derived : derive_privsep_enum casing parse order item ≡ ok g)
    (copied : (m : ConnectMap) (a b : Str) → asked (order m) a b ≡ asked m a b) where
  -- For an enum that is derived, where the copy of the map has the entries of the map in whatever order,
  -- and a child of it that is not configured to connect to itself: when the parent goes through its
  -- set of pairs of the generated table in any order, each once, and no call fails for it, its loop
  -- ends well, and the child, once it has received introductions of the peers that the parent's
  -- messages to it name, and adopted their descriptors, has the handler of each introduction and
  -- stops waiting.
  pub handshake-generated :
      (pid : ℕ) (children : List Peer) (answers : ℕ → ℕ → PairAnswer) (pairs : List (ℕ × ℕ)) (k : ℕ)
      (own : List Process) (sys : System) (intros : List (Introduction sys))
      (more : List (Output (Unit {0}))) (peers : List Peer)
      → IsRun pid children answers g.child_peers pairs
      → 1 ≤ k
      → get_elem? g.child_peers k ≡ some own
      → wants g.child_peers k k ≡ false
      → peer_ids sys intros ≡ inbox k (connect pid children answers pairs).0
      → ((connect pid children answers pairs).1 ≡ done)
        × (handshake sys (results_of sys intros more) (wait_connections own) peers
            ≡ connected (introduce sys intros peers))
  handshake-generated pid children answers pairs k own sys intros more peers run first has no_self
        got =
      handshake-connect pid children answers g.child_peers pairs run k own first has
        (λ p. wants-generated casing parse order item g derived k p copied) sys intros more peers
        no_self got
