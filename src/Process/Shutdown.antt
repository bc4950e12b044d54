-- ===== src/Process/Shutdown.antt =====
-- Child::shutdown and Peer's Deref of privsep/src/process.rs.
use privsep_rs.Prelude.{
  ℕ, zero, suc, ◌≤◌, ◌<◌, ◌≡◌, ◌≢◌, refl, ap, sym, ◌∙◌, Bool, true, false, Option, none, some, List,
  [], ◌∷◌, map, length, ==_iff, arith,
}
use privsep_rs.Imsg.{Handler}
use privsep_rs.Imsg
use privsep_rs.Process.{Process, Peer, unconnected}
use privsep_rs.Imsg.Recv.{Output}
use privsep_rs.Process.Sets.{contains, IsDistinct, SameSet}
use privsep_rs.Process.Connect.{handler_of}
use privsep_rs.Process.Handshake.{
  System, set_handler, initial_peers, wait_connections, Introduction, peer_ids, introduce,
  results_of, start, connected, handshake-connected,
}

-- The descriptors that were closed, and whether a peer without a handler was met.
pub record Closed : Type 0 where
  pub closed : List ℕ
  pub panicked : Bool

abbrev pub close_peer : Option Handler → Closed → Closed
close_peer none rest = record { closed = []; panicked = true }
close_peer (some h) rest = record {
  closed = (Imsg.shutdown h).1 ∷ rest.closed;
  panicked = rest.panicked;
}

-- self.peers.iter().map(Deref::deref).for_each(Handler::shutdown)
unfoldable pub shutdown : List Peer → Closed
unfolding Imsg.shutdown
shutdown [] = record { closed = []; panicked = false }
shutdown (p ∷ peers) = let rest = shutdown peers in close_peer p.handler rest

shutdown-panics :
    (peers : List Peer) (k : ℕ)
    → k < length peers
    → handler_of peers k ≡ none
    → (shutdown peers).panicked ≡ true
unfolding shutdown
shutdown-panics [] k inside h = absurd (omega arith)
shutdown-panics (p ∷ peers) zero inside h = rw h refl
shutdown-panics (p ∷ peers) (suc k) inside h =
    go p.handler (shutdown-panics peers k (omega arith) h)
  where
    go :
        (o : Option Handler)
        → (shutdown peers).panicked ≡ true
        → (close_peer o (shutdown peers)).panicked ≡ true
    go none e = refl
    go (some x) e = e

pub length-set_handler :
    (a : ℕ) (h : Handler) (peers : List Peer) → length (set_handler a h peers) ≡ length peers
length-set_handler a h [] = refl
length-set_handler zero h (p ∷ peers) = refl
length-set_handler (suc a) h (p ∷ peers) = ap suc (length-set_handler a h peers)

pub handler_of-set_handler :
    (a k : ℕ) (h : Handler) (peers : List Peer)
    → a ≢ k
    → handler_of (set_handler a h peers) k ≡ handler_of peers k
handler_of-set_handler a k h [] other = refl
handler_of-set_handler zero zero h (p ∷ peers) other = absurd (other refl)
handler_of-set_handler zero (suc k) h (p ∷ peers) other = refl
handler_of-set_handler (suc a) zero h (p ∷ peers) other = refl
handler_of-set_handler (suc a) (suc k) h (p ∷ peers) other =
    handler_of-set_handler a k h peers (λ e. other (ap suc e))

handler_of-unconnected :
    (parent_pid k : ℕ) (processes : List Process)
    → handler_of (map (λ p. unconnected parent_pid p.name) processes) k ≡ none
handler_of-unconnected parent_pid k [] = refl
handler_of-unconnected parent_pid zero (p ∷ processes) = refl
handler_of-unconnected parent_pid (suc k) (p ∷ processes) =
    handler_of-unconnected parent_pid k processes

pub length-map_peer :
    (parent_pid : ℕ) (processes : List Process)
    → length (map (λ p. unconnected parent_pid p.name) processes) ≡ length processes
length-map_peer parent_pid [] = refl
length-map_peer parent_pid (p ∷ processes) = ap suc (length-map_peer parent_pid processes)

module _ (sys : System) where
  introduce-other :
      (intros : List (Introduction sys)) (peers : List Peer) (k : ℕ)
      → contains k (peer_ids sys intros) ≡ false
      → (handler_of (introduce sys intros peers) k ≡ handler_of peers k)
        × (length (introduce sys intros peers) ≡ length peers)
  introduce-other [] peers k out = (refl, refl)
  introduce-other (i ∷ intros) peers k out =
      let (same, size) =
        introduce-other intros (set_handler i.message.peer_id i.handler peers) k
          (ground (arith, out)) in
      (
        same
            ∙ handler_of-set_handler i.message.peer_id k i.handler peers
                (λ e. ground (arith, out, ==_iff k i.message.peer_id, e)),
        size ∙ length-set_handler i.message.peer_id i.handler peers,
      )

  -- A child that was started by a different introduction for each peer that it waits for, in any
  -- order, and that does not wait for some other process, as it does not wait for itself, has started,
  -- but the shutdown of its peers meets one without a handler and panics.
  pub shutdown-start :
      (parent : Handler) (parent_pid : ℕ) (first : Process) (processes : List Process)
      (intros : List (Introduction sys)) (more : List (Output (Unit {0}))) (k : ℕ)
      → 1 ≤ k
      → k < length (first ∷ processes)
      → IsDistinct (peer_ids sys intros)
      → SameSet (wait_connections (first ∷ processes)) (peer_ids sys intros)
      → contains k (wait_connections (first ∷ processes)) ≡ false
      → let peers = introduce sys intros (initial_peers parent parent_pid (first ∷ processes)) in
        (start sys parent parent_pid (first ∷ processes) (results_of sys intros more)
          ≡ connected peers)
        × ((shutdown peers).panicked ≡ true)
  unfolding start
  shutdown-start parent parent_pid first processes intros more k above inside distinct same
        unasked =
      let all = first ∷ processes in
      let initial = map (λ p. unconnected parent_pid p.name) all in
      let (kept, size) =
        introduce-other intros (set_handler 0 parent initial) k (sym (same k) ∙ unasked) in
      (
        handshake-connected sys intros more (wait_connections all)
            (initial_peers parent parent_pid all) distinct same,
        shutdown-panics (introduce sys intros (set_handler 0 parent initial)) k
            (omega
              (arith, size, length-set_handler 0 parent initial, length-map_peer parent_pid all))
            (kept
              ∙ handler_of-set_handler 0 k parent initial (λ e. omega arith)
              ∙ handler_of-unconnected parent_pid k all),
      )
