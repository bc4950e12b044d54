-- ===== src/Simple/Connected.antt =====
-- The children of privsep/examples/simple.rs after Parent::connect and Child::new of
-- privsep/src/process.rs: each has a handler for its parent and for its sibling.
use privsep_rs.Prelude.{
  ℕ, ◌≤◌, ◌≡◌, ◌≢◌, ◌⊎◌, inl, inr, ◌++◌, refl, ap, sym, subst, ◌∙◌, true, false, Option, some, none,
  List, [], ◌∷◌, ◌==◌, ok, err, Result, get_elem?, arith,
}
use privsep_rs.Ancillary.Cmsg.{Libc}
use privsep_rs.Stream.{IoError, Poll, pending, ready, SendEvent}
use privsep_rs.Imsg.{Serde, Handler}
use privsep_rs.Imsg.Header
use privsep_rs.Imsg.Send.{Sent, send_message}
use privsep_rs.Imsg.Recv.{Output}
use privsep_rs.Process.{Str, Process, Peer}
use privsep_rs.Process.Sets.{contains}
use privsep_rs.Process.Connect.{PairAnswer, connect, wants}
use privsep_rs.Process.Handshake.{
  System, wait_connections, initial_peers, Introduction, peer_ids, results_of, introduce, start,
  connected,
}
use privsep_rs.Process.Startup.{IsRun, contains-wait_connections, contains-inbox}
use privsep_rs.Process.Inbox.{inbox}
use privsep_rs.Process.Introduced.{
  HasHandler, HasHandler-parent, HasHandler-peer, wait_connections-inside,
}
use privsep_rs.Derive.{ConnectMap}
use privsep_rs.Derive.Resolve.{asked}
use privsep_rs.Derive.Generate.{Casing, Item, Generated, derive_privsep_enum}
use privsep_rs.Derive.Constants.{wants-generated}
use privsep_rs.Derive.Startup.{handshake-generated}
use privsep_rs.Log.Targets.{LogError}
use privsep_rs.Simple.{parent_id, hello_id, child_id}
use privsep_rs.Simple.Select.{Branch, Turn}
use privsep_rs.Simple.Child.{
  panicked, Main, with_peer, sent_on, warned, child_names, hello_names, select_from, child_main,
  hello_main,
}

Poll-cases :
    (p : Poll (Result IoError (Unit {0})))
    → (p ≡ pending) ⊎ ((x : Result IoError (Unit {0})) × (p ≡ ready x))
Poll-cases pending = inl refl
Poll-cases (ready x) = inr (x, refl)

module _ (c : Libc) (serde : Serde (Unit {0})) (pid : ℕ) where
  abbrev Goes : Main → Type 0
  Goes m = m.outcome ≢ panicked

  select_from-Goes :
      (names : Branch → Str) (peers : List Peer) (sibling : ℕ) (turns : List Turn)
      → HasHandler peers parent_id
      → HasHandler peers sibling
      → Goes (select_from c serde pid names peers sibling turns)
  select_from-Goes names peers sibling turns one two = rw (one.has, two.has) (λ e. cc e)

  warned-Goes : (h : Handler) (s : Sent) (rest : Main) → Goes rest → Goes (warned h s rest)
  warned-Goes h s rest goes e = elim (Poll-cases s.result) [
    | inl waits ↦ cc (e, waits)
    | inr (x, done) ↦ goes (sym (ap (λ (m : Main). m.outcome) (ready_of s rest x done)) ∙ e)
  ]
    where
      ready_of :
          (s : Sent) (rest : Main) (x : Result IoError (Unit {0}))
          → s.result ≡ ready x
          → warned h s rest ≡ record rest { sent = sent_on h s.packets ++ rest.sent }
      ready_of s rest x done = rw (done) refl

  child_main-Goes :
      (show_log : LogError → Str) (logger : Result LogError (Unit {0})) (peers : List Peer)
      (answers : List SendEvent) (turns : List Turn)
      → HasHandler peers parent_id
      → HasHandler peers hello_id
      → Goes (child_main c serde pid show_log logger peers answers turns)
  unfolding child_main
  child_main-Goes show_log (err e) peers answers turns one two = λ e. cc e
  child_main-Goes show_log (ok _) peers answers turns one two =
      subst
        (λ (o : Option Handler). Goes (
          with_peer o (λ hello.
            warned hello (send_message c serde pid hello (Header.new pid 42) none tt answers)
              (select_from c serde pid child_names peers hello_id turns))))
        (sym two.has)
        (warned-Goes two.handler
          (send_message c serde pid two.handler (Header.new pid 42) none tt answers)
          (select_from c serde pid child_names peers hello_id turns)
          (select_from-Goes child_names peers hello_id turns one two))

  hello_main-Goes :
      (show_log : LogError → Str) (logger : Result LogError (Unit {0})) (peers : List Peer)
      (turns : List Turn)
      → HasHandler peers parent_id
      → HasHandler peers child_id
      → Goes (hello_main c serde pid show_log logger peers turns)
  unfolding hello_main
  hello_main-Goes show_log (err e) peers turns one two = λ e. cc e
  hello_main-Goes show_log (ok _) peers turns one two =
      select_from-Goes hello_names peers child_id turns one two

-- A child that has started, with the handlers of its parent and of this peer.
pub record Starts (sys : System) (parent : Handler) (parent_pid : ℕ) (own : List Process)
    (results : List (Output (Unit {0}))) (p : ℕ) : Type 0 where
  pub peers : List Peer
  pub starts : start sys parent parent_pid own results ≡ connected peers
  pub parent_has : HasHandler peers parent_id
  pub peer_has : HasHandler peers p

module _ {T : Type 0} (casing : Casing) (parse : Str → Option T) (order : ConnectMap → ConnectMap)
    (item : Item) (g : Generated T) (derived : derive_privsep_enum casing parse order item ≡ ok g)
    (copied : (m : ConnectMap) (a b : Str) → asked (order m) a b ≡ asked m a b) (pid : ℕ)
    (children : List Peer) (answers : ℕ → ℕ → PairAnswer) (pairs : List (ℕ × ℕ))
    (run : IsRun pid children answers g.child_peers pairs) where
  module _ (sys : System) (intros : List (Introduction sys)) (more : List (Output (Unit {0})))
      (parent : Handler) (parent_pid : ℕ) where
    start-Starts :
        (k p : ℕ) (own : List Process)
        → 1 ≤ k
        → get_elem? g.child_peers k ≡ some own
        → wants g.child_peers k k ≡ false
        → wants g.child_peers k p ≡ true
        → (p == k) ≡ false
        → peer_ids sys intros ≡ inbox k (connect pid children answers pairs).0
        → Starts sys parent parent_pid own (results_of sys intros more) p
    unfolding start
    start-Starts k p [] first has no_self wants_p other got = absurd (
        omega (
          arith,
          wait_connections-inside p []
              (contains-wait_connections g.child_peers k p [] first has ∙ wants_p),
        ))
    start-Starts k p (x ∷ own) first has no_self wants_p other got =
        let wanted : contains p (wait_connections (x ∷ own)) ≡ true =
          contains-wait_connections g.child_peers k p (x ∷ own) first has ∙ wants_p in
        let came : contains p (peer_ids sys intros) ≡ true =
          ap (contains p) got
          ∙ contains-inbox pid children answers g.child_peers pairs run k p
          ∙ ground (arith, other, wants_p) in
        let here = initial_peers parent parent_pid (x ∷ own) in
        record {
          peers = introduce sys intros here;
          starts =
              (handshake-generated casing parse order item g derived copied pid children answers
                pairs k (x ∷ own) sys intros more here run first has no_self got).1;
          parent_has = HasHandler-parent sys parent parent_pid (x ∷ own) intros (omega arith);
          peer_has = HasHandler-peer sys parent parent_pid (x ∷ own) intros p wanted came;
        }

    -- For an enum that is derived, where the copy of the map has the entries of the map in whatever
    -- order, and whose third process is configured to connect to the second and not to itself: when
    -- the parent goes through its set of pairs in any order, each once, and no call fails for it, the
    -- third process, with introductions of the peers that the parent's messages to it name, and their
    -- descriptors adopted, starts, and the main function of the child does not panic with its peers,
    -- whatever the logger and the sockets answer.
    pub child_main-start :
        (own : List Process) (c : Libc) (serde : Serde (Unit {0})) (own_pid : ℕ)
        (show_log : LogError → Str) (logger : Result LogError (Unit {0})) (events : List SendEvent)
        (turns : List Turn)
        → get_elem? g.child_peers child_id ≡ some own
        → wants g.child_peers child_id child_id ≡ false
        → wants g.child_peers child_id hello_id ≡ true
        → peer_ids sys intros ≡ inbox child_id (connect pid children answers pairs).0
        → (peers : List Peer) × (start sys parent parent_pid own (results_of sys intros more)
            ≡ connected peers)
          × ((child_main c serde own_pid show_log logger peers events turns).outcome ≢ panicked)
    child_main-start own c serde own_pid show_log logger events turns has no_self wanted got =
        let x = start-Starts child_id hello_id own (omega arith) has no_self wanted refl got in
        (
          x.peers,
          x.starts,
          child_main-Goes c serde own_pid show_log logger x.peers events turns x.parent_has
              x.peer_has,
        )

    -- So does the second process with the main function of hello, which waits for the third.
    pub hello_main-start :
        (own : List Process) (c : Libc) (serde : Serde (Unit {0})) (own_pid : ℕ)
        (show_log : LogError → Str) (logger : Result LogError (Unit {0})) (turns : List Turn)
        → get_elem? g.child_peers hello_id ≡ some own
        → wants g.child_peers hello_id hello_id ≡ false
        → wants g.child_peers child_id hello_id ≡ true
        → peer_ids sys intros ≡ inbox hello_id (connect pid children answers pairs).0
        → (peers : List Peer) × (start sys parent parent_pid own (results_of sys intros more)
            ≡ connected peers)
          × ((hello_main c serde own_pid show_log logger peers turns).outcome ≢ panicked)
    hello_main-start own c serde own_pid show_log logger turns has no_self wanted got =
        let both = wants-generated casing parse order item g derived hello_id child_id copied in
        let x =
          start-Starts hello_id child_id own (omega arith) has no_self (both ∙ wanted) refl got in
        (
          x.peers,
          x.starts,
          hello_main-Goes c serde own_pid show_log logger x.peers turns x.parent_has x.peer_has,
        )
