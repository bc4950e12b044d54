-- ===== src/Process/Startup.antt =====
-- Parent::connect and Child::new of privsep/src/process.rs together: what the parent sends to a child
-- is what that child waits for.
use privsep_rs.Prelude.{
  Bool-cases, inl, inr, ℕ, zero, suc, ◌+◌, ◌<◌, ◌≤◌, ◌≡◌, refl, ap, sym, ◌∙◌, true, false, not,
  ◌&&◌, ◌||◌, Option, none, some, ok, List, [], ◌∷◌, get_elem?, All, ◌==◌, ==_iff, ==-refl, ltb→lt,
  arith, drop,
}
use privsep_rs.Imsg.Header.{Message}
use privsep_rs.Imsg.Recv.{Output}
use privsep_rs.Process.{Process, Peer, enumerate, enumerate_from}
use privsep_rs.Process.Sets.{
  contains, IsDistinct, SameSet, remove_all, contains-remove_all, All-contains,
}
use privsep_rs.Process.Connect.{
  contains_pair, pairs, PairAnswer, Delivery, done, connect, asks, table_asks, wants,
  contains_pair-pairs,
}
use privsep_rs.Process.Handshake.{
  System, ids, wait_connections, Introduction, peer_ids, results_of, introduce, handshake,
  connected, waiting, panicked, handshake-results_of, handshake-connected, handshake-waiting,
}
use privsep_rs.Process.Inbox.{
  inbox, partners, contains-partners, IsDistinctPairs, partners-IsDistinct, IsReady, connect-inbox,
}

asks-ids : (p : ℕ) (bs : List (ℕ × Process)) → asks p bs ≡ contains p (ids bs)
asks-ids p [] = refl
asks-ids p ((b, inner) ∷ bs) = ground (arith, asks-ids p bs)

table_asks-above :
    (x n p : ℕ) (ts : List (List Process)) → x < n → table_asks x p (enumerate_from n ts) ≡ false
table_asks-above x n p [] below = refl
table_asks-above x n p (t ∷ ts) below =
    ground (arith, table_asks-above x (suc n) p ts (omega arith))

-- The table of a child.
table_asks-get :
    (k n p : ℕ) (ts : List (List Process)) (own : List Process)
    → get_elem? ts k ≡ some own
    → table_asks (n + k) p (enumerate_from n ts) ≡ asks p (drop 1 (enumerate own))
table_asks-get k n p [] own e = cc
table_asks-get zero n p (t ∷ ts) own e =
    let same : t ≡ own = cc e in
    ground (arith, table_asks-above (n + 0) (suc n) p ts (omega arith))
    ∙ ap (λ (o : List Process). asks p (drop 1 (enumerate o))) same
table_asks-get (suc k) n p (t ∷ ts) own e =
    let next : n + suc k ≡ suc n + k = omega arith in
    let rest : table_asks (n + suc k) p (enumerate_from (suc n) ts)
        ≡ asks p (drop 1 (enumerate own)) =
      ap (λ (m : ℕ). table_asks m p (enumerate_from (suc n) ts)) next
      ∙ table_asks-get k (suc n) p ts own e in
    ground (arith, rest)

-- What a child waits for is what its row of the table asks for.
pub contains-wait_connections :
    (processes : List (List Process)) (k p : ℕ) (own : List Process)
    → 1 ≤ k
    → get_elem? processes k ≡ some own
    → contains p (wait_connections own) ≡ wants processes k p
unfolding wait_connections
contains-wait_connections processes zero p own first e = absurd (omega arith)
contains-wait_connections [] (suc k) p own first e = cc
contains-wait_connections (t ∷ ts) (suc k) p own first e =
    sym (asks-ids p (drop 1 (enumerate own)))
    ∙ sym (table_asks-get k 1 p ts own e)
    ∙ ap (λ (m : ℕ). table_asks m p (enumerate_from 1 ts)) (omega arith)

-- An end of file, or a message that is no introduction.
pub data IsUnwelcome : Output (Unit {0}) → Type 0 where
  end_of_file : IsUnwelcome (ok none)
  other_message :
      (m : Message) (fd : Option ℕ) → (m.id == 1) ≡ false → IsUnwelcome (ok (some (m, fd, tt)))

handshake-unwelcome :
    (sys : System) (later : Output (Unit {0})) (more : List (Output (Unit {0}))) (wait : List ℕ)
    (peers : List Peer) (missing : ℕ)
    → contains missing wait ≡ true
    → IsUnwelcome later
    → handshake sys (later ∷ more) wait peers ≡ panicked
unfolding handshake
handshake-unwelcome sys later more [] peers missing e unwelcome = cc e
handshake-unwelcome sys _ more (w ∷ wait) peers missing e end_of_file = refl
handshake-unwelcome sys _ more (w ∷ wait) peers missing e (other_message m none other) = refl
handshake-unwelcome sys _ more (w ∷ wait) peers missing e (other_message m (some fd) other) =
    rw other refl

module _ (pid : ℕ) (children : List Peer) (answers : ℕ → ℕ → PairAnswer)
    (processes : List (List Process)) (order : List (ℕ × ℕ)) where
  -- The loop of the parent goes through the set of pairs, each once, in some order, and no call fails.
  pub record IsRun : Type 0 where
    pub same : (x y : ℕ) → contains_pair x y order ≡ contains_pair x y (pairs processes)
    pub distinct : IsDistinctPairs order
    pub ready : All (λ p. IsReady pid children answers p.0 p.1) order

  abbrev sent : List Delivery
  sent = (connect pid children answers order).0

  module _ (run : IsRun) (k : ℕ) where
    inbox-partners : inbox k sent ≡ partners k order
    inbox-partners = (connect-inbox pid children answers k order run.ready).1

    inbox-IsDistinct : IsDistinct (inbox k sent)
    inbox-IsDistinct = rw inbox-partners (
        partners-IsDistinct k order run.distinct (λ x y h.
          ltb→lt x y (ground (arith, h, run.same x y, contains_pair-pairs processes x y))))

    -- The messages to a child introduce the other processes that it or they ask for.
    pub contains-inbox :
        (p : ℕ)
        → contains p (inbox k sent) ≡ (not (p == k) && (wants processes k p || wants processes p k))
    contains-inbox p =
        ap (contains p) inbox-partners
        ∙ contains-partners k p order
        ∙ ground (
          arith,
          run.same k p,
          run.same p k,
          contains_pair-pairs processes k p,
          contains_pair-pairs processes p k,
        )

    module _ (own : List Process) (first : 1 ≤ k) (has : get_elem? processes k ≡ some own)
        (symmetric : (p : ℕ) → wants processes k p ≡ wants processes p k) where
      -- In a table that is symmetric for a child other than the parent, which does not ask for
      -- itself: when the parent goes through its set of pairs in any order, each once, and no call
      -- fails for it, the parent's loop ends well, and the child, once it has received
      -- introductions of the peers that the parent's messages to it name, and adopted their
      -- descriptors, has the handler of each introduction and stops waiting.
      pub handshake-connect :
          (sys : System) (intros : List (Introduction sys)) (more : List (Output (Unit {0})))
          (peers : List Peer)
          → wants processes k k ≡ false
          → peer_ids sys intros ≡ inbox k (connect pid children answers order).0
          → ((connect pid children answers order).1 ≡ done)
            × (handshake sys (results_of sys intros more) (wait_connections own) peers
                ≡ connected (introduce sys intros peers))
      handshake-connect sys intros more peers no_self got = (
        (connect-inbox pid children answers k order run.ready).0,
        handshake-connected sys intros more (wait_connections own) peers (rw got inbox-IsDistinct)
            all_of_them,
      )
        where
          all_of_them : SameSet (wait_connections own) (peer_ids sys intros)
          all_of_them x =
              contains-wait_connections processes k x own first has
              ∙ not_self x
              ∙ sym (contains-inbox x)
              ∙ ap (contains x) (sym got)
            where
              not_self :
                  (x : ℕ)
                  → wants processes k x
                    ≡ (not (x == k) && (wants processes k x || wants processes x k))
              not_self x = elim (Bool-cases (x == k)) [
                | inl e ↦
                    let self : x ≡ k = (==_iff x k).0 e in
                    rw (e) (ap (λ (y : ℕ). wants processes k y) self ∙ no_self)
                | inr other ↦ rw (other) (ground (arith, symmetric x))
              ]

      -- A child that asks for itself does not start: in a table that is symmetric for it, when no call
      -- of the parent fails, the introductions of all peers that the parent's messages to it name
      -- leave the child waiting, with itself among those it waits for; and when the next result is an
      -- end of file, or a message that is no introduction, it panics.
      pub handshake_self :
          (sys : System) (intros : List (Introduction sys)) (peers : List Peer)
          (later : Output (Unit {0})) (more : List (Output (Unit {0})))
          → wants processes k k ≡ true
          → peer_ids sys intros ≡ inbox k (connect pid children answers order).0
          → IsUnwelcome later
          → (handshake sys (results_of sys intros []) (wait_connections own) peers
              ≡ waiting
                  (remove_all (peer_ids sys intros) (wait_connections own))
                  (introduce sys intros peers))
            × (contains k (remove_all (peer_ids sys intros) (wait_connections own)) ≡ true)
            × (handshake sys (results_of sys intros (later ∷ more)) (wait_connections own) peers
                ≡ panicked)
      handshake_self sys intros peers later more itself got unwelcome = (
        handshake-waiting sys intros (wait_connections own) peers k (rw got inbox-IsDistinct) wanted
            inside outside,
        still_there,
        handshake-results_of sys intros (later ∷ more) (wait_connections own) peers
              (rw got inbox-IsDistinct)
              (All-contains (peer_ids sys intros) (wait_connections own) wanted)
            ∙ handshake-unwelcome sys later more
                (remove_all (peer_ids sys intros) (wait_connections own))
                (introduce sys intros peers) k still_there unwelcome,
      )
        where
          inside : contains k (wait_connections own) ≡ true
          inside = contains-wait_connections processes k k own first has ∙ itself

          outside : contains k (peer_ids sys intros) ≡ false
          outside = ap (contains k) got ∙ contains-inbox k ∙ rw (==-refl k) refl

          still_there : contains k (remove_all (peer_ids sys intros) (wait_connections own)) ≡ true
          still_there =
              contains-remove_all (peer_ids sys intros) (wait_connections own) k
              ∙ rw (inside, outside) refl

          wanted :
              (x : ℕ)
              → contains x (peer_ids sys intros) ≡ true
              → contains x (wait_connections own) ≡ true
          wanted x h =
              contains-wait_connections processes k x own first has
              ∙ ground (arith, h, ap (contains x) got, contains-inbox x, symmetric x)
