-- ===== src/Process/Introduced.antt =====
-- The handlers that a child of privsep/src/process.rs has when Child::new returns.
use privsep_rs.Prelude.{
  ℕ, zero, suc, ◌+◌, ◌<◌, ◌≡◌, inl, inr, refl, ap, ◌∙◌, true, some, List, [], ◌∷◌, map, length,
  arith,
}
use privsep_rs.Imsg.{Handler}
use privsep_rs.Fd.Ownership.{same_or_not}
use privsep_rs.Process.{Process, Peer, unconnected, enumerate_from}
use privsep_rs.Process.Sets.{contains}
use privsep_rs.Process.Connect.{handler_of}
use privsep_rs.Process.Handshake.{
  System, set_handler, initial_peers, ids, wait_connections, Introduction, peer_ids, introduce,
}
use privsep_rs.Process.Shutdown.{length-set_handler, handler_of-set_handler, length-map_peer}

-- This peer has a handler.
pub record HasHandler (peers : List Peer) (k : ℕ) : Type 0 where
  pub handler : Handler
  pub has : handler_of peers k ≡ some handler

handler_of-inside :
    (peers : List Peer) (k : ℕ) (h : Handler) → handler_of peers k ≡ some h → k < length peers
handler_of-inside [] k h e = cc
handler_of-inside (p ∷ peers) zero h e = omega arith
handler_of-inside (p ∷ peers) (suc k) h e = omega (arith, handler_of-inside peers k h e)

set_handler-has :
    (k : ℕ) (h : Handler) (peers : List Peer)
    → k < length peers
    → handler_of (set_handler k h peers) k ≡ some h
set_handler-has k h [] inside = absurd (omega arith)
set_handler-has zero h (p ∷ peers) inside = refl
set_handler-has (suc k) h (p ∷ peers) inside = set_handler-has k h peers (omega arith)

-- A new handler takes none away.
set_handler-HasHandler :
    (a k : ℕ) (h : Handler) (peers : List Peer)
    → HasHandler peers k
    → HasHandler (set_handler a h peers) k
set_handler-HasHandler a k h peers x = elim (same_or_not a k) [
  | inl same ↦ record {
    handler = h;
    has =
        ap (λ (n : ℕ). handler_of (set_handler n h peers) k) same
        ∙ set_handler-has k h peers (handler_of-inside peers k x.handler x.has);
  }
  | inr other ↦ record {
    handler = x.handler;
    has = handler_of-set_handler a k h peers other ∙ x.has;
  }
]

-- What a child waits for is in its array.
wait-inside :
    (p n : ℕ) (own : List Process)
    → contains p (ids (enumerate_from n own)) ≡ true
    → p < n + length own
wait-inside p n [] e = cc e
wait-inside p n (x ∷ own) e = elim (same_or_not p n) [
  | inl same ↦ omega arith
  | inr other ↦ omega (arith, wait-inside p (suc n) own (ground (arith, e, other)))
]

pub wait_connections-inside :
    (p : ℕ) (own : List Process) → contains p (wait_connections own) ≡ true → p < length own
unfolding wait_connections
wait_connections-inside p [] e = cc e
wait_connections-inside p (x ∷ own) e = omega (arith, wait-inside p 1 own e)

module _ (sys : System) where
  introduce-keeps :
      (intros : List (Introduction sys)) (peers : List Peer) (k : ℕ)
      → HasHandler peers k
      → HasHandler (introduce sys intros peers) k
  introduce-keeps [] peers k x = x
  introduce-keeps (i ∷ intros) peers k x =
      introduce-keeps intros (set_handler i.message.peer_id i.handler peers) k
        (set_handler-HasHandler i.message.peer_id k i.handler peers x)

  introduce-has :
      (intros : List (Introduction sys)) (peers : List Peer) (k : ℕ)
      → contains k (peer_ids sys intros) ≡ true
      → k < length peers
      → HasHandler (introduce sys intros peers) k
  introduce-has [] peers k e inside = cc e
  introduce-has (i ∷ intros) peers k e inside =
      let next = set_handler i.message.peer_id i.handler peers in
      elim (same_or_not k i.message.peer_id) [
        | inl same ↦ introduce-keeps intros next k (record {
          handler = i.handler;
          has =
              ap (λ (n : ℕ). handler_of next n) same
              ∙ set_handler-has i.message.peer_id i.handler peers (omega (arith, inside, same));
        })
        | inr other ↦
            introduce-has intros next k (ground (arith, e, other))
              (omega (arith, inside, length-set_handler i.message.peer_id i.handler peers))
      ]

  module _ (parent : Handler) (parent_pid : ℕ) (own : List Process)
      (intros : List (Introduction sys)) where
    abbrev pub peers_after : List Peer
    peers_after = introduce sys intros (initial_peers parent parent_pid own)

    initial-length : length (initial_peers parent parent_pid own) ≡ length own
    initial-length =
        length-set_handler 0 parent (map (λ p. unconnected parent_pid p.name) own)
        ∙ length-map_peer parent_pid own

    -- A child has a handler for its parent, and for each peer that was introduced and waited for.
    pub HasHandler-parent : 0 < length own → HasHandler peers_after 0
    HasHandler-parent some_process =
        introduce-keeps intros (initial_peers parent parent_pid own) 0 (record {
          handler = parent;
          has =
              set_handler-has 0 parent (map (λ p. unconnected parent_pid p.name) own)
                (omega (arith, some_process, length-map_peer parent_pid own));
        })

    pub HasHandler-peer :
        (p : ℕ)
        → contains p (wait_connections own) ≡ true
        → contains p (peer_ids sys intros) ≡ true
        → HasHandler peers_after p
    HasHandler-peer p wanted came =
        introduce-has intros (initial_peers parent parent_pid own) p came
          (omega (arith, wait_connections-inside p own wanted, initial-length))
