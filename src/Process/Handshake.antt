-- ===== src/Process/Handshake.antt =====
-- The wait for peers in Child::new of privsep/src/process.rs.
use privsep_rs.Prelude.{
  ℕ, zero, suc, ◌≡◌, refl, ap, ◌∙◌, true, false, none, some, List, [], ◌∷◌, map, All, ◌==◌,
  if◌then◌else◌, Result, ok, err, arith, drop,
}
use privsep_rs.Stream.{IoError}
use privsep_rs.Imsg.{Handler}
use privsep_rs.Imsg.Header.{Message}
use privsep_rs.Imsg.Recv.{Output}
use privsep_rs.Process.{Process, Peer, unconnected, enumerate}
use privsep_rs.Process.Sets.{
  contains, remove, remove_all, IsDistinct, SameSet, contains-remove, contains-remove_all,
  nothing_contained, All-contains,
}

-- The system: Fd::is_open, and Handler::from_raw_fd.
pub record System : Type 0 where
  pub is_open : ℕ → Result IoError (Unit {0})
  pub from_raw_fd : ℕ → Result IoError Handler

-- peers[peer_id].handler = Some(handler)
abbrev pub set_handler : ℕ → Handler → List Peer → List Peer
set_handler peer_id handler [] = []
set_handler zero handler (p ∷ peers) = record p { handler = some handler } ∷ peers
set_handler (suc peer_id) handler (p ∷ peers) = p ∷ set_handler peer_id handler peers

-- All peers have their sockets, or the loop waits for one more message, or it ended with an error or a
-- panic.
pub data Started : Type 0 where
  connected : List Peer → Started
  waiting : List ℕ → List Peer → Started
  failed : IoError → Started
  panicked : Started

-- processes.iter().enumerate().skip(1).filter_map(|(id, proc)| proc.connect.then(|| id))
abbrev pub ids : List (ℕ × Process) → List ℕ
ids [] = []
ids ((id, proc) ∷ rest) = let later = ids rest in if proc.connect then id ∷ later else later

unfoldable pub wait_connections : List Process → List ℕ
wait_connections processes = ids (drop 1 (enumerate processes))

-- The peers before the loop: the parent with its handler, the others with none.
abbrev pub initial_peers : Handler → ℕ → List Process → List Peer
initial_peers parent parent_pid processes =
    set_handler 0 parent (map (λ p. unconnected parent_pid p.name) processes)

module _ (sys : System) where
  -- fd.is_open()?; Handler::from_raw_fd(fd)?
  abbrev pub adopt : ℕ → Result IoError Handler
  adopt fd = elim (sys.is_open fd) [ ok _ ↦ sys.from_raw_fd fd | err kind ↦ err kind ]

  -- The descriptor of a peer that was waited for; `rest` is the rest of the loop.
  abbrev pub on_fd : Result IoError Handler → (Handler → Started) → Started
  on_fd (ok handler) rest = rest handler
  on_fd (err kind) rest = failed kind

  -- `while !wait_connections.is_empty()`, over the results of peers[0].recv_message().
  unfoldable pub handshake : List (Output (Unit {0})) → List ℕ → List Peer → Started
  handshake results [] peers = connected peers
  handshake [] (w ∷ wait) peers = waiting (w ∷ wait) peers
  handshake (err kind ∷ results) (w ∷ wait) peers = failed kind
  handshake (ok none ∷ results) (w ∷ wait) peers = panicked
  handshake (ok (some (m, none, payload)) ∷ results) (w ∷ wait) peers = panicked
  handshake (ok (some (m, some fd, payload)) ∷ results) (w ∷ wait) peers =
      let rest = λ (handler : Handler).
        handshake results (remove m.peer_id (w ∷ wait)) (set_handler m.peer_id handler peers) in
      if m.id == 1
      then (if contains m.peer_id (w ∷ wait) then on_fd (adopt fd) rest else panicked)
      else panicked

  -- Child::new from the handler of the parent on, with the privileges already dropped; an empty array
  -- has no element 0.
  unfoldable pub start : Handler → ℕ → List Process → List (Output (Unit {0})) → Started
  start parent parent_pid [] results = panicked
  start parent parent_pid (first ∷ processes) results =
      handshake results (wait_connections (first ∷ processes))
        (initial_peers parent parent_pid (first ∷ processes))

  -- A message that introduces a peer, its descriptor and the handler made of it.
  pub record Introduction : Type 0 where
    pub message : Message
    pub fd : ℕ
    pub handler : Handler
    pub is_connect : message.id ≡ 1
    pub adopted : adopt fd ≡ ok handler

  abbrev pub result_of : Introduction → Output (Unit {0})
  result_of i = ok (some (i.message, some i.fd, tt))

  abbrev pub results_of : List Introduction → List (Output (Unit {0})) → List (Output (Unit {0}))
  results_of [] more = more
  results_of (i ∷ intros) more = result_of i ∷ results_of intros more

  abbrev pub peer_ids : List Introduction → List ℕ
  peer_ids [] = []
  peer_ids (i ∷ intros) = i.message.peer_id ∷ peer_ids intros

  abbrev pub introduce : List Introduction → List Peer → List Peer
  introduce [] peers = peers
  introduce (i ∷ intros) peers = introduce intros (set_handler i.message.peer_id i.handler peers)

  handshake-step :
      (i : Introduction) (results : List (Output (Unit {0}))) (wait : List ℕ) (peers : List Peer)
      → contains i.message.peer_id wait ≡ true
      → handshake (result_of i ∷ results) wait peers
        ≡ handshake results
            (remove i.message.peer_id wait)
            (set_handler i.message.peer_id i.handler peers)
  unfolding handshake
  handshake-step i results [] peers h = cc
  handshake-step i results (w ∷ wait) peers h =
      let known : (i.message.id == 1) ≡ true = rw (i.is_connect) refl in
      rw (known, h, i.adopted) refl

  -- Introductions of different peers that are waited for are taken one after the other.
  pub handshake-results_of :
      (intros : List Introduction) (more : List (Output (Unit {0}))) (wait : List ℕ)
      (peers : List Peer)
      → IsDistinct (peer_ids intros)
      → All (λ x. contains x wait ≡ true) (peer_ids intros)
      → handshake (results_of intros more) wait peers
        ≡ handshake more (remove_all (peer_ids intros) wait) (introduce intros peers)
  handshake-results_of [] more wait peers distinct wanted = refl
  handshake-results_of (i ∷ intros) more wait peers (fresh, distinct) (h, wanted) =
      handshake-step i (results_of intros more) wait peers h
      ∙ handshake-results_of intros more (remove i.message.peer_id wait)
          (set_handler i.message.peer_id i.handler peers) distinct
          (still_wanted (peer_ids intros) fresh wanted)
    where
      differs :
          (x : ℕ) (xs : List ℕ)
          → contains i.message.peer_id (x ∷ xs) ≡ false
          → (x == i.message.peer_id) ≡ false
      differs x xs out = ground (arith, out)

      still_wanted :
          (xs : List ℕ)
          → contains i.message.peer_id xs ≡ false
          → All (λ x. contains x wait ≡ true) xs
          → All (λ x. contains x (remove i.message.peer_id wait) ≡ true) xs
      still_wanted [] out all = tt
      still_wanted (x ∷ xs) out (hx, all) = (
        rw (contains-remove i.message.peer_id x wait, hx) (rw (differs x xs out) refl),
        still_wanted xs (ground arith) all,
      )

  -- The loop ends as soon as introductions of different peers have come, in any order, that are
  -- just the peers that are waited for, and each of those peers is given the handler of its
  -- introduction.
  pub handshake-connected :
      (intros : List Introduction) (more : List (Output (Unit {0}))) (wait : List ℕ)
      (peers : List Peer)
      → IsDistinct (peer_ids intros)
      → SameSet wait (peer_ids intros)
      → handshake (results_of intros more) wait peers ≡ connected (introduce intros peers)
  unfolding handshake
  handshake-connected intros more wait peers distinct same =
      handshake-results_of intros more wait peers distinct
        (All-contains (peer_ids intros) wait (λ x h. same x ∙ h))
      ∙ ap (λ (ws : List ℕ). handshake more ws (introduce intros peers)) none_left
    where
      none_left : remove_all (peer_ids intros) wait ≡ []
      none_left =
          nothing_contained (remove_all (peer_ids intros) wait)
            (λ x. ground (arith, contains-remove_all (peer_ids intros) wait x, same x))

  -- With introductions that leave out a peer that is waited for, the loop waits.
  pub handshake-waiting :
      (intros : List Introduction) (wait : List ℕ) (peers : List Peer) (missing : ℕ)
      → IsDistinct (peer_ids intros)
      → ((x : ℕ) → contains x (peer_ids intros) ≡ true → contains x wait ≡ true)
      → contains missing wait ≡ true
      → contains missing (peer_ids intros) ≡ false
      → handshake (results_of intros []) wait peers
        ≡ waiting (remove_all (peer_ids intros) wait) (introduce intros peers)
  unfolding handshake
  handshake-waiting intros wait peers missing distinct wanted inside outside =
      handshake-results_of intros [] wait peers distinct
        (All-contains (peer_ids intros) wait wanted)
      ∙ still (remove_all (peer_ids intros) wait)
          (ground (arith, contains-remove_all (peer_ids intros) wait missing))
    where
      still :
          (ws : List ℕ)
          → contains missing ws ≡ true
          → handshake [] ws (introduce intros peers) ≡ waiting ws (introduce intros peers)
      still [] h = cc
      still (w ∷ ws) h = refl

  -- After introductions of different peers that were waited for, with some peer still missing, an
  -- introduction of a peer that is not missing, be it the second one of the same peer, is a panic.
  pub handshake-uninvited :
      (intros : List Introduction) (i : Introduction) (more : List (Output (Unit {0})))
      (wait : List ℕ) (peers : List Peer) (missing : ℕ)
      → IsDistinct (peer_ids intros)
      → ((x : ℕ) → contains x (peer_ids intros) ≡ true → contains x wait ≡ true)
      → contains missing wait ≡ true
      → contains missing (peer_ids intros) ≡ false
      → contains i.message.peer_id (remove_all (peer_ids intros) wait) ≡ false
      → handshake (results_of intros (result_of i ∷ more)) wait peers ≡ panicked
  unfolding handshake
  handshake-uninvited intros i more wait peers missing distinct wanted inside outside uninvited =
      handshake-results_of intros (result_of i ∷ more) wait peers distinct
        (All-contains (peer_ids intros) wait wanted)
      ∙ refused (remove_all (peer_ids intros) wait) (introduce intros peers)
          (ground (arith, contains-remove_all (peer_ids intros) wait missing)) uninvited
    where
      refused :
          (ws : List ℕ) (ps : List Peer)
          → contains missing ws ≡ true
          → contains i.message.peer_id ws ≡ false
          → handshake (result_of i ∷ more) ws ps ≡ panicked
      refused [] ps h out = cc
      refused (w ∷ ws) ps h out =
          let known : (i.message.id == 1) ≡ true = rw (i.is_connect) refl in rw (known, out) refl
