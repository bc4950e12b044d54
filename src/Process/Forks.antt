-- ===== src/Process/Forks.antt =====
-- The loop over the processes in Parent::new of privsep/src/process.rs, on both sides of a fork.
use privsep_rs.Prelude.{
  ℕ, suc, ◌+◌, ◌≡◌, append-nil, append_assoc, Bool-cases, inl, inr, refl, ap, sym, ◌∙◌, Bool, true,
  false, not, ◌&&◌, ◌||◌, none, some, List, [], ◌∷◌, ◌++◌, length, if◌then◌else◌, ok, arith,
}
use privsep_rs.Imsg.{Handler}
use privsep_rs.Process.{Process, Peer, Str}
use privsep_rs.Process.Parent.{
  System, Options, parent, became, failed, permission_denied, missing_parent, in_parent, in_child,
  exec_of, peer_of, first_name, fork_all, new,
}

module _ (sys : System) (options : Options) where
  -- The calls for a process of this index succeed, seen from the parent, if it is connected.
  abbrev pub Forks : Bool → ℕ → Handler → ℕ → Type 0
  Forks true n handler pid = (sys.pair n ≡ ok handler) × (sys.fork n ≡ ok (in_parent pid))
  Forks false n handler pid = Unit {0}

  -- The forks for these processes, from index `n`, all succeed, seen from the parent.
  abbrev pub AllForked : ℕ → List Process → (ℕ → Handler) → (ℕ → ℕ) → Type 0
  AllForked n [] handlers pids = Unit {0}
  AllForked n (p ∷ processes) handlers pids =
      Forks p.connect n (handlers n) (pids n) × AllForked (suc n) processes handlers pids

  -- The peers of the processes from index `n`: a connected one has its handler and process id.
  abbrev pub peers_of : ℕ → List Process → (ℕ → Handler) → (ℕ → ℕ) → List Peer
  peers_of n [] handlers pids = []
  peers_of n (p ∷ processes) handlers pids =
      (if p.connect
        then peer_of sys options p (some (handlers n)) (pids n)
        else peer_of sys options p none sys.this)
      ∷ peers_of (suc n) processes handlers pids

  Forks-calls :
      (b : Bool) (n : ℕ) (handler : Handler) (pid : ℕ)
      → b ≡ true
      → Forks b n handler pid
      → (sys.pair n ≡ ok handler) × (sys.fork n ≡ ok (in_parent pid))
  Forks-calls true n handler pid e forks = forks
  Forks-calls false n handler pid e forks = cc e

  fork_all-parent :
      (program : Str) (n : ℕ) (processes : List Process) (children : List Peer)
      (handlers : ℕ → Handler) (pids : ℕ → ℕ)
      → AllForked n processes handlers pids
      → sys.sigpipe ≡ ok tt
      → fork_all sys options program n processes children
        ≡ parent sys.this (children ++ peers_of n processes handlers pids)
  unfolding fork_all
  fork_all-parent program n [] children handlers pids all ignored =
      rw (ignored, append-nil children) refl
  fork_all-parent program n (p ∷ processes) children handlers pids (forks, all) ignored =
      let next : (peer : Peer)
          → fork_all sys options program (suc n) processes (children ++ (peer ∷ []))
            ≡ parent sys.this (children ++ (peer ∷ peers_of (suc n) processes handlers pids)) =
        λ peer.
          fork_all-parent program (suc n) processes (children ++ (peer ∷ [])) handlers pids all
            ignored
          ∙ ap (parent sys.this) (go peer) in
      elim (Bool-cases p.connect) [
        | inl e ↦
            let (paired, forked) = Forks-calls p.connect n (handlers n) (pids n) e forks in
            rw (e, paired, forked) (next (peer_of sys options p (some (handlers n)) (pids n)))
        | inr e ↦ rw e (next (peer_of sys options p none sys.this))
      ]
    where
      go :
          (peer : Peer)
          → (children ++ (peer ∷ [])) ++ peers_of (suc n) processes handlers pids
            ≡ children ++ (peer ∷ peers_of (suc n) processes handlers pids)
      go peer = append_assoc children (peer ∷ []) (peers_of (suc n) processes handlers pids)

  -- With privdrop disabled or as root, with "parent" as the first process, and no failing call,
  -- the parent has a peer for each process, in order: a connected one with the handler and the
  -- process id of its fork, any other one without a handler.
  pub new-parent :
      (program : Str) (processes : List Process) (handlers : ℕ → Handler) (pids : ℕ → ℕ)
      → (options.disable_privdrop || sys.is_root) ≡ true
      → first_name processes ≡ true
      → sys.current_exe ≡ ok program
      → AllForked 0 processes handlers pids
      → sys.sigpipe ≡ ok tt
      → new sys options processes ≡ parent sys.this (peers_of 0 processes handlers pids)
  unfolding new
  new-parent program processes handlers pids allowed named exe all ignored =
      let may : (not options.disable_privdrop && not sys.is_root) ≡ false =
        ground (arith, allowed) in
      rw (may, named, exe) (fork_all-parent program 0 processes [] handlers pids all ignored)

  fork_all-child :
      (program : Str) (n : ℕ) (before after : List Process) (p : Process) (children : List Peer)
      (handlers : ℕ → Handler) (pids : ℕ → ℕ) (handler : Handler)
      → AllForked n before handlers pids
      → p.connect ≡ true
      → sys.pair (n + length before) ≡ ok handler
      → sys.fork (n + length before) ≡ ok (in_child (ok tt))
      → fork_all sys options program n (before ++ (p ∷ after)) children
        ≡ became (exec_of sys options program p)
  unfolding fork_all
  fork_all-child program n [] after p children handlers pids handler all connects paired forks =
      let here : n + 0 ≡ n = omega arith in
      let paired' : sys.pair n ≡ ok handler = ap (λ (k : ℕ). sys.pair k) (sym here) ∙ paired in
      let forks' : sys.fork n ≡ ok (in_child (ok tt)) =
        ap (λ (k : ℕ). sys.fork k) (sym here) ∙ forks in
      rw (connects, paired', forks') refl
  fork_all-child program n (b ∷ before) after p children handlers pids handler (forks_b, all)
        connects paired forks =
      let later : suc n + length before ≡ n + suc (length before) = omega arith in
      let next : (cs : List Peer)
          → fork_all sys options program (suc n) (before ++ (p ∷ after)) cs
            ≡ became (exec_of sys options program p) =
        λ cs.
          fork_all-child program (suc n) before after p cs handlers pids handler all connects
            (ap (λ (k : ℕ). sys.pair k) later ∙ paired)
            (ap (λ (k : ℕ). sys.fork k) later ∙ forks) in
      elim (Bool-cases b.connect) [
        | inl e ↦
            let (paired_b, forked_b) = Forks-calls b.connect n (handlers n) (pids n) e forks_b in
            rw (e, paired_b, forked_b)
              (next (children ++ (peer_of sys options b (some (handlers n)) (pids n) ∷ [])))
        | inr e ↦ rw e (next (children ++ (peer_of sys options b none sys.this ∷ [])))
      ]

  -- With privdrop disabled or as root and "parent" as the first process, on the side of the child
  -- of a fork whose calls succeed, after forks that answered in the parent and whatever processes
  -- come after: the program is executed again under the name of that process, with "-d" in the
  -- foreground only, and with RUST_LOG from the environment or else from the options as its whole
  -- environment.
  pub new-child :
      (program : Str) (before after : List Process) (p : Process) (handlers : ℕ → Handler)
      (pids : ℕ → ℕ) (handler : Handler)
      → (options.disable_privdrop || sys.is_root) ≡ true
      → first_name (before ++ (p ∷ after)) ≡ true
      → sys.current_exe ≡ ok program
      → AllForked 0 before handlers pids
      → p.connect ≡ true
      → sys.pair (length before) ≡ ok handler
      → sys.fork (length before) ≡ ok (in_child (ok tt))
      → new sys options (before ++ (p ∷ after)) ≡ became (exec_of sys options program p)
  unfolding new
  new-child program before after p handlers pids handler allowed named exe all connects paired
        forks =
      let may : (not options.disable_privdrop && not sys.is_root) ≡ false =
        ground (arith, allowed) in
      let here : length before ≡ 0 + length before = omega arith in
      rw (may, named, exe)
        (fork_all-child program 0 before after p [] handlers pids handler all connects
          (ap (λ (k : ℕ). sys.pair k) (sym here) ∙ paired)
          (ap (λ (k : ℕ). sys.fork k) (sym here) ∙ forks))

  -- Without root, unless privdrop is disabled, nothing is forked: permission is denied whatever the
  -- processes are; and with the rights, processes of which the first is not "parent" are refused.
  pub new-refused :
      (processes : List Process)
      → ((options.disable_privdrop || sys.is_root) && first_name processes) ≡ false
      → new sys options processes
        ≡ failed
            (if options.disable_privdrop || sys.is_root then missing_parent else permission_denied)
  unfolding new
  new-refused processes refused = elim (Bool-cases (options.disable_privdrop || sys.is_root)) [
    | inl may ↦
        let open_door : (not options.disable_privdrop && not sys.is_root) ≡ false =
          ground (arith, may) in
        let unnamed : first_name processes ≡ false = ground (arith, may, refused) in
        rw (may, open_door, unnamed) refl
    | inr denied ↦
        let closed_door : (not options.disable_privdrop && not sys.is_root) ≡ true =
          ground (arith, denied) in
        rw (denied, closed_door) refl
  ]
