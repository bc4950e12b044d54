-- ===== src/Simple/Started.antt =====
-- What parent::main of privsep/examples/simple.rs has done when it is in its loop.
use mathlib.Core.Path.{ap₂}
use privsep_rs.Prelude.{
  ℕ, ◌≡◌, ◌⊎◌, inl, inr, refl, ap, sym, ◌∙◌, Bool, true, Bool-cases, Option, some, List, [], ◌∷◌,
  ◌++◌, All, arith, ok, if◌then◌else◌,
}
use privsep_rs.Ancillary.Cmsg.{Libc}
use privsep_rs.Stream.{ready, SendEvent, Packet}
use privsep_rs.Imsg.{Serde, Handler}
use privsep_rs.Imsg.Header
use privsep_rs.Imsg.Header.{header_length}
use privsep_rs.Imsg.Send.{send_message}
use privsep_rs.Imsg.Writes.{IsBounded, send_message-ok}
use privsep_rs.Process.{Str, Peer}
use privsep_rs.Process.Connect.{handler_of}
use privsep_rs.Log.Targets.{LogError}
use privsep_rs.Simple.{hello_id, child_id}
use privsep_rs.Simple.Select.{State, Run}
use privsep_rs.Simple.Child.{looped, Main, sent_on, at_once, with_peer}
use privsep_rs.Simple.Parent.{
  ParentTurn, sent_or, with_signal, with_daemon, Host, but_parent, process_ids, parent_loop,
  send_all, parent_main,
}
use privsep_rs.Simple.Echo.{packet}
use privsep_rs.Simple.Steps.{
  with_logger-looped, with_signal-looped, with_daemon-looped, with_peer-looped, sent_or-looped,
}

module _ (c : Libc) (serde : Serde (Unit {0})) (pid : ℕ) (fd : Option ℕ)
    (empty : serde.serialize tt ≡ some []) where
  -- What a first send puts on the socket.
  abbrev pub greeting : Packet
  greeting = packet c pid fd (Header.new pid 23)

  greeted :
      (h : Handler) (answers : List SendEvent)
      → All (IsBounded header_length) answers
      → (send_message c serde pid h (Header.new pid 23) fd tt answers).result ≡ ready (ok tt)
      → (send_message c serde pid h (Header.new pid 23) fd tt answers).packets ≡ greeting ∷ []
  greeted h answers bounded done =
      (send_message-ok c serde pid h (Header.new pid 23) fd tt answers [] empty (omega arith)
        bounded done).2

  -- One round of the loop over the ids.
  one_more :
      (answers : ℕ → List SendEvent) (peers : List Peer) (id : ℕ) (ids : List ℕ) (rest : Main)
      (run : Run)
      → All (IsBounded header_length) (answers id)
      → (send_all c serde pid fd answers peers (id ∷ ids) rest).outcome ≡ looped run
      → let later = send_all c serde pid fd answers peers ids rest in
        (h : Handler) × (handler_of peers id ≡ some h)
        × (send_all c serde pid fd answers peers (id ∷ ids) rest
            ≡ record later { sent = (h, greeting) ∷ later.sent })
  unfolding send_all
  one_more answers peers id ids rest run bounded e =
      let later = send_all c serde pid fd answers peers ids rest in
      let send =
        λ (h : Handler). send_message c serde pid h (Header.new pid 23) fd tt (answers id) in
      let (h, has, same) =
        with_peer-looped (handler_of peers id) (λ h. sent_or h (send h) later) run e in
      let (done, goes) =
        sent_or-looped h (send h) later run (sym (ap (λ (m : Main). m.outcome) same) ∙ e) in
      (
        h,
        has,
        same
            ∙ goes
            ∙ ap (λ (ps : List Packet). record later { sent = sent_on h ps ++ later.sent })
                (greeted h (answers id) bounded done),
      )

module _ (c : Libc) (serde : Serde (Unit {0})) (pid : ℕ) where
  abbrev in_loop : Option ℕ → List Peer → List ParentTurn → Main
  in_loop fd peers turns = with_peer (handler_of peers child_id) (λ one.
      with_peer (handler_of peers hello_id) (λ two.
        at_once (looped (parent_loop c serde pid fd turns (record { one = one; two = two })))))

  -- The loop of these peers, in which the program is.
  pub record InLoop (fd : Option ℕ) (peers : List Peer) (turns : List ParentTurn) (run : Run)
      : Type 0 where
    pub state : State
    pub has_child : handler_of peers child_id ≡ some state.one
    pub has_hello : handler_of peers hello_id ≡ some state.two
    pub is_loop : run ≡ parent_loop c serde pid fd turns state

  in_loop-InLoop :
      (fd : Option ℕ) (peers : List Peer) (turns : List ParentTurn) (run : Run)
      → (in_loop fd peers turns).outcome ≡ looped run
      → InLoop fd peers turns run × ((in_loop fd peers turns).sent ≡ [])
  in_loop-InLoop fd peers turns run e =
      let loop = λ (one two : Handler).
        at_once (looped (parent_loop c serde pid fd turns (record { one = one; two = two }))) in
      let then_hello = λ (one : Handler). with_peer (handler_of peers hello_id) (loop one) in
      let (one, has_one, same) = with_peer-looped (handler_of peers child_id) then_hello run e in
      let goes = sym (ap (λ (m : Main). m.outcome) same) ∙ e in
      let (two, has_two, last) = with_peer-looped (handler_of peers hello_id) (loop one) run goes in
      let ends = sym (ap (λ (m : Main). m.outcome) last) ∙ goes in
      (
        record {
          state = record { one = one; two = two };
          has_child = has_one;
          has_hello = has_two;
          is_loop = cc ends;
        },
        ap (λ (m : Main). m.sent) (same ∙ last),
      )

  module _ (empty : serde.serialize tt ≡ some []) (show_log : LogError → Str) (foreground : Bool)
      (host : Host) (peers : List Peer) (turns : List ParentTurn) (run : Run)
      (hello_bounded : All (IsBounded header_length) (host.answers hello_id))
      (child_bounded : All (IsBounded header_length) (host.answers child_id)) where
    abbrev first_packet : Packet
    first_packet = greeting c serde pid host.listener empty

    abbrev sends : Main
    sends =
        send_all c serde pid host.listener host.answers peers (but_parent process_ids)
          (in_loop host.listener peers turns)

    sends-looped :
        sends.outcome ≡ looped run
        → (l : InLoop host.listener peers turns run) × (sends.sent
            ≡ (l.state.two, first_packet) ∷ (l.state.one, first_packet) ∷ [])
    unfolding send_all
    sends-looped e =
        let last = in_loop host.listener peers turns in
        let (hello, has_hello, hello_sent) =
          one_more c serde pid host.listener empty host.answers peers hello_id (child_id ∷ []) last
            run hello_bounded e in
        let e' = sym (ap (λ (m : Main). m.outcome) hello_sent) ∙ e in
        let (child, has_child, child_sent) =
          one_more c serde pid host.listener empty host.answers peers child_id [] last run
            child_bounded e' in
        let (inside, none_sent) =
          in_loop-InLoop host.listener peers turns run
            (sym (ap (λ (m : Main). m.outcome) child_sent) ∙ e') in
        let same_hello : hello ≡ inside.state.two = cc (has_hello, inside.has_hello) in
        let same_child : child ≡ inside.state.one = cc (has_child, inside.has_child) in
        (
          inside,
          ap (λ (m : Main). m.sent) hello_sent
              ∙ ap (λ (m : Main). (hello, first_packet) ∷ m.sent) child_sent
              ∙ ap
                  (λ (ps : List (Handler × Packet)).
                    (hello, first_packet) ∷ (child, first_packet) ∷ ps)
                  none_sent
              ∙ ap₂ (λ (a b : Handler). (a, first_packet) ∷ (b, first_packet) ∷ []) same_hello
                  same_child,
        )

    detached :
        (if foreground then sends else with_daemon host.daemon sends).outcome ≡ looped run
        → ((foreground ≡ true) ⊎ (host.daemon ≡ some (ok tt)))
          × ((if foreground then sends else with_daemon host.daemon sends) ≡ sends)
    detached e = elim (Bool-cases foreground) [
      | inl in_front ↦ (inl in_front, rw (in_front) refl)
      | inr behind ↦
          let same : (if foreground then sends else with_daemon host.daemon sends)
              ≡ with_daemon host.daemon sends =
            ap (λ b. if b then sends else with_daemon host.daemon sends) behind in
          let (answer, goes) =
            with_daemon-looped host.daemon sends run
              (sym (ap (λ (m : Main). m.outcome) same) ∙ e) in
          (inr answer, same ∙ goes)
    ]

    -- With an empty payload that serializes to no bytes, over a kernel that takes no more than it is
    -- offered: when the parent is in its loop, its logger and its signal handler were installed, it
    -- is in the foreground or daemon has returned Ok in it, each of its two children has a handler
    -- in its select, and before the loop it has sent, first on hello's handler and then on the child's,
    -- one whole packet each, with message 23 and the descriptor of the listener, if it has one, and
    -- nothing else.
    pub parent_main-looped :
        (parent_main c serde pid show_log foreground host peers turns).outcome ≡ looped run
        → (host.logger ≡ ok tt)
          × (host.sigchld ≡ ok tt)
          × ((foreground ≡ true) ⊎ (host.daemon ≡ some (ok tt)))
          × (l : InLoop host.listener peers turns run) × ((parent_main c serde pid show_log
                foreground host peers turns).sent
              ≡ (l.state.two, packet c pid host.listener (Header.new pid 23))
                ∷ (l.state.one, packet c pid host.listener (Header.new pid 23))
                ∷ [])
    unfolding parent_main
    parent_main-looped e =
        let start = if foreground then sends else with_daemon host.daemon sends in
        let outcome = λ (m : Main). m.outcome in
        let (logger, logged) =
          with_logger-looped show_log host.logger (with_signal host.sigchld start) run e in
        let e1 = sym (ap outcome logged) ∙ e in
        let (sigchld, signalled) = with_signal-looped host.sigchld start run e1 in
        let e2 = sym (ap outcome signalled) ∙ e1 in
        let (in_front, detaches) = detached e2 in
        let (inside, packets) = sends-looped (sym (ap outcome detaches) ∙ e2) in
        (
          logger,
          sigchld,
          in_front,
          inside,
          ap (λ (m : Main). m.sent) (logged ∙ signalled ∙ detaches) ∙ packets,
        )
