-- ===== src/Simple/Kept.antt =====
-- The descriptors that the loops of privsep/examples/simple.rs receive.
use mathlib.Core.List.{Perm, perm_append_comm}
use mathlib.Core.List.Perm
use privsep_rs.Prelude.{
  ℕ, ◌≡◌, inl, inr, refl, ap, sym, subst, ◌∙◌, Bool, true, false, ◌&&◌, Option, none, some, List,
  [], ◌∷◌, ◌++◌, append-nil, append_assoc, Result, ok, err,
}
use privsep_rs.Ancillary.Cmsg.{Libc}
use privsep_rs.Stream.{IoError, Poll, pending, ready, SendEvent, RecvEvent, Packet}
use privsep_rs.Imsg.{Serde, Handler}
use privsep_rs.Imsg.Send.{send_message}
use privsep_rs.Imsg.Recv.{Progress, waiting, returned, stuck, Output, to_list}
use privsep_rs.Imsg.Cancelled.{cancel}
use privsep_rs.Imsg.Arrivals.{Arrived}
use privsep_rs.Imsg.Descriptors.{
  arrived, arrived-nil, arrived-Arrived, given, placed, recv_message-placed,
}
use privsep_rs.Process.{Str}
use privsep_rs.Simple.Select.{
  Arm, next, Done, Branch, State, chosen, passed_over, Turn, Taken, Run, selecting, is_nil,
  is_waiting, receive, dropped, turn, follow,
}
use privsep_rs.Simple.Turns.{Arm-cases, turn-cases}
use privsep_rs.Simple.Child.{after_warning, child_arm, child_loop}
use privsep_rs.Simple.Parent.{
  ParentTurn, reaped, message, parent_names, after_send, parent_arm, parent_loop,
}

is_nil-nil : {A : Type 0} (xs : List A) → is_nil xs ≡ true → xs ≡ []
is_nil-nil [] e = refl
is_nil-nil (x ∷ xs) e = cc e

given-waiting : (p : Progress (Output (Unit {0}))) → is_waiting p ≡ true → given p ≡ []
given-waiting waiting e = refl
given-waiting (returned x) e = cc
given-waiting stuck e = cc

and_parts : (a b : Bool) → (a && b) ≡ true → (a ≡ true) × (b ≡ true)
and_parts true b e = (refl, e)
and_parts false b e = cc e

module _ (c : Libc) (serde : Serde (Unit {0})) where
  -- The descriptors that came to the other call, and to both calls of a turn.
  abbrev pub came_to : Option (List RecvEvent) → List ℕ
  came_to none = []
  came_to (some events) = arrived c events

  abbrev pub came : Turn → List ℕ
  came t = arrived c t.events ++ came_to t.polled

  receive-closed :
      (h : Handler) (events : List RecvEvent)
      → is_nil (receive c serde h events).events ≡ true
      → Perm
          (given (receive c serde h events).progress
            ++ (cancel c serde (receive c serde h events)).fds.closed)
          (arrived c events)
  receive-closed h events e =
      let r = receive c serde h events in
      let none_left : arrived c r.events ≡ [] =
        ap (arrived c) (is_nil-nil r.events e) ∙ arrived-nil c in
      Perm.trans
        (Perm.append_left (given r.progress) (perm_append_comm r.fds.closed (to_list r.fds.held)))
        (subst (λ xs. Perm xs (arrived c events))
          (ap (λ (xs : List ℕ). placed r ++ xs) none_left ∙ append-nil (placed r))
          (recv_message-placed c serde h events))

  dropped-closed :
      (h : Handler) (polled : Option (List RecvEvent))
      → (dropped c serde h polled).0 ≡ true
      → Perm (dropped c serde h polled).2 (came_to polled)
  dropped-closed h none e = Perm.refl []
  dropped-closed h (some events) e =
      let r = receive c serde h events in
      let parts = and_parts (is_waiting r.progress) (is_nil r.events) e in
      subst (λ xs. Perm (xs ++ (cancel c serde r).fds.closed) (arrived c events))
        (given-waiting r.progress parts.0) (receive-closed h events parts.1)

  module _ (arm : Str → Handler → Progress (Output (Unit {0})) → List SendEvent → Done)
      (names : Branch → Str) where
    -- An arm that goes on has closed the descriptor of its message.
    abbrev pub ClosesOwn : Type 0
    ClosesOwn =
        (name : Str) (h : Handler) (p : Progress (Output (Unit {0}))) (answers : List SendEvent)
        → (arm name h p answers).0 ≡ next
        → (arm name h p answers).2 ≡ given p

    pub turn-Perm :
        ClosesOwn
        → (t : Turn) (s : State) → (turn c serde arm names t s).arm ≡ next
        → Perm (turn c serde arm names t s).closed (came t)
    turn-Perm closes t s goes =
        let h = chosen t.branch s in
        let r = receive c serde h t.events in
        let d = dropped c serde (passed_over t.branch s) t.polled in
        elim (turn-cases c serde arm names t s) [
          | inr is_none ↦ cc (goes, is_none)
          | inl (all_taken, waits, same) ↦
              let own = closes (names t.branch) h r.progress t.answers (cc (goes, same)) in
              subst (λ (x : Taken). Perm x.closed (came t)) (sym same)
                (subst (λ xs. Perm (xs ++ ((cancel c serde r).fds.closed ++ d.2)) (came t))
                  (sym own)
                  (subst (λ xs. Perm xs (came t))
                    (append_assoc (given r.progress) (cancel c serde r).fds.closed d.2)
                    (Perm.append (receive-closed h t.events all_taken)
                      (dropped-closed (passed_over t.branch s) t.polled waits))))
        ]

-- What the turns closed.
abbrev pub closed_by : List Taken → List ℕ
closed_by [] = []
closed_by (x ∷ turns) = x.closed ++ closed_by turns

after_warning-closed :
    (p : Poll (Result IoError (Unit {0}))) (packets : List Packet) (fds : List ℕ)
    → (after_warning p packets fds).0 ≡ next
    → (after_warning p packets fds).2 ≡ fds
after_warning-closed pending packets fds e = cc e
after_warning-closed (ready _) packets fds e = refl

after_send-closed :
    (p : Poll (Result IoError (Unit {0}))) (packets : List Packet) (fds : List ℕ)
    → (after_send p packets fds).0 ≡ next
    → (after_send p packets fds).2 ≡ fds
after_send-closed pending packets fds e = cc e
after_send-closed (ready (err kind)) packets fds e = cc
after_send-closed (ready (ok _)) packets fds e = refl

module _ (c : Libc) (serde : Serde (Unit {0})) (pid : ℕ) where
  child_arm-ClosesOwn : (names : Branch → Str) → ClosesOwn c serde (child_arm c serde pid) names
  child_arm-ClosesOwn names name h (returned (ok (some (m, fd, _)))) answers e =
      let s = send_message c serde pid h m none tt answers in
      after_warning-closed s.result s.packets (to_list fd) e
  child_arm-ClosesOwn names name h (returned (ok none)) answers e = cc
  child_arm-ClosesOwn names name h (returned (err kind)) answers e = cc
  child_arm-ClosesOwn names name h waiting answers e = cc
  child_arm-ClosesOwn names name h stuck answers e = cc

  parent_arm-ClosesOwn :
      (fd : Option ℕ) → ClosesOwn c serde (parent_arm c serde pid fd) parent_names
  parent_arm-ClosesOwn fd name h (returned (ok (some (m, own, _)))) answers e =
      let s = send_message c serde pid h m fd tt answers in
      after_send-closed s.result s.packets (to_list own) e
  parent_arm-ClosesOwn fd name h (returned (ok none)) answers e = cc
  parent_arm-ClosesOwn fd name h (returned (err kind)) answers e = cc
  parent_arm-ClosesOwn fd name h waiting answers e = cc
  parent_arm-ClosesOwn fd name h stuck answers e = cc

  -- The descriptors that came in these turns.
  abbrev pub came_in : List Turn → List ℕ
  came_in [] = []
  came_in (t ∷ turns) = came c serde t ++ came_in turns

  abbrev pub came_to_parent : List ParentTurn → List ℕ
  came_to_parent [] = []
  came_to_parent (reaped status ∷ turns) = came_to_parent turns
  came_to_parent (message t ∷ turns) = came c serde t ++ came_to_parent turns

  pub child_loop-closed :
      (names : Branch → Str) (turns : List Turn) (s now : State)
      → (child_loop c serde pid names turns s).ending ≡ selecting now
      → Perm (closed_by (child_loop c serde pid names turns s).turns) (came_in turns)
  unfolding child_loop
  child_loop-closed names [] s now e = Perm.refl []
  child_loop-closed names (u ∷ turns) s now e =
      let x = turn c serde (child_arm c serde pid) names u s in
      elim (Arm-cases x.arm) [
        | inl goes ↦
            let same = ap (λ (a : Arm). follow x a (child_loop c serde pid names turns)) goes in
            subst (λ (r : Run). Perm (closed_by r.turns) (came_in (u ∷ turns))) (sym same)
              (Perm.append
                (turn-Perm c serde (child_arm c serde pid) names (child_arm-ClosesOwn names) u s
                  goes)
                (child_loop-closed names turns x.state now
                  (sym (ap (λ (r : Run). r.ending) same) ∙ e)))
        | inr (inl (r, stops)) ↦ cc e
        | inr (inr last) ↦ absurd ((last x (child_loop c serde pid names turns)).1 now e)
      ]

  -- So does that of the parent.
  pub parent_loop-Perm :
      (fd : Option ℕ) (turns : List ParentTurn) (s now : State)
      → (parent_loop c serde pid fd turns s).ending ≡ selecting now
      → Perm (closed_by (parent_loop c serde pid fd turns s).turns) (came_to_parent turns)
  unfolding parent_loop
  parent_loop-Perm fd [] s now e = Perm.refl []
  parent_loop-Perm fd (reaped status ∷ turns) s now e = cc e
  parent_loop-Perm fd (message u ∷ turns) s now e =
      let x = turn c serde (parent_arm c serde pid fd) parent_names u s in
      elim (Arm-cases x.arm) [
        | inl goes ↦
            let same = ap (λ (a : Arm). follow x a (parent_loop c serde pid fd turns)) goes in
            subst (λ (r : Run). Perm (closed_by r.turns) (came_to_parent (message u ∷ turns)))
              (sym same)
              (Perm.append
                (turn-Perm c serde (parent_arm c serde pid fd) parent_names
                  (parent_arm-ClosesOwn fd) u s goes)
                (parent_loop-Perm fd turns x.state now (sym (ap (λ (r : Run). r.ending) same) ∙ e)))
        | inr (inl (r, stops)) ↦ cc e
        | inr (inr last) ↦ absurd ((last x (parent_loop c serde pid fd turns)).1 now e)
      ]

  -- The descriptors in the control messages that these turns read, for both calls.
  pub data CameIn : List Turn → List ℕ → Type 0 where
    no_turn : CameIn [] []
    one_call :
        (t : Turn) (turns : List Turn) (own more : List ℕ)
        → t.polled ≡ none
        → Arrived c t.events own
        → CameIn turns more
        → CameIn (t ∷ turns) (own ++ more)
    two_calls :
        (t : Turn) (turns : List Turn) (events : List RecvEvent) (own others more : List ℕ)
        → t.polled ≡ some events
        → Arrived c t.events own
        → Arrived c events others
        → CameIn turns more
        → CameIn (t ∷ turns) ((own ++ others) ++ more)

  with_polled :
      (t : Turn) (turns : List Turn) (more : List ℕ) (later : CameIn turns more)
      (polled : Option (List RecvEvent))
      → t.polled ≡ polled
      → CameIn (t ∷ turns) ((arrived c t.events ++ came_to c serde polled) ++ more)
  with_polled t turns more later none e =
      subst (λ (xs : List ℕ). CameIn (t ∷ turns) (xs ++ more))
        (sym (append-nil (arrived c t.events)))
        (one_call t turns (arrived c t.events) more e (arrived-Arrived c t.events) later)
  with_polled t turns more later (some events) e =
      two_calls t turns events (arrived c t.events) (arrived c events) more e
        (arrived-Arrived c t.events) (arrived-Arrived c events) later

  came_in-CameIn : (turns : List Turn) → CameIn turns (came_in turns)
  came_in-CameIn [] = no_turn
  came_in-CameIn (t ∷ turns) =
      with_polled t turns (came_in turns) (came_in-CameIn turns) t.polled refl

  -- The loop of a child keeps no descriptor: when it is back in its select, it has closed all those in
  -- the control messages that came with the data of its reads, in whatever pieces and also to calls
  -- that were dropped, each as often as it came.
  pub child_loop-Perm :
      (names : Branch → Str) (turns : List Turn) (s now : State)
      → (child_loop c serde pid names turns s).ending ≡ selecting now
      → (came : List ℕ) × CameIn turns came
        × Perm (closed_by (child_loop c serde pid names turns s).turns) came
  child_loop-Perm names turns s now e =
      (came_in turns, came_in-CameIn turns, child_loop-closed names turns s now e)
