-- ===== src/Simple/Turns.antt =====
-- The turns of the loops of privsep/examples/simple.rs.
use privsep_rs.Prelude.{
  ℕ, ◌≡◌, ◌≢◌, ◌⊎◌, inl, inr, refl, Bool, true, false, Bool-cases, List, Result,
}
use privsep_rs.Ancillary.Cmsg.{Libc}
use privsep_rs.Stream.{SendEvent}
use privsep_rs.Imsg.{Serde, Handler}
use privsep_rs.Imsg.Recv.{Progress, Output, Received}
use privsep_rs.Process.{Str}
use privsep_rs.Error.{Error}
use privsep_rs.Simple.Select.{
  Arm, next, stop, stalled, impossible, Done, Branch, State, chosen, passed_over, Turn, Taken, Run,
  broke, selecting, is_nil, impossible_turn, receive, dropped, happened, on_result, taken, turn,
  follow,
}

-- An arm goes on, breaks, or is the last thing that the program does.
pub Arm-cases :
    (a : Arm)
    → (a ≡ next)
      ⊎ (((r : Result Error (Unit {0})) × (a ≡ stop r))
          ⊎ ((x : Taken) (rest : State → Run)
              → ((r : Result Error (Unit {0})) → (follow x a rest).ending ≢ broke r)
                × ((s : State) → (follow x a rest).ending ≢ selecting s)))
Arm-cases next = inl refl
Arm-cases (stop r) = inr (inl (r, refl))
Arm-cases stalled = inr (inr (λ x rest. (λ r e. cc e, λ s e. cc e)))
Arm-cases impossible = inr (inr (λ x rest. (λ r e. cc e, λ s e. cc e)))

module _ (c : Libc) (serde : Serde (Unit {0}))
    (arm : Str → Handler → Progress (Output (Unit {0})) → List SendEvent → Done)
    (names : Branch → Str) where
  -- A turn happens, when the other call waits and no answer is left, or is none.
  pub taken-cases :
      (t : Turn) (s : State) (r : Received (Unit {0})) (d : Bool × Handler × List ℕ)
      → ((is_nil r.events ≡ true)
          × (d.0 ≡ true)
          × (taken c serde arm names t s r d
              ≡ happened c serde t s r d.1 d.2 (on_result c serde arm names t s r)))
        ⊎ (taken c serde arm names t s r d ≡ impossible_turn s)
  taken-cases t s r (false, g, closed) = elim (Bool-cases (is_nil r.events)) [
    | inl e ↦ inr (rw e refl)
    | inr e ↦ inr (rw e refl)
  ]
  taken-cases t s r (true, g, closed) = elim (Bool-cases (is_nil r.events)) [
    | inl e ↦ inl (e, refl, rw e refl)
    | inr e ↦ inr (rw e refl)
  ]

  pub turn-cases :
      (t : Turn) (s : State)
      → let r = receive c serde (chosen t.branch s) t.events in
        let d = dropped c serde (passed_over t.branch s) t.polled in
        ((is_nil r.events ≡ true)
          × (d.0 ≡ true)
          × (turn c serde arm names t s
              ≡ happened c serde t s r d.1 d.2 (on_result c serde arm names t s r)))
        ⊎ (turn c serde arm names t s ≡ impossible_turn s)
  turn-cases t s =
      taken-cases t s (receive c serde (chosen t.branch s) t.events)
        (dropped c serde (passed_over t.branch s) t.polled)

  -- A turn whose arm does this is one whose result made the arm do it.
  pub turn-arm :
      (t : Turn) (s : State) (a : Arm)
      → (turn c serde arm names t s).arm ≡ a
      → a ≢ impossible
      → (on_result c serde arm names t s (receive c serde (chosen t.branch s) t.events)).0 ≡ a
  turn-arm t s a e possible = elim (turn-cases t s) [
    | inl (_, _, same) ↦ cc (e, same)
    | inr none ↦ absurd (possible (cc (e, none)))
  ]
