-- ===== src/Imsg/Progress.antt =====
-- The loop of Handler::recv_message in privsep/src/imsg.rs.
use privsep_rs.Prelude.{
  ℕ, zero, suc, ◌<◌, ◌≡◌, ◌≢◌, inl, inr, refl, Bool-cases, Option, none, some, List, [], ◌∷◌,
  length, arith, Result, ok, err,
}
use privsep_rs.Ancillary.Cmsg.{Libc}
use privsep_rs.Stream.{IoError, pending, ready, RecvEvent, RecvResult, recv_vectored_with_ancillary}
use privsep_rs.Stream.Events.{recv-shortens}
use privsep_rs.Imsg.{Serde, Handler, fresh}
use privsep_rs.Imsg.Header.{Message}
use privsep_rs.Imsg.Recv.{
  Fds, Received, stuck, is_complete, deserialized, split_message, after_read, recv_loop, no_fds,
  recv_message,
}
use privsep_rs.Imsg.Receiving.{recv_loop_complete, recv_loop-read}

module _ (c : Libc) {T : Type 0} (serde : Serde T) where
  deserialized-ne-stuck :
      (m : Message) (rest : List ℕ) (fds : Fds) (events : List RecvEvent) (o : Option T)
      → (deserialized c serde m rest fds events o).progress ≢ stuck
  deserialized-ne-stuck m rest fds events none e = cc
  deserialized-ne-stuck m rest fds events (some payload) e = cc

  split_message-ne-stuck :
      (buf : List ℕ) (fds : Fds) (events : List RecvEvent)
      → (split_message c serde buf fds events).progress ≢ stuck
  unfolding split_message
  split_message-ne-stuck buf fds events = deserialized-ne-stuck _ _ fds events _

  after_read-ne-stuck :
      (buf : List ℕ) (fds : Fds) (again : List ℕ → Fds → List RecvEvent → Received T)
      (r : RecvResult)
      → ((b : List ℕ) (f : Fds) (x : Result IoError (List ℕ))
          → r.0 ≡ ready x
          → (again b f r.2).progress ≢ stuck)
      → (after_read c serde buf fds again r).progress ≢ stuck
  unfolding after_read
  after_read-ne-stuck buf fds again (pending, a, events) later = λ e. cc
  after_read-ne-stuck buf fds again (ready (err kind), a, events) later = λ e. cc
  after_read-ne-stuck buf fds again (ready (ok []), a, events) later = λ e. cc
  after_read-ne-stuck buf fds again (ready (ok (b ∷ bytes)), a, events) later =
      later _ _ (ok (b ∷ bytes)) refl

  recv_loop-ne-stuck :
      (fuel : ℕ) (buf : List ℕ) (fds : Fds) (events : List RecvEvent)
      → length events < fuel
      → (recv_loop c serde fuel buf fds events).progress ≢ stuck
  recv_loop-ne-stuck zero buf fds events h = absurd (omega arith)
  recv_loop-ne-stuck (suc fuel) buf fds events h = elim (Bool-cases (is_complete c buf)) [
    | inl whole ↦
        rw (recv_loop_complete c serde fuel buf fds events whole)
          (split_message-ne-stuck buf fds events)
    | inr part ↦ rw (recv_loop-read c serde fuel buf fds events part) (
        after_read-ne-stuck buf fds (recv_loop c serde fuel)
          (recv_vectored_with_ancillary events fresh)
          (λ b f x e.
            recv_loop-ne-stuck fuel b f _
              (omega (arith, recv-shortens events fresh _ x _ (shape e)))))
  ]
    where
      shape :
          {x : Result IoError (List ℕ)}
          → (recv_vectored_with_ancillary events fresh).0 ≡ ready x
          → recv_vectored_with_ancillary events fresh ≡ (
            ready x,
            (recv_vectored_with_ancillary events fresh).1,
            (recv_vectored_with_ancillary events fresh).2,
          )
      shape e = λ i. (
        e i,
        (recv_vectored_with_ancillary events fresh).1,
        (recv_vectored_with_ancillary events fresh).2,
      )

  -- The loop of a receive ends for any socket and any bytes: with as many rounds as there are events
  -- and one more, the model does not run out of rounds.
  pub recv_message-ne-stuck :
      (h : Handler) (events : List RecvEvent) → (recv_message c serde h events).progress ≢ stuck
  unfolding recv_message
  recv_message-ne-stuck h events = elim (Bool-cases h.shutdown) [
    | inl closed ↦ rw closed (λ e. cc)
    | inr open_handler ↦
        rw open_handler
          (recv_loop-ne-stuck (suc (length events)) h.read_buffer no_fds events (omega arith))
  ]
