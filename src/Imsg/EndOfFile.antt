-- ===== src/Imsg/EndOfFile.antt =====
-- Handler::recv_message of privsep/src/imsg.rs when the peer closes the connection.
use privsep_rs.Prelude.{
  ℕ, zero, suc, ◌<◌, ◌≡◌, ◌≢◌, inl, inr, refl, ap, sym, ◌∙◌, false, Bool-cases, Option, none, some,
  List, [], ◌∷◌, ◌++◌, length, length-append, arith, Result, ok, err,
}
use privsep_rs.Ancillary.{SocketAncillary, all_messages}
use privsep_rs.Ancillary.Cmsg.{Libc}
use privsep_rs.Stream.{
  IoError, would_block, pending, ready, recv_failed, received, RecvEvent, unreadable, answered,
  RecvResult, recv_vectored_with_ancillary,
}
use privsep_rs.Stream.Events.{recv-shortens}
use privsep_rs.Imsg.{Serde, Handler, fresh}
use privsep_rs.Imsg.Header.{Message}
use privsep_rs.Imsg.Recv.{
  Fds, Received, waiting, returned, drop_fd, take_fds, rights_of, is_complete, deserialized,
  split_message, after_read, recv_loop, no_fds, recv_message,
}
use privsep_rs.Imsg.Receiving.{recv_loop_complete, recv_loop-read}

-- A read of no byte, which is the end of file.
abbrev pub end_of_file : RecvEvent
end_of_file = answered (received [] [] false false)

-- A read waits after these events, and gets the end of file behind them; or it is done, whatever follows.
data Continues (events tail : List RecvEvent) (a : SocketAncillary) : Type 0 where
  waits :
      (a' : SocketAncillary)
      → recv_vectored_with_ancillary events a ≡ (pending, a, [])
      → recv_vectored_with_ancillary (events ++ (end_of_file ∷ tail)) a ≡ (ready (ok []), a', tail)
      → Continues events tail a
  reads :
      (x : Result IoError (List ℕ)) (a' : SocketAncillary) (rest : List RecvEvent)
      → recv_vectored_with_ancillary events a ≡ (ready x, a', rest)
      → recv_vectored_with_ancillary (events ++ (end_of_file ∷ tail)) a
        ≡ (ready x, a', rest ++ (end_of_file ∷ tail))
      → Continues events tail a

recv-Continues : (events tail : List RecvEvent) (a : SocketAncillary) → Continues events tail a
unfolding recv_vectored_with_ancillary
recv-Continues [] tail a = waits _ refl refl
recv-Continues (unreadable kind ∷ events) tail a = reads _ _ _ refl refl
recv-Continues (answered (received bytes control ctrunc trunc) ∷ events) tail a =
    reads _ _ _ refl refl
recv-Continues (answered (recv_failed would_block) ∷ events) tail a =
    elim (recv-Continues events tail a) [
      | waits a' e f ↦ waits a' e f
      | reads x a' rest e f ↦ reads x a' rest e f
    ]
recv-Continues (answered (recv_failed _) ∷ events) tail a = reads _ _ _ refl refl

module _ (c : Libc) {T : Type 0} (serde : Serde T) where
  -- What becomes of a receive that waits.
  abbrev pub closed_after : Received T → List RecvEvent → Received T
  closed_after r tail = record {
    progress = returned (ok none);
    fds = drop_fd r.fds;
    read_buffer = r.read_buffer;
    events = tail;
  }

  deserialized-ne-waiting :
      (m : Message) (rest : List ℕ) (fds : Fds) (events : List RecvEvent) (o : Option T)
      → (deserialized c serde m rest fds events o).progress ≢ waiting
  deserialized-ne-waiting m rest fds events none e = cc e
  deserialized-ne-waiting m rest fds events (some payload) e = cc e

  split_message-ne-waiting :
      (buf : List ℕ) (fds : Fds) (events : List RecvEvent)
      → (split_message c serde buf fds events).progress ≢ waiting
  unfolding split_message
  split_message-ne-waiting buf fds events = deserialized-ne-waiting _ _ fds events _

  after_read-closed :
      (buf : List ℕ) (fds : Fds) (again more : List ℕ → Fds → List RecvEvent → Received T)
      (x : Result IoError (List ℕ)) (a : SocketAncillary) (rest tail : List RecvEvent)
      → ((b : List ℕ) (f : Fds)
          → (again b f rest).progress ≡ waiting
          → more b f (rest ++ (end_of_file ∷ tail)) ≡ closed_after (again b f rest) tail)
      → (after_read c serde buf fds again (ready x, a, rest)).progress ≡ waiting
      → after_read c serde buf fds more (ready x, a, rest ++ (end_of_file ∷ tail))
        ≡ closed_after (after_read c serde buf fds again (ready x, a, rest)) tail
  unfolding after_read
  after_read-closed buf fds again more (err kind) a rest tail ih e = cc e
  after_read-closed buf fds again more (ok []) a rest tail ih e = cc e
  after_read-closed buf fds again more (ok (b ∷ bytes)) a rest tail ih e =
      ih (buf ++ (b ∷ bytes)) (take_fds fds (rights_of c (all_messages c a))) e

  read-closed :
      (buf : List ℕ) (fds : Fds) (again more : List ℕ → Fds → List RecvEvent → Received T)
      (events tail : List RecvEvent)
      → ((b : List ℕ) (f : Fds) (rest : List RecvEvent)
          → length rest < length events
          → (again b f rest).progress ≡ waiting
          → more b f (rest ++ (end_of_file ∷ tail)) ≡ closed_after (again b f rest) tail)
      → Continues events tail fresh
      → (after_read c serde buf fds again (recv_vectored_with_ancillary events fresh)).progress
        ≡ waiting
      → after_read c serde buf fds more
          (recv_vectored_with_ancillary (events ++ (end_of_file ∷ tail)) fresh)
        ≡ closed_after
            (after_read c serde buf fds again (recv_vectored_with_ancillary events fresh))
            tail
  unfolding after_read
  read-closed buf fds again more events tail ih (waits a' e f) w =
      ap (after_read c serde buf fds more) f
      ∙ ap (λ (r : RecvResult). closed_after (after_read c serde buf fds again r) tail) (sym e)
  read-closed buf fds again more events tail ih (reads x a' rest e f) w =
      ap (after_read c serde buf fds more) f
      ∙ after_read-closed buf fds again more x a' rest tail
          (λ b g. ih b g rest (recv-shortens events fresh a' x rest e))
          (ap (λ (r : RecvResult). (after_read c serde buf fds again r).progress) (sym e) ∙ w)
      ∙ ap (λ (r : RecvResult). closed_after (after_read c serde buf fds again r) tail) (sym e)

  recv_loop-closed :
      (fuel fuel' : ℕ) (buf : List ℕ) (fds : Fds) (events tail : List RecvEvent)
      → length events < fuel
      → length events < fuel'
      → (recv_loop c serde fuel buf fds events).progress ≡ waiting
      → recv_loop c serde fuel' buf fds (events ++ (end_of_file ∷ tail))
        ≡ closed_after (recv_loop c serde fuel buf fds events) tail
  recv_loop-closed zero fuel' buf fds events tail h h' e = absurd (omega arith)
  recv_loop-closed (suc fuel) zero buf fds events tail h h' e = absurd (omega arith)
  recv_loop-closed (suc fuel) (suc fuel') buf fds events tail h h' e =
      elim (Bool-cases (is_complete c buf)) [
        | inl whole ↦ absurd (
            split_message-ne-waiting buf fds events (
              ap (λ (r : Received T). r.progress)
                (sym (recv_loop_complete c serde fuel buf fds events whole))
              ∙ e))
        | inr part ↦
            let now = recv_loop-read c serde fuel buf fds events part in
            let then_closed =
              recv_loop-read c serde fuel' buf fds (events ++ (end_of_file ∷ tail)) part in
            let waits_on = ap (λ (r : Received T). r.progress) (sym now) ∙ e in
            then_closed
            ∙ read-closed buf fds (recv_loop c serde fuel) (recv_loop c serde fuel') events tail
                (λ b f rest fewer w.
                  recv_loop-closed fuel fuel' b f rest tail (omega (arith, h, fewer))
                    (omega (arith, h', fewer)) w)
                (recv-Continues events tail fresh) waits_on
            ∙ ap (λ (r : Received T). closed_after r tail) (sym now)
      ]

  -- When a receive of an open handler waits behind some answers of the socket, and an end of file is the
  -- next one, it returns Ok with no message, closes the descriptor that it holds, leaves what it has
  -- read in the read buffer, and asks the socket no further.
  pub recv_message-closed :
      (h : Handler) (events tail : List RecvEvent)
      → h.shutdown ≡ false
      → (recv_message c serde h events).progress ≡ waiting
      → recv_message c serde h (events ++ (end_of_file ∷ tail))
        ≡ closed_after (recv_message c serde h events) tail
  unfolding recv_message
  recv_message-closed h events tail open_handler = rw open_handler (
      recv_loop-closed (suc (length events)) (suc (length (events ++ (end_of_file ∷ tail))))
        h.read_buffer no_fds events tail (omega arith)
        (omega (arith, length-append events (end_of_file ∷ tail))))
