-- ===== src/Imsg/Live.antt =====
-- Handler::recv_message of privsep/src/imsg.rs on a part of the bytes of a live peer: a call that is
-- given up while it waits.
use privsep_rs.Prelude.{
  ℕ, zero, suc, ◌<◌, ◌≡◌, ◌⊎◌, inl, inr, refl, ap, sym, subst, ◌∙◌, false, Bool-cases, List, [],
  ◌∷◌, ◌++◌, length, drop, append_assoc, append-nil, All, arith, ok,
}
use mathlib.Core.Path.{ap₂}
use privsep_rs.Ancillary.{all_messages}
use privsep_rs.Ancillary.Cmsg.{Libc}
use privsep_rs.Stream.{RecvEvent, pending}
use privsep_rs.Stream.Events.{stream, IsLive, recv-shortens, recv-IsLive}
use privsep_rs.Imsg.{Serde, Handler, fresh}
use privsep_rs.Imsg.Header.{Message}
use privsep_rs.Imsg.Recv.{
  waiting, Fds, Received, take_fds, rights_of, is_complete, deserialized, after_read, recv_loop,
  no_fds, recv_message,
}
use privsep_rs.Imsg.Framing.{frame, IsFrame, is_complete-frame, drop-frame, split_message-frame}
use privsep_rs.Imsg.Receiving.{
  recv_loop_complete, recv_loop-read, recv_loop-again, deserialized_rest,
}

module _ (c : Libc) {T : Type 0} (serde : Serde T) where
  -- A receive that has taken a frame off the bytes, of which `later` has not been delivered.
  pub record Taken (m : Message) (payload later rest : List ℕ) (r : Received T) : Type 0 where
    pub fds : Fds
    pub outcome : r ≡ deserialized c serde m r.read_buffer fds r.events (serde.deserialize payload)
    pub unread : r.read_buffer ++ (stream r.events ++ later) ≡ rest
    pub live : All IsLive r.events

  -- A receive that waits, with all that was delivered in the read buffer.
  pub record Held (bytes : List ℕ) (r : Received T) : Type 0 where
    pub waits : r.progress ≡ waiting
    pub drained : r.events ≡ []
    pub kept : r.read_buffer ≡ bytes

  after_read-pending :
      (buf : List ℕ) (fds : Fds) (again : List ℕ → Fds → List RecvEvent → Received T)
      → Held buf (after_read c serde buf fds again (pending, fresh, []))
  unfolding after_read
  after_read-pending buf fds again = record { waits = refl; drained = refl; kept = refl }

  module _ (m : Message) (payload : List ℕ) (f : IsFrame c m payload) (rest later : List ℕ) where
    deserialized-Taken :
        (buf : List ℕ) (fds : Fds) (events : List RecvEvent)
        → All IsLive events
        → buf ++ (stream events ++ later) ≡ rest
        → Taken m payload later rest
            (deserialized c serde m buf fds events (serde.deserialize payload))
    deserialized-Taken buf fds events live same =
        let (same_buf, same_events) =
          deserialized_rest c serde m buf fds events (serde.deserialize payload) in
        record {
          fds = fds;
          outcome =
              ap₂
                (λ (b : List ℕ) (es : List RecvEvent).
                  deserialized c serde m b fds es (serde.deserialize payload))
                (sym same_buf) (sym same_events);
          unread =
              ap₂ (λ (b : List ℕ) (es : List RecvEvent). b ++ (stream es ++ later)) same_buf
                same_events
              ∙ same;
          live = subst (All IsLive) (sym same_events) live;
        }

    recv_loop-live :
        (fuel : ℕ) (buf : List ℕ) (fds : Fds) (events : List RecvEvent)
        → All IsLive events
        → length events < fuel
        → buf ++ (stream events ++ later) ≡ frame c m payload ++ rest
        → Taken m payload later rest (recv_loop c serde fuel buf fds events)
          ⊎ Held (buf ++ stream events) (recv_loop c serde fuel buf fds events)
    recv_loop-live zero buf fds events live enough same = absurd (omega arith)
    recv_loop-live (suc fuel) buf fds events live enough same =
        elim (Bool-cases (is_complete c buf)) [
          | inl whole ↦
              let fits =
                is_complete-frame c m payload f buf (stream events ++ later) rest same whole in
              inl (
                rw
                  (recv_loop_complete c serde fuel buf fds events whole
                    ∙ split_message-frame c m payload f buf (stream events ++ later) rest same serde
                        fds events fits)
                  (deserialized-Taken (drop m.length buf) fds events live
                    (drop-frame c m payload f buf (stream events ++ later) rest same fits)))
          | inr part ↦ elim (recv-IsLive events fresh live) [
            | inl (e, none_left) ↦ inr (
                rw (recv_loop-read c serde fuel buf fds events part, e, none_left, append-nil buf)
                  (after_read-pending buf fds (recv_loop c serde fuel)))
            | inr (b, bytes, a, others, e, split, live') ↦
                let both =
                  append_assoc buf (b ∷ bytes) (stream others)
                  ∙ ap (λ (t : List ℕ). buf ++ t) (sym split) in
                rw
                  (
                    recv_loop-read c serde fuel buf fds events part,
                    e,
                    recv_loop-again c serde fuel buf fds b bytes a others,
                    ← both,
                  )
                  (recv_loop-live fuel (buf ++ (b ∷ bytes))
                    (take_fds fds (rights_of c (all_messages c a))) others live'
                    (omega (arith, recv-shortens events fresh a (ok (b ∷ bytes)) others e))
                    (sym (append_assoc (buf ++ (b ∷ bytes)) (stream others) later)
                      ∙ ap (λ (t : List ℕ). t ++ later) both
                      ∙ append_assoc buf (stream events) later
                      ∙ same))
          ]
        ]

    -- With an open handler and a live peer: if the read buffer, what is delivered and what is not yet
    -- delivered begin with a frame, a receive takes that frame, or waits with all delivered bytes kept
    -- in the handler.
    pub recv_message-live :
        (h : Handler) (events : List RecvEvent)
        → h.shutdown ≡ false
        → All IsLive events
        → h.read_buffer ++ (stream events ++ later) ≡ frame c m payload ++ rest
        → Taken m payload later rest (recv_message c serde h events)
          ⊎ Held (h.read_buffer ++ stream events) (recv_message c serde h events)
    unfolding recv_message
    recv_message-live h events open_handler live same =
        rw open_handler
          (recv_loop-live (suc (length events)) h.read_buffer no_fds events live (omega arith) same)

  -- With no byte to come, a receive waits.
  pub recv_message-silent :
      (h : Handler) (events : List RecvEvent)
      → h.shutdown ≡ false
      → h.read_buffer ≡ []
      → All IsLive events
      → stream events ≡ []
      → Held [] (recv_message c serde h events)
  unfolding recv_message is_complete
  recv_message-silent h events open_handler empty live silent =
      elim (recv-IsLive events fresh live) [
        | inl (e, _) ↦
            rw
              (open_handler, empty, recv_loop-read c serde (length events) [] no_fds events refl, e)
              (after_read-pending [] no_fds (recv_loop c serde (length events)))
        | inr (b, bytes, a, others, e, split, _) ↦ cc
      ]
