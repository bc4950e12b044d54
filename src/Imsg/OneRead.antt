-- ===== src/Imsg/OneRead.antt =====
-- `recv_message` of privsep/src/imsg.rs where one read brings a whole frame.
use privsep_rs.Prelude.{
  ℕ, suc, ◌<◌, ◌≡◌, refl, sym, ◌∙◌, true, false, Option, some, List, [], ◌∷◌, ◌++◌, length, drop,
  append-nil, arith, ok,
}
use mathlib.Core.Path.{ap₂}
use privsep_rs.Ancillary.{SocketAncillary, all_messages}
use privsep_rs.Ancillary.Cmsg.{Libc}
use privsep_rs.Stream.{
  ready, received, RecvEvent, answered, recv_vectored_with_ancillary_from,
  recv_vectored_with_ancillary,
}
use privsep_rs.Imsg.{Serde, Handler, fresh}
use privsep_rs.Imsg.Header.{Message}
use privsep_rs.Imsg.Recv.{
  Fds, Received, take_fds, rights_of, is_complete, deserialized, after_read, recv_loop, no_fds,
  recv_message,
}
use privsep_rs.Imsg.Framing.{frame, IsFrame, is_complete-frame, drop-frame, split_message-frame}
use privsep_rs.Imsg.Receiving.{recv_loop_complete, recv_loop-read, whole_frame}

-- The ancillary buffer of a receive that was given this control data.
abbrev pub with_control : List ℕ → SocketAncillary
with_control control = (recv_vectored_with_ancillary_from (received [] control false false) fresh).1

module _ (c : Libc) {T : Type 0} (serde : Serde T) where
  -- A frame at the front of the buffer is returned at once.
  pub recv_loop-frame :
      (m : Message) (payload rest : List ℕ) (t : T) (fuel : ℕ) (fds : Fds) (events : List RecvEvent)
      → IsFrame c m payload
      → serde.deserialize payload ≡ some t
      → recv_loop c serde (suc fuel) (frame c m payload ++ rest) fds events
        ≡ deserialized c serde m rest fds events (some t)
  recv_loop-frame m payload rest t fuel fds events f read =
      let buf = frame c m payload ++ rest in
      let fits = is_complete-frame c m payload f buf [] rest (append-nil buf) whole in
      recv_loop_complete c serde fuel buf fds events whole
      ∙ split_message-frame c m payload f buf [] rest (append-nil buf) serde fds events fits
      ∙ ap₂ (λ (b : List ℕ) (o : Option T). deserialized c serde m b fds events o)
          (sym (append-nil (drop m.length buf))
            ∙ drop-frame c m payload f buf [] rest (append-nil buf) fits)
          read
    where
      whole : is_complete c (frame c m payload ++ rest) ≡ true
      whole = whole_frame c serde m payload f rest (frame c m payload ++ rest) refl

  pub recv_message-open :
      (h : Handler) (buf : List ℕ) (events : List RecvEvent)
      → h.shutdown ≡ false
      → h.read_buffer ≡ buf
      → recv_message c serde h events ≡ recv_loop c serde (suc (length events)) buf no_fds events
  unfolding recv_message
  recv_message-open h buf events open_handler same = rw (open_handler, same)

  -- A read of some bytes, and the next round.
  pub after_read-bytes :
      (buf bytes : List ℕ) (fds : Fds) (again : List ℕ → Fds → List RecvEvent → Received T)
      (a : SocketAncillary) (events : List RecvEvent)
      → 0 < length bytes
      → after_read c serde buf fds again (ready (ok bytes), a, events)
        ≡ again (buf ++ bytes) (take_fds fds (rights_of c (all_messages c a))) events
  unfolding after_read
  after_read-bytes buf [] fds again a events h = absurd (omega arith)
  after_read-bytes buf (b ∷ bytes) fds again a events h = refl

  pub recv_loop-first :
      (bytes control : List ℕ) (fuel : ℕ) (events : List RecvEvent)
      → 0 < length bytes
      → recv_loop c serde
          (suc fuel)
          []
          no_fds
          (answered (received bytes control false false) ∷ events)
        ≡ recv_loop c serde fuel bytes
            (take_fds no_fds (rights_of c (all_messages c (with_control control))))
            events
  unfolding recv_vectored_with_ancillary is_complete
  recv_loop-first bytes control fuel events h =
      recv_loop-read c serde fuel [] no_fds (answered (received bytes control false false) ∷ events)
        refl
      ∙ after_read-bytes [] bytes no_fds (recv_loop c serde fuel) (with_control control) events h
