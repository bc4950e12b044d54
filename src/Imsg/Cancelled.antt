-- ===== src/Imsg/Cancelled.antt =====
-- A call of Handler::recv_message of privsep/src/imsg.rs that is dropped while it waits, as
-- tokio::select! drops those of privsep/examples/simple.rs.
use privsep_rs.Prelude.{
  ℕ, suc, ◌<◌, ◌≡◌, inl, inr, refl, ap, sym, ◌∙◌, false, Bool-cases, none, some, List, [], ◌∷◌,
  ◌++◌, length, length-append, append-nil, arith, ok,
}
use mathlib.Core.Path.{ap₂}
use privsep_rs.Ancillary.{all_messages}
use privsep_rs.Ancillary.Cmsg.{Libc, IsLibc}
use privsep_rs.Stream.{received, RecvEvent, answered, recv_vectored_with_ancillary}
use privsep_rs.Imsg.{Serde, Handler}
use privsep_rs.Imsg.Header.{Message}
use privsep_rs.Imsg.Recv.{
  waiting, returned, Fds, Received, take_fd, take_fds, drop_fd, rights_of, is_complete,
  deserialized, after_read, recv_loop, no_fds, recv_message,
}
use privsep_rs.Imsg.Framing.{frame, IsFrame, length-frame, is_complete-frame}
use privsep_rs.Imsg.Receiving.{recv_loop-read}
use privsep_rs.Imsg.Transfer.{rights_of-nothing}
use privsep_rs.Imsg.OneRead.{
  with_control, recv_loop-frame, recv_message-open, after_read-bytes, recv_loop-first,
}

-- One read that brings these bytes and control data.
abbrev pub read_of : List ℕ → List ℕ → RecvEvent
read_of bytes control = answered (received bytes control false false)

module _ (c : Libc) {T : Type 0} (serde : Serde T) where
  -- The drop of a call drops its `fd_result`; the handler has the bytes.
  abbrev pub cancel : Received T → Received T
  cancel r = record r { fds = drop_fd r.fds }

  -- The handler after a call.
  abbrev pub after : Handler → Received T → Handler
  after h r = record h { read_buffer = r.read_buffer }

  module _ (m : Message) (payload : List ℕ) (f : IsFrame c m payload) (first second : List ℕ)
      (cut : first ++ second ≡ frame c m payload) (more : 0 < length second) where
    part : is_complete c first ≡ false
    part = elim (Bool-cases (is_complete c first)) [
      | inr e ↦ e
      | inl e ↦
          let fits =
            is_complete-frame c m payload f first second []
              (cut ∙ sym (append-nil (frame c m payload))) e in
          absurd (
            omega (
              arith,
              fits,
              more,
              f.total,
              length-frame c m payload,
              length-append first second,
              ap length cut,
            ))
    ]

    recv_loop-waits :
        (fuel : ℕ) (fds : Fds)
        → recv_loop c serde (suc fuel) first fds []
          ≡ record { progress = waiting; fds = fds; read_buffer = first; events = [] }
    unfolding after_read recv_vectored_with_ancillary
    recv_loop-waits fuel fds = recv_loop-read c serde fuel first fds [] part

    recv_loop-rest :
        (t : T) (control : List ℕ)
        → serde.deserialize payload ≡ some t
        → rights_of c (all_messages c (with_control control)) ≡ []
        → recv_loop c serde 2 first no_fds (read_of second control ∷ [])
          ≡ deserialized c serde m [] no_fds [] (some t)
    unfolding recv_vectored_with_ancillary
    recv_loop-rest t control read none_came =
        recv_loop-read c serde 1 first no_fds (read_of second control ∷ []) part
        ∙ after_read-bytes c serde first second no_fds (recv_loop c serde 1) (with_control control)
            [] more
        ∙ ap₂ (λ (b fds : List ℕ). recv_loop c serde 1 b (take_fds no_fds fds) [])
            (cut ∙ sym (append-nil (frame c m payload))) none_came
        ∙ unfold take_fds in recv_loop-frame c serde m payload [] t 0 no_fds [] f read

    -- On a platform that meets libc's contract, with an open handler and an empty buffer: when a first
    -- read brings the beginning of a frame with a descriptor, and the call is dropped while it waits
    -- for the rest, the descriptor is closed, and the next call, which reads the rest without control
    -- data, returns the message without one.
    pub recv_message-cancelled :
        (laws : IsLibc c) (t : T) (control : List ℕ) (fd : ℕ) (h : Handler)
        → 0 < length first
        → serde.deserialize payload ≡ some t
        → rights_of c (all_messages c (with_control control)) ≡ fd ∷ []
        → h.shutdown ≡ false
        → h.read_buffer ≡ []
        → let r = recv_message c serde h (read_of first control ∷ []) in
          (r.progress ≡ waiting)
          × ((cancel r).fds.closed ≡ fd ∷ [])
          × ((recv_message c serde (after h (cancel r)) (read_of second [] ∷ [])).progress
              ≡ returned (ok (some (m, none, t))))
    recv_message-cancelled laws t control fd h some_bytes read came open_handler empty = (
      ap (λ (r : Received T). r.progress) waits,
      ap (λ (r : Received T). (cancel r).fds.closed) waits,
      ap
            (λ (r : Received T).
              (recv_message c serde (after h (cancel r)) (read_of second [] ∷ [])).progress)
            waits
          ∙ ap (λ (r : Received T). r.progress)
              (recv_message-open c serde (record h { read_buffer = first }) first
                  (read_of second [] ∷ []) open_handler refl
                ∙ recv_loop-rest t [] read (rights_of-nothing c laws)),
    )
      where
        waits : recv_message c serde h (read_of first control ∷ []) ≡ record {
          progress = waiting;
          fds = record { held = some fd; closed = [] };
          read_buffer = first;
          events = [];
        }
        waits =
            recv_message-open c serde h [] (read_of first control ∷ []) open_handler empty
            ∙ recv_loop-first c serde first control 1 [] some_bytes
            ∙ ap (λ (fds : List ℕ). recv_loop c serde 1 first (take_fds no_fds fds) []) came
            ∙ unfold take_fds take_fd in recv_loop-waits 0 (record { held = some fd; closed = [] })
