-- ===== src/Imsg/Receiving.antt =====
-- Handler::recv_message of privsep/src/imsg.rs, with a peer that lives.
use privsep_rs.Prelude.{
  ℕ, zero, suc, ◌<◌, ◌≡◌, inl, inr, refl, ap, sym, subst, ◌∙◌, true, false, Bool-cases, Option,
  none, some, List, [], ◌∷◌, ◌++◌, map, length, drop, length-append, append_assoc, append-nil, All,
  arith, ok, err, leb, le→leb,
}
use mathlib.Core.Path.{ap₂}
use privsep_rs.Ancillary.{SocketAncillary, all_messages}
use privsep_rs.Ancillary.Cmsg.{Libc}
use privsep_rs.Stream.{invalid_data, ready, RecvEvent, recv_vectored_with_ancillary}
use privsep_rs.Stream.Events.{stream, IsLive, recv-shortens, recv-IsLive}
use privsep_rs.Imsg.{Serde, Handler, fresh}
use privsep_rs.Imsg.Header.{Message}
use privsep_rs.Imsg.Recv.{
  Progress, returned, Output, Fds, Received, take_fds, rights_of, is_complete, deserialized,
  split_message, after_read, recv_loop, no_fds, recv_message,
}
use privsep_rs.Imsg.Framing.{
  frame, IsFrame, FrameRead, length-frame, peek-frame, is_complete-frame, drop-frame,
  split_message-frame,
}

module _ (c : Libc) {T : Type 0} (serde : Serde T) where
  pub recv_loop_complete :
      (fuel : ℕ) (buf : List ℕ) (fds : Fds) (events : List RecvEvent)
      → is_complete c buf ≡ true
      → recv_loop c serde (suc fuel) buf fds events ≡ split_message c serde buf fds events
  unfolding recv_loop
  recv_loop_complete fuel buf fds events e = rw e

  pub recv_loop-read :
      (fuel : ℕ) (buf : List ℕ) (fds : Fds) (events : List RecvEvent)
      → is_complete c buf ≡ false
      → recv_loop c serde (suc fuel) buf fds events
        ≡ after_read c serde buf fds
            (recv_loop c serde fuel)
            (recv_vectored_with_ancillary events fresh)
  unfolding recv_loop
  recv_loop-read fuel buf fds events e = rw e

  pub recv_loop-again :
      (fuel : ℕ) (buf : List ℕ) (fds : Fds) (b : ℕ) (bytes : List ℕ) (a : SocketAncillary)
      (events : List RecvEvent)
      → after_read c serde buf fds (recv_loop c serde fuel) (ready (ok (b ∷ bytes)), a, events)
        ≡ recv_loop c serde fuel
            (buf ++ (b ∷ bytes))
            (take_fds fds (rights_of c (all_messages c a)))
            events
  unfolding after_read
  recv_loop-again fuel buf fds b bytes a events = refl

  pub deserialized_rest :
      (m : Message) (rest : List ℕ) (fds : Fds) (events : List RecvEvent) (o : Option T)
      → ((deserialized c serde m rest fds events o).read_buffer ≡ rest)
        × ((deserialized c serde m rest fds events o).events ≡ events)
  deserialized_rest m rest fds events none = (refl, refl)
  deserialized_rest m rest fds events (some payload) = (refl, refl)

  module _ (m : Message) (payload : List ℕ) (f : IsFrame c m payload) (rest : List ℕ) where
    -- A buffer that starts with the whole frame is complete.
    pub whole_frame : (buf : List ℕ) → buf ≡ frame c m payload ++ rest → is_complete c buf ≡ true
    unfolding is_complete
    whole_frame buf e =
        let size = ap length e ∙ length-append (frame c m payload) rest in
        let peeked =
          peek-frame c m payload f buf [] rest (append-nil buf ∙ e)
            (omega (arith, size, length-frame c m payload)) in
        rw (le→leb 16 (length buf) (omega (arith, size, length-frame c m payload))) (
          ap (λ (x : Message). leb x.length (length buf)) peeked
          ∙ le→leb m.length (length buf) (omega (arith, size, f.total, length-frame c m payload)))

    deserialized-FrameRead :
        (buf : List ℕ) (fds : Fds) (events : List RecvEvent)
        → All IsLive events
        → buf ++ stream events ≡ rest
        → FrameRead c serde m payload rest
            (deserialized c serde m buf fds events (serde.deserialize payload))
    deserialized-FrameRead buf fds events live same =
        let (same_buf, same_events) =
          deserialized_rest m buf fds events (serde.deserialize payload) in
        record {
          fds = fds;
          outcome =
              ap₂
                (λ (b : List ℕ) (es : List RecvEvent).
                  deserialized c serde m b fds es (serde.deserialize payload))
                (sym same_buf) (sym same_events);
          unread =
              ap₂ (λ (b : List ℕ) (es : List RecvEvent). b ++ stream es) same_buf same_events
              ∙ same;
          live = subst (All IsLive) (sym same_events) live;
        }

    recv_loop-FrameRead :
        (fuel : ℕ) (buf : List ℕ) (fds : Fds) (events : List RecvEvent)
        → All IsLive events
        → length events < fuel
        → buf ++ stream events ≡ frame c m payload ++ rest
        → FrameRead c serde m payload rest (recv_loop c serde fuel buf fds events)
    recv_loop-FrameRead zero buf fds events live enough same = absurd (omega arith)
    recv_loop-FrameRead (suc fuel) buf fds events live enough same =
        elim (Bool-cases (is_complete c buf)) [
          | inl whole ↦
              let fits = is_complete-frame c m payload f buf (stream events) rest same whole in
              rw
                (recv_loop_complete fuel buf fds events whole
                  ∙ split_message-frame c m payload f buf (stream events) rest same serde fds events
                      fits)
                (deserialized-FrameRead (drop m.length buf) fds events live
                  (drop-frame c m payload f buf (stream events) rest same fits))
          | inr part ↦ elim (recv-IsLive events fresh live) [
            | inl (_, none_left) ↦ cc (
              part,
              whole_frame buf
                  (sym (append-nil buf) ∙ ap (λ (t : List ℕ). buf ++ t) (sym none_left) ∙ same),
            )
            | inr (b, bytes, a, later, e, split, live') ↦
                rw
                  (
                    recv_loop-read fuel buf fds events part,
                    e,
                    recv_loop-again fuel buf fds b bytes a later,
                  )
                  (recv_loop-FrameRead fuel (buf ++ (b ∷ bytes))
                    (take_fds fds (rights_of c (all_messages c a))) later live'
                    (omega (arith, recv-shortens events fresh a (ok (b ∷ bytes)) later e))
                    (append_assoc buf (b ∷ bytes) (stream later)
                      ∙ ap (λ (t : List ℕ). buf ++ t) (sym split)
                      ∙ same))
          ]
        ]

-- What a caller learns from a receive, but for the descriptor.
pub data Content (T : Type 0) : Type 0 where
  message : Message → T → Content T
  bad_payload : Content T
  nothing : Content T

abbrev pub content : {T : Type 0} → Progress (Output T) → Content T
content (returned (ok (some (m, fd, payload)))) = message m payload
content (returned (err invalid_data)) = bad_payload
content _ = nothing

abbrev pub expected : {T : Type 0} → Message → Option T → Content T
expected m none = bad_payload
expected m (some payload) = message m payload

module _ (c : Libc) {T : Type 0} (serde : Serde T) where
  abbrev pub wire : List (Message × List ℕ) → List ℕ
  wire [] = []
  wire ((m, payload) ∷ frames) = frame c m payload ++ wire frames

  -- One receive after the other on one handler.
  unfoldable pub recv_many : ℕ → Handler → List RecvEvent → List (Content T)
  recv_many zero h events = []
  recv_many (suc n) h events =
      let r = recv_message c serde h events in
      content r.progress ∷ recv_many n (record h { read_buffer = r.read_buffer }) r.events

  -- With an open handler and a live peer, whose bytes begin with a frame, a receive returns that
  -- frame's message, and the bytes behind it stay to be read.
  pub recv_message-FrameRead :
      (m : Message) (payload rest : List ℕ) (h : Handler) (events : List RecvEvent)
      → IsFrame c m payload
      → h.shutdown ≡ false
      → All IsLive events
      → h.read_buffer ++ stream events ≡ frame c m payload ++ rest
      → FrameRead c serde m payload rest (recv_message c serde h events)
  unfolding recv_message
  recv_message-FrameRead m payload rest h events f open_handler live same = rw open_handler (
      recv_loop-FrameRead c serde m payload f rest (suc (length events)) h.read_buffer no_fds events
        live (omega arith) same)

  content-deserialized :
      (m : Message) (rest : List ℕ) (fds : Fds) (events : List RecvEvent) (o : Option T)
      → content (deserialized c serde m rest fds events o).progress ≡ expected m o
  content-deserialized m rest fds events none = refl
  content-deserialized m rest fds events (some payload) = refl

  -- With an open handler and a live peer, whose bytes begin with the frames of some messages, that
  -- many receives return those messages with their payloads, in order, however the bytes are cut
  -- into reads; a payload that does not deserialize is an error for its own message only.
  pub recv_many-wire :
      (frames : List (Message × List ℕ)) (rest : List ℕ) (h : Handler) (events : List RecvEvent)
      → All (λ f. IsFrame c f.0 f.1) frames
      → h.shutdown ≡ false
      → All IsLive events
      → h.read_buffer ++ stream events ≡ wire frames ++ rest
      → recv_many (length frames) h events ≡ map (λ f. expected f.0 (serde.deserialize f.1)) frames
  unfolding recv_many
  recv_many-wire [] rest h events all_frames open_handler live same = refl
  recv_many-wire ((m, payload) ∷ frames) rest h events (f, all_frames) open_handler live same =
      let r = recv_message c serde h events in
      let read =
        recv_message-FrameRead m payload (wire frames ++ rest) h events f open_handler live
          (same ∙ append_assoc (frame c m payload) (wire frames) rest) in
      ap₂ (λ (x : Content T) (xs : List (Content T)). x ∷ xs)
        (ap (λ (q : Received T). content q.progress) read.outcome
          ∙ content-deserialized m r.read_buffer read.fds r.events (serde.deserialize payload))
        (recv_many-wire frames rest (record h { read_buffer = r.read_buffer }) r.events all_frames
          open_handler read.live read.unread)
