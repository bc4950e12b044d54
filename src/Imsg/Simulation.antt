-- ===== src/Imsg/Simulation.antt =====
-- The steps of the two ends of a socket pair of privsep/src/imsg.rs are steps of a queue.
use privsep_rs.Prelude.{
  list_laws, All-snoc, ℕ, ◌^◌, ◌<◌, ◌≡◌, inl, inr, refl, ap, sym, subst, ◌∙◌, false, Option, none,
  some, List, [], ◌∷◌, ◌++◌, map, append_assoc, append-nil, All,
}
use mathlib.Core.Path.{ap₂}
use mathlib.Core.List.{map-append}
use privsep_rs.Ancillary.Cmsg.{Libc}
use privsep_rs.Stream.{RecvEvent}
use privsep_rs.Stream.Events.{stream, IsLive}
use privsep_rs.Imsg.{Serde}
use privsep_rs.Imsg.Header.{Message}
use privsep_rs.Imsg.Recv.{Fds, Received, deserialized, recv_message}
use privsep_rs.Imsg.Framing.{frame, IsFrame}
use privsep_rs.Imsg.Sending.{stamped}
use privsep_rs.Imsg.Receiving.{Content, message, expected, wire}
use privsep_rs.Imsg.EndToEnd.{Request, sent, IsSent, packet_bytes, framed-IsFrame, sent-frame}
use privsep_rs.Imsg.Live.{Taken, Held, recv_message-live, recv_message-silent}
use privsep_rs.Imsg.Queue.{
  Label, enter, leave, observe, QueueStep, push, pop, idle, Channel, after_receive, Step, send,
  receive, Represents,
}

pub append_empty : (xs ys : List ℕ) → xs ++ ys ≡ [] → (xs ≡ []) × (ys ≡ [])
append_empty [] ys e = (refl, e)
append_empty (x ∷ xs) ys e = absurd (cc e)

module _ (c : Libc) {T : Type 0} (serde : Serde T) (pid : ℕ) where
  observe-deserialized :
      (m : Message) (rest : List ℕ) (fds : Fds) (events : List RecvEvent) (o : Option T)
      → observe (deserialized c serde m rest fds events o).progress ≡ leave (expected m o)
  observe-deserialized m rest fds events none = refl
  observe-deserialized m rest fds events (some payload) = refl

  wire-append :
      (fs : List (Message × List ℕ)) (m : Message) (payload : List ℕ)
      → wire c serde (fs ++ ((m, payload) ∷ [])) ≡ wire c serde fs ++ frame c m payload
  wire-append [] m payload = append-nil (frame c m payload)
  wire-append ((n, other) ∷ fs) m payload = simp (list_laws, wire-append fs m payload)

  module _
      (inverse : (t : T) (bytes : List ℕ)
        → serde.serialize t ≡ some bytes
        → serde.deserialize bytes ≡ some t)
      (pid_fits : pid < 2 ^ 32) where
    -- The step of the queue that a step of the channel is.
    unfoldable pub Simulated : Channel → List (Content T) → Label T → Type 0
    Simulated t q l = (p : List (Content T)) × QueueStep q l p × Represents c serde pid t p

    send-Simulated :
        (s : Channel) (q : List (Content T)) (r : Request T)
        → IsSent c serde pid s.sender r
        → Represents c serde pid s q
        → Simulated
            (record s { flight = s.flight ++ packet_bytes (sent c serde pid s.sender r).packets })
            q
            (enter (message (stamped pid r.message r.bytes) r.payload))
    unfolding Simulated
    send-Simulated s q r ok_send rep =
        let m = stamped pid r.message r.bytes in
        (
          q ++ (message m r.payload ∷ []),
          push (message m r.payload),
          record {
            frames = rep.frames ++ ((m, r.bytes) ∷ []);
            valid =
                All-snoc (λ f. IsFrame c f.0 f.1) rep.frames (m, r.bytes) rep.valid
                  (framed-IsFrame c serde pid s.sender pid_fits r ok_send);
            bytes =
                sym (
                  append_assoc s.receiver.read_buffer s.flight
                    (packet_bytes (sent c serde pid s.sender r).packets))
                ∙ ap₂ (λ (x y : List ℕ). x ++ y) rep.bytes
                    (sent-frame c serde pid s.sender r ok_send)
                ∙ sym (wire-append rep.frames m r.bytes);
            meaning =
                map-append (λ f. expected f.0 (serde.deserialize f.1)) rep.frames
                  ((m, r.bytes) ∷ [])
                ∙ ap₂ (λ (x y : List (Content T)). x ++ y) rep.meaning
                    (ap (λ (o : Option T). expected m o ∷ [])
                      (inverse r.payload r.bytes ok_send.serialized));
            is_open = rep.is_open;
          },
        )

    Held-Simulated :
        (s : Channel) (q : List (Content T)) (r : Received T) (events : List RecvEvent)
        (later : List ℕ)
        → Held c serde (s.receiver.read_buffer ++ stream events) r
        → s.flight ≡ stream events ++ later
        → Represents c serde pid s q
        → Simulated (after_receive c serde pid s r later) q (observe r.progress)
    unfolding Simulated
    Held-Simulated s q r events later held split rep = (
      q,
      rw held.waits idle,
      record {
        frames = rep.frames;
        valid = rep.valid;
        bytes =
            ap₂ (λ (b : List ℕ) (es : List RecvEvent). b ++ (stream es ++ later)) held.kept
              held.drained
            ∙ append_assoc s.receiver.read_buffer (stream events) later
            ∙ ap (λ (t : List ℕ). s.receiver.read_buffer ++ t) (sym split)
            ∙ rep.bytes;
        meaning = rep.meaning;
        is_open = rep.is_open;
      },
    )

    Taken-Simulated :
        (s : Channel) (q : List (Content T)) (r : Received T) (later : List ℕ) (m : Message)
        (payload : List ℕ) (frames : List (Message × List ℕ))
        → Taken c serde m payload later (wire c serde frames) r
        → All (λ f. IsFrame c f.0 f.1) frames
        → expected m (serde.deserialize payload)
            ∷ map (λ f. expected f.0 (serde.deserialize f.1)) frames
          ≡ q
        → s.receiver.shutdown ≡ false
        → Simulated (after_receive c serde pid s r later) q (observe r.progress)
    unfolding Simulated
    Taken-Simulated s q r later m payload frames taken valid meaning is_open =
        let rest = map (λ f. expected f.0 (serde.deserialize f.1)) frames in
        (
          rest,
          subst (λ (l : Label T). QueueStep q l rest)
              (sym (
                ap (λ (x : Received T). observe x.progress) taken.outcome
                ∙ observe-deserialized m r.read_buffer taken.fds r.events
                    (serde.deserialize payload)))
              (pop (expected m (serde.deserialize payload)) rest (sym meaning)),
          record {
            frames = frames;
            valid = valid;
            bytes = taken.unread;
            meaning = refl;
            is_open = is_open;
          },
        )

    -- By the frames that are on their way.
    receive_frames :
        (frames : List (Message × List ℕ)) (s : Channel) (q : List (Content T))
        (events : List RecvEvent) (later : List ℕ)
        → All IsLive events
        → s.flight ≡ stream events ++ later
        → (rep : Represents c serde pid s q) → rep.frames ≡ frames
        → Simulated
            (after_receive c serde pid s (recv_message c serde s.receiver events) later)
            q
            (observe (recv_message c serde s.receiver events).progress)
    receive_frames [] s q events later live split rep e =
        let nothing_left = rep.bytes ∙ ap (wire c serde) e in
        let (empty, none_left) = append_empty s.receiver.read_buffer s.flight nothing_left in
        let (nothing_read, _) = append_empty (stream events) later (sym split ∙ none_left) in
        let buffered = ap₂ (λ (x y : List ℕ). x ++ y) empty nothing_read in
        Held-Simulated s q (recv_message c serde s.receiver events) events later
          (subst (λ (b : List ℕ). Held c serde b (recv_message c serde s.receiver events))
            (sym buffered)
            (recv_message-silent c serde s.receiver events rep.is_open empty live nothing_read))
          split rep
    receive_frames ((m, payload) ∷ frames) s q events later live split rep e =
        let (f, valid) =
          subst (λ (fs : List (Message × List ℕ)). All (λ g. IsFrame c g.0 g.1) fs) e rep.valid in
        let r = recv_message c serde s.receiver events in
        elim (recv_message-live c serde m payload f (wire c serde frames) later s.receiver events
            rep.is_open live
            (ap (λ (t : List ℕ). s.receiver.read_buffer ++ t) (sym split)
              ∙ rep.bytes
              ∙ ap (wire c serde) e))
          as (λ _. Simulated (after_receive c serde pid s r later) q (observe r.progress)) [
            | inl taken ↦
                Taken-Simulated s q r later m payload frames taken valid
                  (ap (map (λ g. expected g.0 (serde.deserialize g.1))) (sym e) ∙ rep.meaning)
                  rep.is_open
            | inr held ↦ Held-Simulated s q r events later held split rep
          ]

    receive-Simulated :
        (s : Channel) (q : List (Content T)) (events : List RecvEvent) (later : List ℕ)
        → All IsLive events
        → s.flight ≡ stream events ++ later
        → Represents c serde pid s q
        → Simulated
            (after_receive c serde pid s (recv_message c serde s.receiver events) later)
            q
            (observe (recv_message c serde s.receiver events).progress)
    receive-Simulated s q events later live split rep =
        receive_frames rep.frames s q events later live split rep refl

    pub step-Simulated :
        (s t : Channel) (q : List (Content T)) (l : Label T)
        → Step c serde pid s l t
        → Represents c serde pid s q
        → Simulated t q l
    step-Simulated s t q l (send r ok_send) rep = send-Simulated s q r ok_send rep
    step-Simulated s t q l (receive events later live split) rep =
        receive-Simulated s q events later live split rep
