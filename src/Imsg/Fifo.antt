-- ===== src/Imsg/Fifo.antt =====
-- The two ends of a socket pair of privsep/src/imsg.rs refine a queue.
use privsep_rs.Prelude.{
  ℕ, ◌^◌, ◌<◌, ◌≡◌, refl, ap, sym, ◌∙◌, false, some, List, [], ◌∷◌, ◌++◌, map, length, append_assoc,
  append-nil, arith,
}
use mathlib.Core.Path.{ap₂}
use privsep_rs.Ancillary.Cmsg.{Libc}
use privsep_rs.Imsg.{Serde}
use privsep_rs.Imsg.Header.{Message}
use privsep_rs.Imsg.Framing.{frame, length-frame}
use privsep_rs.Imsg.Receiving.{Content, expected, wire}
use privsep_rs.Imsg.Queue.{
  Label, push, pop, idle, QueueRun, halt, next, entered, left, Channel, Run, stop, then, Represents,
}
use privsep_rs.Imsg.Simulation.{append_empty, Simulated, step-Simulated}

-- A queue loses no message and keeps their order.
QueueRun-left :
    {T : Type 0} (q p : List (Content T)) (ls : List (Label T))
    → QueueRun q ls p
    → q ++ entered ls ≡ left ls ++ p
QueueRun-left q p [] halt = append-nil q
QueueRun-left q p (l ∷ ls) (next (push x) run) =
    sym (append_assoc q (x ∷ []) (entered ls)) ∙ QueueRun-left (q ++ (x ∷ [])) p ls run
QueueRun-left q p (l ∷ ls) (next (pop x rest e) run) =
    ap (λ (xs : List (Content _)). xs ++ entered ls) e
    ∙ ap (λ (xs : List (Content _)). x ∷ xs) (QueueRun-left rest p ls run)
QueueRun-left q p (l ∷ ls) (next idle run) = QueueRun-left q p ls run

module _ (c : Libc) {T : Type 0} (serde : Serde T) (pid : ℕ) where
  wire-empty : (fs : List (Message × List ℕ)) → wire c serde fs ≡ [] → fs ≡ []
  wire-empty [] e = refl
  wire-empty ((m, payload) ∷ fs) e = absurd (
      omega (
        arith,
        length-frame c m payload,
        ap length (append_empty (frame c m payload) (wire c serde fs) e).0,
      ))

  module _
      (inverse : (t : T) (bytes : List ℕ)
        → serde.serialize t ≡ some bytes
        → serde.deserialize bytes ≡ some t)
      (pid_fits : pid < 2 ^ 32) where
    -- For a serializer that its deserializer inverts and a process id of 32 bits: each run of the
    -- two ends is a run of a queue with the same labels. The steps are sends that return Ok, of messages
    -- with fields in range and a length of a header at least, over a kernel that takes no more than it
    -- is offered, and receives that a live socket answers with some of the bytes on their way, cut in
    -- any way, and that return or are given up while they wait. A run that starts with the frames of
    -- a queue's messages on their way ends with those of the other queue's, and the labels are those
    -- of a queue: no receive ends in an end of file, a stuck call or an error but that of a payload.
    pub Run-QueueRun :
        (s t : Channel) (q : List (Content T)) (ls : List (Label T))
        → Run c serde pid s ls t
        → Represents c serde pid s q
        → (p : List (Content T)) × QueueRun q ls p × Represents c serde pid t p
    unfolding Simulated
    Run-QueueRun s t q [] stop rep = (q, halt, rep)
    Run-QueueRun s u q (l ∷ ls) (then {t = t} step run) rep =
        let (p, pushed, rep') = step-Simulated c serde pid inverse pid_fits s t q l step rep in
        let (r, steps, rep_end) = Run-QueueRun t u p ls run rep' in (r, next pushed steps, rep_end)

    Represents-empty :
        (s : Channel) (q : List (Content T))
        → Represents c serde pid s q
        → s.receiver.read_buffer ++ s.flight ≡ []
        → q ≡ []
    Represents-empty s q rep e =
        sym rep.meaning
        ∙ ap (map (λ f. expected f.0 (serde.deserialize f.1)))
            (wire-empty rep.frames (sym rep.bytes ∙ e))

    -- Under the conditions of the queue's refinement, from an open receiver with an empty buffer and
    -- nothing on its way: what was received is what was sent, in order, each message stamped with
    -- the sender's process id and the total length, but for the messages at the end that are not
    -- received yet; and when no byte is on its way or buffered, every message has been received.
    pub Run-left :
        (s t : Channel) (ls : List (Label T))
        → s.receiver.shutdown ≡ false
        → s.receiver.read_buffer ≡ []
        → s.flight ≡ []
        → Run c serde pid s ls t
        → (p : List (Content T)) × (entered ls ≡ left ls ++ p)
          × (t.receiver.read_buffer ++ t.flight ≡ [] → p ≡ [])
    Run-left s t ls is_open empty none_left run =
        let nothing_sent : Represents c serde pid s [] = record {
          frames = [];
          valid = tt;
          bytes = ap₂ (λ (x y : List ℕ). x ++ y) empty none_left;
          meaning = refl;
          is_open = is_open;
        } in
        let (p, steps, rep) = Run-QueueRun s t [] ls run nothing_sent in
        (p, QueueRun-left [] p ls steps, λ e. Represents-empty t p rep e)
