-- ===== src/Imsg/Queue.antt =====
-- Handler::send_message and Handler::recv_message of privsep/src/imsg.rs as steps of the two ends of
-- a socket pair, and the queue that these are meant to be, which forgets bytes, reads and calls that
-- are given up.
use privsep_rs.Prelude.{ℕ, ◌≡◌, false, some, List, [], ◌∷◌, ◌++◌, map, All, ok, err}
use privsep_rs.Ancillary.Cmsg.{Libc}
use privsep_rs.Stream.{invalid_data, RecvEvent}
use privsep_rs.Stream.Events.{stream, IsLive}
use privsep_rs.Imsg.{Serde, Handler}
use privsep_rs.Imsg.Header.{Message}
use privsep_rs.Imsg.Recv.{Progress, waiting, returned, Output, Received, recv_message}
use privsep_rs.Imsg.Framing.{IsFrame}
use privsep_rs.Imsg.Sending.{stamped}
use privsep_rs.Imsg.Receiving.{Content, message, bad_payload, expected, wire}
use privsep_rs.Imsg.EndToEnd.{Request, sent, IsSent, packet_bytes}

-- What is seen of a step: a message enters or leaves, nothing, or what a live channel never shows.
pub data Label (T : Type 0) : Type 0 where
  enter : Content T → Label T
  leave : Content T → Label T
  silent : Label T
  broken : Label T

abbrev pub observe : {T : Type 0} → Progress (Output T) → Label T
observe waiting = silent
observe (returned (ok (some (m, fd, payload)))) = leave (message m payload)
observe (returned (err invalid_data)) = leave bad_payload
observe _ = broken

-- The specification: a queue.
pub data QueueStep {T : Type 0} (q : List (Content T)) : Label T → List (Content T) → Type 0 where
  push : (x : Content T) → QueueStep q (enter x) (q ++ (x ∷ []))
  pop : (x : Content T) (rest : List (Content T)) → q ≡ x ∷ rest → QueueStep q (leave x) rest
  idle : QueueStep q silent q

pub data QueueRun {T : Type 0} : List (Content T) → List (Label T) → List (Content T) → Type 0 where
  halt : {q : List (Content T)} → QueueRun q [] q
  next :
      {l : Label T} {ls : List (Label T)} {q p r : List (Content T)}
      → QueueStep q l p
      → QueueRun p ls r
      → QueueRun q (l ∷ ls) r

-- The messages that entered and those that left.
abbrev pub entered : {T : Type 0} → List (Label T) → List (Content T)
entered [] = []
entered (enter x ∷ ls) = x ∷ entered ls
entered (_ ∷ ls) = entered ls

abbrev pub left : {T : Type 0} → List (Label T) → List (Content T)
left [] = []
left (leave x ∷ ls) = x ∷ left ls
left (_ ∷ ls) = left ls

-- The two ends, and the bytes that were written and not yet read.
pub record Channel : Type 0 where
  pub sender : Handler
  pub receiver : Handler
  pub flight : List ℕ

module _ (c : Libc) {T : Type 0} (serde : Serde T) (pid : ℕ) where
  -- The state after a receive to which `later` was not delivered.
  abbrev pub after_receive : Channel → Received T → List ℕ → Channel
  after_receive s r later = record s {
    receiver = record s.receiver { read_buffer = r.read_buffer };
    flight = stream r.events ++ later;
  }

  -- A send that returned Ok, or a receive that was polled with some of the bytes, cut in any way, and
  -- returned, or was given up.
  pub data Step (s : Channel) : Label T → Channel → Type 0 where
    send :
        (r : Request T)
        → IsSent c serde pid s.sender r
        → Step s
            (enter (message (stamped pid r.message r.bytes) r.payload))
            (record s { flight = s.flight ++ packet_bytes (sent c serde pid s.sender r).packets })
    receive :
        (events : List RecvEvent) (later : List ℕ)
        → All IsLive events
        → s.flight ≡ stream events ++ later
        → Step s
            (observe (recv_message c serde s.receiver events).progress)
            (after_receive s (recv_message c serde s.receiver events) later)

  pub data Run : Channel → List (Label T) → Channel → Type 0 where
    stop : {s : Channel} → Run s [] s
    then :
        {l : Label T} {ls : List (Label T)} {s t u : Channel}
        → Step s l t
        → Run t ls u
        → Run s (l ∷ ls) u

  -- The bytes that are on their way are the frames of the queue.
  pub record Represents (s : Channel) (q : List (Content T)) : Type 0 where
    pub frames : List (Message × List ℕ)
    pub valid : All (λ f. IsFrame c f.0 f.1) frames
    pub bytes : s.receiver.read_buffer ++ s.flight ≡ wire c serde frames
    pub meaning : map (λ f. expected f.0 (serde.deserialize f.1)) frames ≡ q
    pub is_open : s.receiver.shutdown ≡ false
