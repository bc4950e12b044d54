-- ===== src/Imsg/Descriptors.antt =====
-- `fd_result` of Handler::recv_message in privsep/src/imsg.rs.
use mathlib.Core.List.{Perm, perm_middle, perm_append_comm}
use mathlib.Core.List.Perm
use privsep_rs.Prelude.{
  ℕ, zero, suc, ◌≡◌, inl, inr, refl, subst, Bool-cases, Option, none, some, List, [], ◌∷◌, ◌++◌,
  length, append_assoc, append-nil, ok, err,
}
use privsep_rs.Ancillary.{all_messages}
use privsep_rs.Ancillary.Cmsg.{Libc}
use privsep_rs.Stream.{
  would_block, pending, ready, recv_failed, received, RecvEvent, unreadable, answered, RecvResult,
  recv_vectored_with_ancillary_from, recv_vectored_with_ancillary,
}
use privsep_rs.Imsg.{Serde, Handler, fresh}
use privsep_rs.Imsg.Header.{Message}
use privsep_rs.Imsg.Recv.{
  Fds, Received, Progress, returned, Output, to_list, take_fd, take_fds, rights_of, is_complete,
  deserialized, split_message, after_read, recv_loop, no_fds, recv_message,
}
use privsep_rs.Imsg.Arrivals.{
  Arrived, nothing, with_data, no_data, no_read, not_readable, rights_of-Rights,
}
use privsep_rs.Imsg.Receiving.{recv_loop_complete, recv_loop-read}

-- The descriptors that the code finds in the control messages that came with data.
pub arrived : Libc → List RecvEvent → List ℕ
arrived c [] = []
arrived c (answered (received (b ∷ bytes) control ctrunc trunc) ∷ events) =
    rights_of c (
      all_messages c
        (recv_vectored_with_ancillary_from (received (b ∷ bytes) control ctrunc trunc) fresh).1)
    ++ arrived c events
arrived c (_ ∷ events) = arrived c events

pub arrived-nil : (c : Libc) → arrived c [] ≡ []
unfolding arrived
arrived-nil c = refl

pub arrived-Arrived : (c : Libc) (events : List RecvEvent) → Arrived c events (arrived c events)
unfolding arrived
arrived-Arrived c [] = nothing
arrived-Arrived c (answered (received (b ∷ bytes) control ctrunc trunc) ∷ events) =
    with_data b bytes control ctrunc trunc events _ (arrived c events) (rights_of-Rights c _)
      (arrived-Arrived c events)
arrived-Arrived c (answered (received [] control ctrunc trunc) ∷ events) =
    no_data control ctrunc trunc events (arrived c events) (arrived-Arrived c events)
arrived-Arrived c (answered (recv_failed kind) ∷ events) =
    no_read kind events (arrived c events) (arrived-Arrived c events)
arrived-Arrived c (unreadable kind ∷ events) =
    not_readable kind events (arrived c events) (arrived-Arrived c events)

-- The descriptor in a returned value.
abbrev pub given : {T : Type 0} → Progress (Output T) → List ℕ
given (returned (ok (some (m, fd, payload)))) = to_list fd
given _ = []

-- Where the descriptors are: with the caller, held by the waiting call, or closed.
abbrev pub placed : {T : Type 0} → Received T → List ℕ
placed r = given r.progress ++ (to_list r.fds.held ++ r.fds.closed)

abbrev all_of : Fds → List ℕ
all_of fds = to_list fds.held ++ fds.closed

take_fd-perm :
    (held : Option ℕ) (closed : List ℕ) (fd : ℕ) (new : List ℕ)
    → Perm
        (all_of (take_fd (record { held = held; closed = closed }) fd) ++ new)
        (all_of (record { held = held; closed = closed }) ++ (fd ∷ new))
unfolding take_fd
take_fd-perm none closed fd new = Perm.symm (perm_middle closed new)
take_fd-perm (some first) closed fd new =
    simp append_assoc (Perm.refl (first ∷ (closed ++ (fd ∷ new))))

take_fds-perm : (fds : Fds) (new : List ℕ) → Perm (all_of (take_fds fds new)) (all_of fds ++ new)
unfolding take_fds
take_fds-perm fds [] = rw append-nil (Perm.refl (all_of fds))
take_fds-perm fds (fd ∷ new) =
    Perm.trans (take_fds-perm (take_fd fds fd) new) (take_fd-perm fds.held fds.closed fd new)

module _ (c : Libc) where
  -- The descriptors of one successful read.
  abbrev newly : RecvResult → List ℕ
  newly (ready (ok (b ∷ bytes)), a, events) = rights_of c (all_messages c a)
  newly _ = []

  arrived-read :
      (events : List RecvEvent)
      → arrived c events
        ≡ newly (recv_vectored_with_ancillary events fresh)
          ++ arrived c (recv_vectored_with_ancillary events fresh).2
  unfolding arrived recv_vectored_with_ancillary
  arrived-read [] = refl
  arrived-read (unreadable kind ∷ events) = refl
  arrived-read (answered (received [] control ctrunc trunc) ∷ events) = refl
  arrived-read (answered (received (b ∷ bytes) control ctrunc trunc) ∷ events) = refl
  arrived-read (answered (recv_failed would_block) ∷ events) = arrived-read events
  arrived-read (answered (recv_failed _) ∷ events) = refl

  module _ {T : Type 0} (serde : Serde T) where
    deserialized-perm :
        (m : Message) (rest : List ℕ) (fds : Fds) (events : List RecvEvent) (o : Option T)
        → Perm
            (placed (deserialized c serde m rest fds events o)
              ++ arrived c (deserialized c serde m rest fds events o).events)
            (all_of fds ++ arrived c events)
    deserialized-perm m rest fds events none =
        Perm.append_right (arrived c events) (perm_append_comm fds.closed (to_list fds.held))
    deserialized-perm m rest fds events (some payload) = Perm.refl (all_of fds ++ arrived c events)

    after_read-perm :
        (buf : List ℕ) (fds : Fds) (again : List ℕ → Fds → List RecvEvent → Received T)
        (r : RecvResult)
        → ((b : List ℕ) (f : Fds) (es : List RecvEvent)
            → Perm
                (placed (again b f es) ++ arrived c (again b f es).events)
                (all_of f ++ arrived c es))
        → Perm
            (placed (after_read c serde buf fds again r)
              ++ arrived c (after_read c serde buf fds again r).events)
            (all_of fds ++ (newly r ++ arrived c r.2))
    unfolding after_read
    after_read-perm buf fds again (pending, a, events) ih = Perm.refl _
    after_read-perm buf fds again (ready (err kind), a, events) ih =
        Perm.append_right (arrived c events) (perm_append_comm fds.closed (to_list fds.held))
    after_read-perm buf fds again (ready (ok []), a, events) ih =
        Perm.append_right (arrived c events) (perm_append_comm fds.closed (to_list fds.held))
    after_read-perm buf fds again (ready (ok (b ∷ bytes)), a, events) ih =
        let new = rights_of c (all_messages c a) in
        Perm.trans (ih (buf ++ (b ∷ bytes)) (take_fds fds new) events) (
          subst (Perm (all_of (take_fds fds new) ++ arrived c events))
            (append_assoc (all_of fds) new (arrived c events))
            (Perm.append_right (arrived c events) (take_fds-perm fds new)))

    split_message-perm :
        (buf : List ℕ) (fds : Fds) (events : List RecvEvent)
        → Perm
            (placed (split_message c serde buf fds events)
              ++ arrived c (split_message c serde buf fds events).events)
            (all_of fds ++ arrived c events)
    unfolding split_message
    split_message-perm buf fds events = deserialized-perm _ _ fds events _

    recv_loop-perm :
        (fuel : ℕ) (buf : List ℕ) (fds : Fds) (events : List RecvEvent)
        → Perm
            (placed (recv_loop c serde fuel buf fds events)
              ++ arrived c (recv_loop c serde fuel buf fds events).events)
            (all_of fds ++ arrived c events)
    recv_loop-perm zero buf fds events =
        unfold recv_loop in Perm.refl (all_of fds ++ arrived c events)
    recv_loop-perm (suc fuel) buf fds events = elim (Bool-cases (is_complete c buf)) [
      | inl whole ↦
          rw (recv_loop_complete c serde fuel buf fds events whole)
            (split_message-perm buf fds events)
      | inr part ↦
          rw (recv_loop-read c serde fuel buf fds events part, arrived-read events)
            (after_read-perm buf fds (recv_loop c serde fuel)
              (recv_vectored_with_ancillary events fresh) (recv_loop-perm fuel))
    ]

    pub recv_message-placed :
        (h : Handler) (events : List RecvEvent)
        → Perm
            (placed (recv_message c serde h events)
              ++ arrived c (recv_message c serde h events).events)
            (arrived c events)
    unfolding recv_message
    recv_message-placed h events = elim (Bool-cases h.shutdown) [
      | inl closed ↦ rw closed (Perm.refl (arrived c events))
      | inr open_handler ↦
          rw open_handler (recv_loop-perm (suc (length events)) h.read_buffer no_fds events)
    ]

    -- No descriptor is lost: all descriptors in the control messages that come with the data of the
    -- reads, any number in each message, are the returned one, the one that the receive holds while it
    -- waits, those that it has closed, and those of the reads that it has not done, each as often as
    -- it comes.
    pub recv_message-fds :
        (h : Handler) (events : List RecvEvent)
        → (came left : List ℕ) × Arrived c events came
          × Arrived c (recv_message c serde h events).events left
          × Perm (placed (recv_message c serde h events) ++ left) came
    recv_message-fds h events = (
      arrived c events,
      arrived c (recv_message c serde h events).events,
      arrived-Arrived c events,
      arrived-Arrived c (recv_message c serde h events).events,
      recv_message-placed h events,
    )
