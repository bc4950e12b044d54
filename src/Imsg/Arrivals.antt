-- ===== src/Imsg/Arrivals.antt =====
-- The descriptors that come to Handler::recv_message of privsep/src/imsg.rs, described by the bytes of
-- the control messages.
use privsep_rs.Prelude.{
  ℕ, zero, suc, ◌≤◌, ◌<◌, inl, inr, refl, sym, subst, Bool, Bool-cases, lt→leb, leb→le, leb→lt,
  List, [], ◌∷◌, ◌++◌, length, take, drop, length-drop, leb, arith, Result, ok, err,
}
use privsep_rs.Prelude.Iter.{collect, collect-some, collect-none}
use privsep_rs.Memory.{Layout}
use privsep_rs.Ancillary.{
  AncillaryData, AncillaryError, scm_rights, scm_credentials, next_unit, units, all_messages,
}
use privsep_rs.Ancillary.Cmsg.{Libc, raw_fd}
use privsep_rs.Stream.{
  IoError, received, recv_failed, RecvEvent, unreadable, answered,
  recv_vectored_with_ancillary_from,
}
use privsep_rs.Imsg.{fresh}
use privsep_rs.Imsg.Recv.{rights_of}

-- These are the values in this memory, one after the other, as many as there is room for.
pub data Values {T : Type 0} (l : Layout T) : List ℕ → List T → Type 0 where
  no_more : {bytes : List ℕ} → length bytes < l.size → Values l bytes []
  one_more :
      {bytes : List ℕ} {values : List T}
      → l.size ≤ length bytes
      → Values l (drop l.size bytes) values
      → Values l bytes (l.from_bytes (take l.size bytes) ∷ values)

collect-Values :
    {T : Type 0} (l : Layout T)
    → 0 < l.size
    → (fuel : ℕ) (bytes : List ℕ) → length bytes ≤ fuel
    → Values l bytes (collect (next_unit l) fuel bytes)
unfolding next_unit
collect-Values l some_size zero bytes h =
    subst (Values l bytes)
      (sym (
        collect-none (next_unit l) zero
          (rw (lt→leb l.size (length bytes) (omega (arith, h, some_size))) refl)))
      (no_more (omega (arith, h, some_size)))
collect-Values l some_size (suc fuel) bytes h = elim (Bool-cases (leb l.size (length bytes))) [
  | inr e ↦
      subst (Values l bytes) (sym (collect-none (next_unit l) (suc fuel) (rw e refl)))
        (no_more (leb→lt l.size (length bytes) e))
  | inl e ↦
      let room = leb→le l.size (length bytes) e in
      subst (Values l bytes) (sym (collect-some (next_unit l) fuel (rw e refl))) (
        one_more room (
          collect-Values l some_size fuel (drop l.size bytes)
            (omega (arith, h, some_size, room, length-drop l.size bytes))))
]

-- All descriptors of these control messages: the values in the data of each SCM_RIGHTS message, in the
-- order of the messages.
pub data Rights (c : Libc) : List (Result AncillaryError AncillaryData) → List ℕ → Type 0 where
  no_message : Rights c [] []
  with_rights :
      {bytes fds more : List ℕ} {results : List (Result AncillaryError AncillaryData)}
      → Values (raw_fd c) bytes fds
      → Rights c results more
      → Rights c (ok (scm_rights bytes) ∷ results) (fds ++ more)
  with_credentials :
      {bytes more : List ℕ} {results : List (Result AncillaryError AncillaryData)}
      → Rights c results more
      → Rights c (ok (scm_credentials bytes) ∷ results) more
  with_error :
      {e : AncillaryError} {more : List ℕ} {results : List (Result AncillaryError AncillaryData)}
      → Rights c results more
      → Rights c (err e ∷ results) more

pub rights_of-Rights :
    (c : Libc) (results : List (Result AncillaryError AncillaryData))
    → Rights c results (rights_of c results)
unfolding rights_of units
rights_of-Rights c [] = no_message
rights_of-Rights c (ok (scm_rights bytes) ∷ results) =
    with_rights (collect-Values (raw_fd c) (omega arith) (length bytes) bytes (omega arith))
      (rights_of-Rights c results)
rights_of-Rights c (ok (scm_credentials bytes) ∷ results) =
    with_credentials (rights_of-Rights c results)
rights_of-Rights c (err e ∷ results) = with_error (rights_of-Rights c results)

-- These descriptors come with the data of these reads.
pub data Arrived (c : Libc) : List RecvEvent → List ℕ → Type 0 where
  nothing : Arrived c [] []
  with_data :
      (b : ℕ) (bytes control : List ℕ) (ctrunc trunc : Bool) (events : List RecvEvent)
      (fds more : List ℕ)
      → Rights c
          (all_messages c
            (recv_vectored_with_ancillary_from (received (b ∷ bytes) control ctrunc trunc) fresh).1)
          fds
      → Arrived c events more
      → Arrived c (answered (received (b ∷ bytes) control ctrunc trunc) ∷ events) (fds ++ more)
  no_data :
      (control : List ℕ) (ctrunc trunc : Bool) (events : List RecvEvent) (more : List ℕ)
      → Arrived c events more
      → Arrived c (answered (received [] control ctrunc trunc) ∷ events) more
  no_read :
      (kind : IoError) (events : List RecvEvent) (more : List ℕ)
      → Arrived c events more
      → Arrived c (answered (recv_failed kind) ∷ events) more
  not_readable :
      (kind : IoError) (events : List RecvEvent) (more : List ℕ)
      → Arrived c events more
      → Arrived c (unreadable kind ∷ events) more
