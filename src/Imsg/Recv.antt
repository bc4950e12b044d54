-- ===== src/Imsg/Recv.antt =====
-- Handler::recv_message of privsep/src/imsg.rs.
use privsep_rs.Prelude.{
  ℕ, zero, suc, Bool, Option, none, some, List, [], ◌∷◌, ◌++◌, length, take, drop, ltb, leb,
  if◌then◌else◌, ◌&&◌, Result, ok, err,
}
use privsep_rs.Ancillary.{
  AncillaryData, AncillaryError, scm_rights, scm_credentials, units, all_messages,
}
use privsep_rs.Ancillary.Cmsg.{Libc, raw_fd}
use privsep_rs.Stream.{
  IoError, not_connected, invalid_data, pending, ready, RecvEvent, RecvResult,
  recv_vectored_with_ancillary,
}
use privsep_rs.Imsg.{Serde, Handler, fresh}
use privsep_rs.Imsg.Header.{Message, from_bytes, header_length}

-- `fd_result`, and the descriptors that were dropped, and so closed.
pub record Fds : Type 0 where
  pub held : Option ℕ
  pub closed : List ℕ

abbrev pub no_fds : Fds
no_fds = record { held = none; closed = [] }

-- The first descriptor is kept, any other is dropped.
unfoldable pub take_fd : Fds → ℕ → Fds
take_fd fds fd = elim fds.held [
  | none ↦ record fds { held = some fd }
  | some first ↦ record fds { closed = fds.closed ++ (fd ∷ []) }
]

unfoldable pub take_fds : Fds → List ℕ → Fds
unfolding take_fd
take_fds fds [] = fds
take_fds fds (fd ∷ rest) = take_fds (take_fd fds fd) rest

abbrev pub to_list : Option ℕ → List ℕ
to_list none = []
to_list (some fd) = fd ∷ []

-- An early return drops `fd_result`.
abbrev pub drop_fd : Fds → Fds
drop_fd fds = record { held = none; closed = fds.closed ++ to_list fds.held }

-- A receive that has returned, or waits, or in the model has no fuel left; `stuck` is no state of
-- the program.
pub data Progress {ℓ} (A : Type ℓ) : Type ℓ where
  waiting : Progress A
  returned : A → Progress A
  stuck : Progress A

abbrev pub Output : Type 0 → Type 0
Output T = Result IoError (Option (Message × Option ℕ × T))

-- The outcome of a receive: its progress, `fd_result` while it waits, what it closed, the read buffer
-- and the events that are left.
pub record Received (T : Type 0) : Type 0 where
  pub progress : Progress (Output T)
  pub fds : Fds
  pub read_buffer : List ℕ
  pub events : List RecvEvent

module _ (c : Libc) where
  -- The descriptors of the control messages, as the nested `for` loops meet them.
  unfoldable pub rights_of : List (Result AncillaryError AncillaryData) → List ℕ
  rights_of [] = []
  rights_of (ok (scm_rights bytes) ∷ results) = units (raw_fd c) bytes ++ rights_of results
  rights_of (ok (scm_credentials bytes) ∷ results) = rights_of results
  rights_of (err error ∷ results) = rights_of results

  -- The header at the front of the read buffer.
  abbrev pub peek : List ℕ → Message
  peek buf = from_bytes c.endian (take header_length buf)

  -- buf.len() >= HEADER_LENGTH, and buf.len() >= message.length
  unfoldable pub is_complete : List ℕ → Bool
  is_complete buf = leb header_length (length buf) && leb (peek buf).length (length buf)

  module _ {T : Type 0} (serde : Serde T) where
    abbrev pub deserialized : Message → List ℕ → Fds → List RecvEvent → Option T → Received T
    deserialized message rest fds events none = record {
      progress = returned (err invalid_data);
      fds = drop_fd fds;
      read_buffer = rest;
      events = events;
    }
    deserialized message rest fds events (some payload) = record {
      progress = returned (ok (some (message, fds.held, payload)));
      fds = record fds { held = none };
      read_buffer = rest;
      events = events;
    }

    -- Split the message off and deserialize its payload.
    unfoldable pub split_message : List ℕ → Fds → List RecvEvent → Received T
    split_message buf fds events =
        let message = peek buf in
        let received_buf = take message.length buf in
        let payload =
          if ltb header_length message.length then drop header_length received_buf else [] in
        deserialized message (drop message.length buf) fds events (serde.deserialize payload)

    -- What follows the read; `again` is the next round of the loop.
    unfoldable pub after_read :
        List ℕ → Fds → (List ℕ → Fds → List RecvEvent → Received T) → RecvResult → Received T
    after_read buf fds again (pending, a, events) = record {
      progress = waiting;
      fds = fds;
      read_buffer = buf;
      events = events;
    }
    after_read buf fds again (ready (err kind), a, events) = record {
      progress = returned (err kind);
      fds = drop_fd fds;
      read_buffer = buf;
      events = events;
    }
    after_read buf fds again (ready (ok []), a, events) = record {
      progress = returned (ok none);
      fds = drop_fd fds;
      read_buffer = buf;
      events = events;
    }
    after_read buf fds again (ready (ok (b ∷ bytes)), a, events) =
        again (buf ++ (b ∷ bytes)) (take_fds fds (rights_of (all_messages c a))) events

    -- The loop; each round but the last uses an event.
    unfoldable pub recv_loop : ℕ → List ℕ → Fds → List RecvEvent → Received T
    recv_loop zero buf fds events = record {
      progress = stuck;
      fds = fds;
      read_buffer = buf;
      events = events;
    }
    recv_loop (suc fuel) buf fds events =
        if is_complete buf
        then split_message buf fds events
        else after_read buf fds (recv_loop fuel) (recv_vectored_with_ancillary events fresh)

    unfoldable pub recv_message : Handler → List RecvEvent → Received T
    recv_message h events =
        if h.shutdown
        then record {
          progress = returned (err not_connected);
          fds = no_fds;
          read_buffer = h.read_buffer;
          events = events;
        }
        else recv_loop (suc (length events)) h.read_buffer no_fds events
