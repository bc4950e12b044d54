-- ===== src/Ancillary/Operations.antt =====
-- SocketAncillary::add_fds, add_creds and messages of privsep/src/net/ancillary.rs.
use privsep_rs.Prelude.{
  All-snoc, ℕ, ◌+◌, ◌*◌, ◌^◌, ◌≤◌, ◌<◌, ◌≡◌, ◌∙◌, sym, true, false, List, [], ◌∷◌, ◌++◌, ok, length,
  All, arith, ==-refl, ne→==, Result,
}
use mathlib.Core.Path.{ap₂}
use mathlib.Core.List.{map-append}
use privsep_rs.Memory.{bytes_of}
use privsep_rs.Memory.Ints.{int_layout-IsLayout}
use privsep_rs.Ancillary.{
  SocketAncillary, AncillaryData, AncillaryError, scm_rights, scm_credentials, SocketCred, add_fds,
  add_creds, all_messages, units,
}
use privsep_rs.Ancillary.Cmsg.{Libc, IsLibc, IsUCred, IsFd, raw_fd}
use privsep_rs.Ancillary.Encoding.{Cmsg, IsCmsg, space}
use privsep_rs.Ancillary.Write.{message_of, length-bytes_of}
use privsep_rs.Ancillary.RoundTrip.{decode, all_messages-Holds}
use privsep_rs.Ancillary.Units.{units-bytes_of}
use privsep_rs.Ancillary.Stored.{IsWellFormed, stored-Holds, stored-full}

module _ (c : Libc) where
  -- The messages that `add_fds` and `add_creds` add.
  abbrev pub rights : List ℕ → Cmsg
  rights fds = message_of (raw_fd c) fds c.sol_socket c.scm_rights

  abbrev pub credentials : List SocketCred → Cmsg
  credentials creds = message_of c.ucred creds c.sol_socket c.scm_credentials

module _ (c : Libc) (laws : IsLibc c) (a : SocketAncillary) (ms : List Cmsg)
    (well : IsWellFormed c a ms) where
  -- The new message is in range, too, where it fits in the buffer.
  message-IsCmsg :
      (m : Cmsg)
      → m.level < 2 ^ 32
      → m.kind < 2 ^ 32
      → space c m + a.length ≤ length a.buffer
      → IsCmsg c m
  message-IsCmsg m level_fits type_fits room = record {
    header = record {
      len_fits = omega (arith, laws.len-le-space (length m.payload), well.small);
      level_fits = level_fits;
      type_fits = type_fits;
    };
  }

  -- On a well-formed buffer with room for the message, for fewer than 2^30 descriptors, `add_fds`
  -- returns true, appends one SCM_RIGHTS message to the messages of the buffer and keeps the
  -- buffer well-formed and its capacity.
  pub add_fds-IsWellFormed :
      (fds : List ℕ)
      → length fds * 4 < 2 ^ 32
      → space c (rights c fds) + a.length ≤ length a.buffer
      → ((add_fds c fds a).1 ≡ true)
        × IsWellFormed c (add_fds c fds a).0 (ms ++ (rights c fds ∷ []))
        × (length (add_fds c fds a).0.buffer ≡ length a.buffer)
  unfolding add_fds
  add_fds-IsWellFormed fds few room =
      let layout = int_layout-IsLayout c.endian 4 in
      let (done, holds, kept) =
        stored-Holds c laws (raw_fd c) layout fds c.sol_socket c.scm_rights a ms well.holds
          well.valid well.small (omega (arith, length-bytes_of (raw_fd c) layout fds)) room in
      (
        done,
        record {
          holds = holds;
          valid =
              All-snoc (IsCmsg c) ms (rights c fds) well.valid
                (message-IsCmsg (rights c fds) laws.sol_socket_fits laws.scm_rights_fits room);
          small = omega (arith, kept, well.small);
        },
        kept,
      )

  -- On a well-formed buffer with room for the message, for credentials of less than 2^32 bytes,
  -- `add_creds` returns true, appends one SCM_CREDENTIALS message to the messages of the buffer
  -- and keeps the buffer well-formed and its capacity.
  pub add_creds-IsWellFormed :
      (creds : List SocketCred)
      → length (bytes_of c.ucred creds) < 2 ^ 32
      → space c (credentials c creds) + a.length ≤ length a.buffer
      → ((add_creds c creds a).1 ≡ true)
        × IsWellFormed c (add_creds c creds a).0 (ms ++ (credentials c creds ∷ []))
        × (length (add_creds c creds a).0.buffer ≡ length a.buffer)
  unfolding add_creds
  add_creds-IsWellFormed creds few room =
      let (done, holds, kept) =
        stored-Holds c laws c.ucred laws.ucred_layout creds c.sol_socket c.scm_credentials a ms
          well.holds well.valid well.small few room in
      (
        done,
        record {
          holds = holds;
          valid = All-snoc (IsCmsg c) ms (credentials c creds) well.valid (
              message-IsCmsg (credentials c creds) laws.sol_socket_fits laws.scm_credentials_fits
                room);
          small = omega (arith, kept, well.small);
        },
        kept,
      )

  -- For a well-formed buffer with no room for the message, `add_fds` returns false and changes neither the buffer nor its
  -- length; only the `truncated` flag is reset.
  pub add_fds-full :
      (fds : List ℕ)
      → length a.buffer < space c (rights c fds) + a.length
      → add_fds c fds a ≡ (record a { truncated = false }, false)
  unfolding add_fds
  add_fds-full fds full =
      stored-full c laws (raw_fd c) (int_layout-IsLayout c.endian 4) fds c.sol_socket c.scm_rights a
        ms well.holds full

  -- For a well-formed buffer with no room for the message, `add_creds` returns false and changes neither the buffer nor its
  -- length; only the `truncated` flag is reset.
  pub add_creds-full :
      (creds : List SocketCred)
      → length a.buffer < space c (credentials c creds) + a.length
      → add_creds c creds a ≡ (record a { truncated = false }, false)
  unfolding add_creds
  add_creds-full creds full =
      stored-full c laws c.ucred laws.ucred_layout creds c.sol_socket c.scm_credentials a ms
        well.holds full

  -- On a well-formed buffer with room for the message, for fewer than 2^30 descriptors of 32 bits,
  -- after `add_fds` the iterator returns the messages from before, then one SCM_RIGHTS message;
  -- the iterator of that message returns the descriptors, in order.
  pub messages-add_fds :
      (fds : List ℕ)
      → length fds * 4 < 2 ^ 32
      → All IsFd fds
      → space c (rights c fds) + a.length ≤ length a.buffer
      → (all_messages c (add_fds c fds a).0
          ≡ all_messages c a ++ (ok (scm_rights (bytes_of (raw_fd c) fds)) ∷ []))
        × (units (raw_fd c) (bytes_of (raw_fd c) fds) ≡ fds)
  messages-add_fds fds few fits room =
      let (_, after, _) = add_fds-IsWellFormed fds few room in
      (
        all_messages-Holds c laws (add_fds c fds a).0 (ms ++ (rights c fds ∷ [])) after.holds
              after.valid
            ∙ map-append (decode c) ms (rights c fds ∷ [])
            ∙ ap₂ (λ (x y : List (Result AncillaryError AncillaryData)). x ++ y)
                (sym (all_messages-Holds c laws a ms well.holds well.valid))
                (rw (==-refl c.sol_socket, ==-refl c.scm_rights)),
        units-bytes_of (raw_fd c) (int_layout-IsLayout c.endian 4) (omega arith) fds fits,
      )

  -- On a well-formed buffer with room for the message, for credentials of less than 2^32 bytes and
  -- with fields of 32 bits, after `add_creds` the iterator returns the messages from before, then
  -- one SCM_CREDENTIALS message; the iterator of that message returns the credentials, in order.
  pub messages-add_creds :
      (creds : List SocketCred)
      → length (bytes_of c.ucred creds) < 2 ^ 32
      → All IsUCred creds
      → space c (credentials c creds) + a.length ≤ length a.buffer
      → (all_messages c (add_creds c creds a).0
          ≡ all_messages c a ++ (ok (scm_credentials (bytes_of c.ucred creds)) ∷ []))
        × (units c.ucred (bytes_of c.ucred creds) ≡ creds)
  messages-add_creds creds few fits room =
      let (_, after, _) = add_creds-IsWellFormed creds few room in
      (
        all_messages-Holds c laws (add_creds c creds a).0 (ms ++ (credentials c creds ∷ []))
              after.holds after.valid
            ∙ map-append (decode c) ms (credentials c creds ∷ [])
            ∙ ap₂ (λ (x y : List (Result AncillaryError AncillaryData)). x ++ y)
                (sym (all_messages-Holds c laws a ms well.holds well.valid))
                (rw (
                  ==-refl c.sol_socket,
                  ne→== c.scm_credentials c.scm_rights (λ e. laws.kinds_differ (sym e)),
                  ==-refl c.scm_credentials,
                )),
        units-bytes_of c.ucred laws.ucred_layout laws.ucred_pos creds fits,
      )
