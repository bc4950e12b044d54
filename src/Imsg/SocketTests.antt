-- ===== src/Imsg/SocketTests.antt =====
-- The sockets of handlers of privsep/src/imsg.rs in a table of descriptors.
use privsep_rs.Prelude.{ℕ, ◌≡◌, ◌≢◌, refl, true, none, some, [], ◌∷◌, ok}
use privsep_rs.Imsg.{Handler, from_stream}
use privsep_rs.Imsg
use privsep_rs.Imsg.Sockets.{
  socketpair, from_raw_fd, drop_handler, shutdown_in, shutdown-drop_handler, socketpair-from_raw_fd,
}
use privsep_rs.Fd.Table.{Files, table, table-IsKernel}

-- A handler on the last descriptor, behind an open file.
abbrev files : Files
files = (0, 7) ∷ (1, 8) ∷ []

shutdown-drop_handler_example :
    ((shutdown_in table (from_stream 1) files).0.shutdown ≡ true)
    × (table.file_of (shutdown_in table (from_stream 1) files).1 1 ≡ none)
    × (table.file_of ((1, 7) ∷ (0, 7) ∷ []) 1 ≡ some 7)
    × (table.file_of
          (drop_handler table (shutdown_in table (from_stream 1) files).0 ((1, 7) ∷ (0, 7) ∷ []))
          1
        ≡ none)
unfolding shutdown_in Imsg.shutdown
shutdown-drop_handler_example =
    shutdown-drop_handler table 0 table-IsKernel (from_stream 1) 0 7 files ((1, 7) ∷ (0, 7) ∷ [])
      refl refl

socketpair-from_raw_fd_example :
    (h : Handler) × (from_raw_fd table (ok tt) 3 ((3, 1) ∷ (4, 2) ∷ files)
      ≡ (ok h, (3, 1) ∷ (4, 2) ∷ files))
    × (table.file_of ((3, 1) ∷ (4, 2) ∷ files) 3 ≢ none)
    × (table.file_of (drop_handler table h ((3, 1) ∷ (4, 2) ∷ files)) 3 ≡ none)
    × (table.file_of (drop_handler table h ((3, 1) ∷ (4, 2) ∷ files)) 4 ≢ none)
    × ((x : ℕ)
        → x ≢ 4
        → table.file_of (drop_handler table h ((3, 1) ∷ (4, 2) ∷ files)) x ≡ table.file_of files x)
unfolding socketpair
socketpair-from_raw_fd_example =
    socketpair-from_raw_fd table 0 table-IsKernel 3 4 files ((3, 1) ∷ (4, 2) ∷ files) refl
