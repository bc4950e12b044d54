-- ===== src/Error.antt =====
-- privsep/src/error.rs: the errors of the crate.
use privsep_rs.Prelude.{ℕ, [], ◌∷◌, ◌++◌}
use privsep_rs.Stream.{IoError}
use privsep_rs.Process.{Str}
use privsep_rs.Process.Session.{SessionError, no_session}
use privsep_rs.Process.Session

-- An error of std or tokio, and a boxed one, is its displayed text; an error of nix is its errno.
pub data Error : Type 0 where
  io_error : IoError → Error
  permission_denied : Error
  unix_error : ℕ → Error
  error : Str → Error
  invalid_argument : Str → Error
  invalid_process : Str → Error
  missing_parent : Error
  var_error : Str → Error
  join_error : Str → Error
  user_not_found : Str → Error
  privdrop : Str → Str → Error
  general_error : Str → Error
  terminated : Str → Error

-- "I/O error: "
abbrev io_text : Str
io_text = 73 ∷ 47 ∷ 79 ∷ 32 ∷ 101 ∷ 114 ∷ 114 ∷ 111 ∷ 114 ∷ 58 ∷ 32 ∷ []

-- "Permission denied, must run as root"
abbrev denied_text : Str
denied_text =
    80 ∷ 101 ∷ 114 ∷ 109 ∷ 105 ∷ 115 ∷ 115 ∷ 105 ∷ 111 ∷ 110 ∷ 32 ∷ 100 ∷ 101 ∷ 110 ∷ 105 ∷ 101
    ∷ 100 ∷ 44 ∷ 32 ∷ 109 ∷ 117 ∷ 115 ∷ 116 ∷ 32 ∷ 114 ∷ 117 ∷ 110 ∷ 32 ∷ 97 ∷ 115 ∷ 32 ∷ 114 ∷ 111
    ∷ 111 ∷ 116 ∷ []

-- "Invalid process: "
abbrev process_text : Str
process_text =
    73 ∷ 110 ∷ 118 ∷ 97 ∷ 108 ∷ 105 ∷ 100 ∷ 32 ∷ 112 ∷ 114 ∷ 111 ∷ 99 ∷ 101 ∷ 115 ∷ 115 ∷ 58 ∷ 32
    ∷ []

-- "Missing parent declaration"
abbrev parent_text : Str
parent_text =
    77 ∷ 105 ∷ 115 ∷ 115 ∷ 105 ∷ 110 ∷ 103 ∷ 32 ∷ 112 ∷ 97 ∷ 114 ∷ 101 ∷ 110 ∷ 116 ∷ 32 ∷ 100 ∷ 101
    ∷ 99 ∷ 108 ∷ 97 ∷ 114 ∷ 97 ∷ 116 ∷ 105 ∷ 111 ∷ 110 ∷ []

-- "Username '"
abbrev user_text : Str
user_text = 85 ∷ 115 ∷ 101 ∷ 114 ∷ 110 ∷ 97 ∷ 109 ∷ 101 ∷ 32 ∷ 39 ∷ []

-- "' for dropping privileges not found"
abbrev user_end_text : Str
user_end_text =
    39 ∷ 32 ∷ 102 ∷ 111 ∷ 114 ∷ 32 ∷ 100 ∷ 114 ∷ 111 ∷ 112 ∷ 112 ∷ 105 ∷ 110 ∷ 103 ∷ 32 ∷ 112 ∷ 114
    ∷ 105 ∷ 118 ∷ 105 ∷ 108 ∷ 101 ∷ 103 ∷ 101 ∷ 115 ∷ 32 ∷ 110 ∷ 111 ∷ 116 ∷ 32 ∷ 102 ∷ 111 ∷ 117
    ∷ 110 ∷ 100 ∷ []

-- "Failed to drop privileges ("
abbrev privdrop_text : Str
privdrop_text =
    70 ∷ 97 ∷ 105 ∷ 108 ∷ 101 ∷ 100 ∷ 32 ∷ 116 ∷ 111 ∷ 32 ∷ 100 ∷ 114 ∷ 111 ∷ 112 ∷ 32 ∷ 112 ∷ 114
    ∷ 105 ∷ 118 ∷ 105 ∷ 108 ∷ 101 ∷ 103 ∷ 101 ∷ 115 ∷ 32 ∷ 40 ∷ []

-- ") - "
abbrev privdrop_mid_text : Str
privdrop_mid_text = 41 ∷ 32 ∷ 45 ∷ 32 ∷ []

-- "General error: "
abbrev general_text : Str
general_text =
    71 ∷ 101 ∷ 110 ∷ 101 ∷ 114 ∷ 97 ∷ 108 ∷ 32 ∷ 101 ∷ 114 ∷ 114 ∷ 111 ∷ 114 ∷ 58 ∷ 32 ∷ []

-- "Lost "
abbrev pub lost_text : Str
lost_text = 76 ∷ 111 ∷ 115 ∷ 116 ∷ 32 ∷ []

-- ", terminated"
abbrev pub lost_end_text : Str
lost_end_text = 44 ∷ 32 ∷ 116 ∷ 101 ∷ 114 ∷ 109 ∷ 105 ∷ 110 ∷ 97 ∷ 116 ∷ 101 ∷ 100 ∷ []

-- "Failed to create new session"
abbrev pub session_text : Str
session_text =
    70 ∷ 97 ∷ 105 ∷ 108 ∷ 101 ∷ 100 ∷ 32 ∷ 116 ∷ 111 ∷ 32 ∷ 99 ∷ 114 ∷ 101 ∷ 97 ∷ 116 ∷ 101 ∷ 32
    ∷ 110 ∷ 101 ∷ 119 ∷ 32 ∷ 115 ∷ 101 ∷ 115 ∷ 115 ∷ 105 ∷ 111 ∷ 110 ∷ []

-- The errors of new_session and daemon, as the crate's.
abbrev pub of_session : SessionError → Error
of_session (Session.unix_error errno) = unix_error errno
of_session no_session = error session_text

-- `show_io` and `show_errno` are the Display instances of io::Error and nix::Error, `debug` is the Debug
-- instance of a text.
module _ (show_io : IoError → Str) (show_errno : ℕ → Str) (debug : Str → Str) where
  unfoldable pub display : Error → Str
  display (io_error e) = io_text ++ show_io e
  display permission_denied = denied_text
  display (unix_error errno) = show_errno errno
  display (error text) = debug text
  display (invalid_argument text) = text
  display (invalid_process name) = process_text ++ name
  display missing_parent = parent_text
  display (var_error text) = text
  display (join_error text) = text
  display (user_not_found name) = user_text ++ (name ++ user_end_text)
  display (privdrop call text) = privdrop_text ++ (call ++ (privdrop_mid_text ++ text))
  display (general_error text) = general_text ++ text
  display (terminated name) = lost_text ++ (name ++ lost_end_text)
