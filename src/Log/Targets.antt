-- ===== src/Log/Targets.antt =====
-- log/src/lib.rs: the configuration, the message of a record and the targets.
use privsep_rs.Prelude.{
  ℕ, suc, take, Bool, true, false, Option, none, some, List, [], ◌∷◌, ◌++◌, ◌==◌, if◌then◌else◌,
  Result, ok, err,
}
use privsep_rs.Stream.{IoError}
use privsep_rs.Process.{Str}

-- slog::Level
pub data Level : Type 0 where
  critical error warning info debug trace : Level

pub record Config : Type 0 where
  pub foreground : Bool
  pub filter : Option Str

-- From<bool>
abbrev pub from_bool : Bool → Config
from_bool foreground = record { foreground = foreground; filter = none }

-- The errors of the crate; a NulError has the position of the first zero byte.
pub data LogError : Type 0 where
  nul_error : ℕ → LogError
  io_error : IoError → LogError
  send_error : LogError

-- "info"
abbrev pub info_word : Str
info_word = 105 ∷ 110 ∷ 102 ∷ 111 ∷ []

-- "debug"
abbrev pub debug_word : Str
debug_word = 100 ∷ 101 ∷ 98 ∷ 117 ∷ 103 ∷ []

-- "trace"
abbrev pub trace_word : Str
trace_word = 116 ∷ 114 ∷ 97 ∷ 99 ∷ 101 ∷ []

-- ": "
abbrev pub colon_space : Str
colon_space = 58 ∷ 32 ∷ []

-- ", "
abbrev pub comma_space : Str
comma_space = 44 ∷ 32 ∷ []

-- ", source: "
abbrev pub source_word : Str
source_word = 44 ∷ 32 ∷ 115 ∷ 111 ∷ 117 ∷ 114 ∷ 99 ∷ 101 ∷ 58 ∷ 32 ∷ []

-- ", module: "
abbrev pub module_word : Str
module_word = 44 ∷ 32 ∷ 109 ∷ 111 ∷ 100 ∷ 117 ∷ 108 ∷ 101 ∷ 58 ∷ 32 ∷ []

-- `rust_log` is the variable RUST_LOG.
abbrev pub unwrap_or : Option Str → Str → Str
unwrap_or none default = default
unwrap_or (some text) default = text

abbrev pub verbose : Option Str → ℕ → Str
verbose rust_log count =
    if count == 0
    then unwrap_or rust_log info_word
    else if count == 1
    then debug_word
    else trace_word

-- slog::Record, with the texts of its message and its line, and the pairs that it serializes.
pub record Record : Type 0 where
  pub msg : Str
  pub level : Level
  pub file : Str
  pub line : Str
  pub path : Str
  pub kv : List (Str × Str)

-- A Formatter is its `buf`. `at_least` is slog's order of the levels.
module _ (at_least : Level → Level → Bool) where
  abbrev pub new_formatter : Record → Str
  new_formatter r =
      if at_least r.level debug
      then r.msg ++ (source_word ++ (r.file ++ (58 ∷ (r.line ++ (module_word ++ r.path)))))
      else r.msg

  abbrev pub emit_arguments : Str → Str → Str → Str
  emit_arguments buf key val = buf ++ (comma_space ++ (key ++ (colon_space ++ val)))

  -- KV::serialize
  abbrev pub serialize : List (Str × Str) → Str → Str
  serialize [] buf = buf
  serialize ((key, val) ∷ pairs) buf = serialize pairs (emit_arguments buf key val)

  -- `values` are the pairs of the logger.
  unfoldable pub format_log : Record → List (Str × Str) → Str
  format_log r values = serialize values (serialize r.kv (new_formatter r))

-- What a target does outside: a write to standard error, and calls of syslog(3).
pub data Effect : Type 0 where
  write_stderr : Str → Effect
  openlog : Str → Effect
  syslog : ℕ → Str → Effect
  closelog : Effect

-- libc's priorities
pub record Priorities : Type 0 where
  pub log_crit : ℕ
  pub log_err : ℕ
  pub log_warning : ℕ
  pub log_info : ℕ
  pub log_debug : ℕ

-- The two kinds of targets, with the name of the program.
pub data Target : Type 0 where
  stderr : Str → Target
  background : Str → Target

-- What the drop of a target does; Drop for Syslog.
abbrev pub drop_target : Target → List Effect
drop_target (stderr name) = []
drop_target (background name) = closelog ∷ []

abbrev pub is_empty : Str → Bool
is_empty [] = true
is_empty (c ∷ text) = false

abbrev pub one_later : Option ℕ → Option ℕ
one_later none = none
one_later (some i) = some (suc i)

-- str::find of a character
abbrev pub find : ℕ → Str → Option ℕ
find c [] = none
find c (x ∷ text) = let rest = one_later (find c text) in if x == c then some 0 else rest

-- CString::new
abbrev pub cstring_at : Option ℕ → Str → Result LogError Str
cstring_at none text = ok text
cstring_at (some i) text = err (nul_error i)

abbrev pub cstring : Str → Result LogError Str
cstring text = cstring_at (find 0 text) text

-- &name[..name.find('(').unwrap_or_else(|| name.len())]
abbrev pub cut : Option ℕ → Str → Str
cut none name = name
cut (some i) name = take i name

abbrev pub opened : Result LogError Str → List Effect × Result LogError Target
opened (err e) = ([], err e)
opened (ok name) = (openlog name ∷ [], ok (background name))

-- Syslog::new, with LOG_PID | LOG_NDELAY and LOG_DAEMON.
unfoldable pub new_syslog : Str → List Effect × Result LogError Target
new_syslog name = opened (cstring (cut (find 40 name) name))

-- Stderr::new
abbrev pub new_stderr : Str → List Effect × Result LogError Target
new_stderr name = ([], ok (stderr name))

-- `write_all` is the answer of standard error.
module _ (p : Priorities) (write_all : Str → Result LogError (Unit {0})) where
  abbrev pub priority : Level → ℕ
  priority critical = p.log_crit
  priority error = p.log_err
  priority warning = p.log_warning
  priority info = p.log_info
  priority debug = p.log_debug
  priority trace = p.log_debug

  abbrev pub stderr_line : Str → Str → Str
  stderr_line name message =
      if is_empty name
      then message ++ (10 ∷ [])
      else name ++ (colon_space ++ (message ++ (10 ∷ [])))

  abbrev pub to_syslog : Result LogError Str → List Effect × Result LogError (Unit {0})
  to_syslog (err e) = ([], err e)
  to_syslog (ok message) = (syslog (priority info) message ∷ [], ok tt)

  -- Target::log_str
  unfoldable pub log_str : Target → Str → List Effect × Result LogError (Unit {0})
  log_str (stderr name) message =
      (write_stderr (stderr_line name message) ∷ [], write_all (stderr_line name message))
  log_str (background name) message = to_syslog (cstring message)
