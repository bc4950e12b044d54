-- ===== src/Log/Global.antt =====
-- log/src/lib.rs: the global logger, its start and its guard.
use privsep_rs.Prelude.{Bool, true, Option, some, List, [], if◌then◌else◌, Result, ok, err}
use privsep_rs.Process.{Str}
use privsep_rs.Log.{Filter, with_default_filter}
use privsep_rs.Log.Targets.{
  Level, Config, LogError, info_word, debug_word, unwrap_or, Effect, Target, stderr, new_stderr,
  new_syslog,
}

-- Where a logger's records go: to the target at once, or through the queue of the background task.
pub data Drain : Type 0 where
  at_once : Target → Drain
  queued : Target → Drain

pub record Logger : Type 0 where
  pub filters : List (Filter Level)
  pub drain : Drain

-- The global logger of slog_scope, `none` where it discards records, and whether GLOBAL_LOGGER is
-- initialized.
pub record Scope : Type 0 where
  pub current : Option Logger
  pub initialized : Bool

-- What a start did: the calls outside, and the scope and the result.
pub record Started : Type 0 where
  pub effects : List Effect
  pub scope : Scope
  pub result : Result LogError (Unit {0})

-- `from_str` is Level::from_str and `rust_log` the variable RUST_LOG.
module _ (from_str : Str → Option Level) (rust_log : Option Str) where
  -- The logger that `new` makes.
  abbrev pub logger_of : Drain → Config → Logger
  logger_of drain config = record {
    filters = with_default_filter from_str rust_log (unwrap_or config.filter info_word);
    drain = drain;
  }

  -- `new`: the logger becomes the global one.
  abbrev pub new : Drain → Config → Scope → Scope
  new drain config scope = record scope { current = some (logger_of drain config) }

  -- GLOBAL_LOGGER
  abbrev pub global_logger : Logger
  global_logger =
      logger_of (at_once (stderr [])) (record { foreground = true; filter = some debug_word })

  abbrev pub init : Scope → Scope
  init scope =
      if scope.initialized
      then scope
      else record { current = some global_logger; initialized = true }

  abbrev pub started :
      (Target → Drain) → Config → Scope → List Effect × Result LogError Target → Started
  started drain config scope (effects, err e) = record {
    effects = effects;
    scope = scope;
    result = err e;
  }
  started drain config scope (effects, ok target) = record {
    effects = effects;
    scope = new (drain target) config scope;
    result = ok tt;
  }

  abbrev pub new_target : Bool → Str → List Effect × Result LogError Target
  new_target foreground name = if foreground then new_stderr name else new_syslog name

  unfoldable pub sync_logger : Str → Config → Scope → Started
  sync_logger name config scope =
      started at_once config (init scope) (new_target config.foreground name)

  unfoldable pub async_logger : Str → Config → Scope → Started
  async_logger name config scope =
      started queued config (init scope) (new_target config.foreground name)

  -- Drop for LoggerGuard; `reset` is the drop of its field `_guard`, which comes after the body.
  unfoldable pub drop_guard : (Option Logger → Option Logger) → Scope → Scope
  drop_guard reset scope = record { current = reset (some global_logger); initialized = true }
