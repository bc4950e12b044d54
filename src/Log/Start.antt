-- ===== src/Log/Start.antt =====
-- sync_logger and async_logger of log/src/lib.rs.
use privsep_rs.Prelude.{
  ℕ, ◌≡◌, inl, inr, refl, ap, ◌∙◌, if-true, Bool, true, false, Bool-cases, Option, some, List, [],
  ◌∷◌, get_elem?, if◌then◌else◌, ok, err,
}
use privsep_rs.Process.{Str}
use privsep_rs.Log.Targets.{Level, Config, nul_error, Effect, openlog, Target, stderr, background}
use privsep_rs.Log.Global.{
  Drain, at_once, queued, Logger, Scope, Started, logger_of, init, started, new_target, sync_logger,
  async_logger,
}
use privsep_rs.Log.Syslog.{before, new_syslog-outcome}

-- The target of a program with this name, and the calls that open it.
abbrev pub target_of : Bool → Str → Target
target_of foreground name = if foreground then stderr name else background (before 40 name)

abbrev pub opening : Bool → Str → List Effect
opening foreground name = if foreground then [] else openlog (before 40 name) ∷ []

-- The logger is the global one.
abbrev in_place : List Effect → Logger → Bool → Started
in_place effects logger initialized = record {
  effects = effects;
  scope = record { current = some logger; initialized = initialized };
  result = ok tt;
}

module _ (from_str : Str → Option Level) (rust_log : Option Str) where
  -- A start that ends with the logger of the configuration as the global one, or, in the background
  -- only, with an error on a zero byte of the name, and the default logger in place.
  pub data Outcome (drain : Target → Drain) (name : Str) (config : Config) (scope : Scope)
      (s : Started) : Type 0 where
    up :
        s ≡ record {
          effects = opening config.foreground name;
          scope = record {
            current =
                some
                  (logger_of from_str rust_log (drain (target_of config.foreground name)) config);
            initialized = true;
          };
          result = ok tt;
        }
        → Outcome drain name config scope s
    refused :
        (i : ℕ)
        → config.foreground ≡ false
        → get_elem? (before 40 name) i ≡ some 0
        → s ≡ record {
          effects = [];
          scope = init from_str rust_log scope;
          result = err (nul_error i);
        }
        → Outcome drain name config scope s

  init-initialized : (scope : Scope) → (init from_str rust_log scope).initialized ≡ true
  init-initialized scope = elim (Bool-cases scope.initialized) [
    | inl e ↦ ap (λ (s : Scope). s.initialized) (if-true scope.initialized scope _ e) ∙ e
    | inr e ↦ rw e refl
  ]

  started-Outcome :
      (drain : Target → Drain) (name : Str) (foreground : Bool) (filter : Option Str)
      (scope : Scope)
      → Outcome drain name
          (record { foreground = foreground; filter = filter })
          scope
          (started from_str rust_log drain
            (record { foreground = foreground; filter = filter })
            (init from_str rust_log scope)
            (new_target from_str rust_log foreground name))
  started-Outcome drain name true filter scope = up (
      ap
        (in_place [] (
          logger_of from_str rust_log (drain (stderr name))
            (record { foreground = true; filter = filter })))
        (init-initialized scope))
  started-Outcome drain name false filter scope = elim (new_syslog-outcome name) [
    | inl (_, opened) ↦ up (
        ap
          (started from_str rust_log drain (record { foreground = false; filter = filter })
            (init from_str rust_log scope))
          opened
        ∙ ap
            (in_place (openlog (before 40 name) ∷ []) (
              logger_of from_str rust_log (drain (background (before 40 name)))
                (record { foreground = false; filter = filter })))
            (init-initialized scope))
    | inr (i, at, failed) ↦ refused i refl at (
        ap
          (started from_str rust_log drain (record { foreground = false; filter = filter })
            (init from_str rust_log scope))
          failed)
  ]

  pub sync_logger-Outcome :
      (name : Str) (config : Config) (scope : Scope)
      → Outcome at_once name config scope (sync_logger from_str rust_log name config scope)
        × Outcome queued name config scope (async_logger from_str rust_log name config scope)
  unfolding sync_logger async_logger
  sync_logger-Outcome name config scope = (
    started-Outcome at_once name config.foreground config.filter scope,
    started-Outcome queued name config.foreground config.filter scope,
  )
