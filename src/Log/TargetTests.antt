-- ===== src/Log/TargetTests.antt =====
-- The targets and the async logger of log/src/lib.rs.
use privsep_rs.Prelude.{
  ℕ, suc, ◌+◌, ◌≡◌, refl, ◌⊎◌, Bool, true, false, Option, none, some, [], ◌∷◌, length, get_elem?,
  Result, ok, err,
}
use privsep_rs.Stream.{write_zero}
use privsep_rs.Process.{Str}
use privsep_rs.Log.Targets.{
  Level, info, debug, Config, LogError, io_error, nul_error, Record, openlog, syslog, Priorities,
  stderr, background, new_syslog, log_str,
}
use privsep_rs.Log.Async.{new, listen, log_async, drop}
use privsep_rs.Log.Async
use privsep_rs.Log.Delivery.{
  Run, stop, step, logs, listens, Delivers, repeat, sync_output, Run-Delivers, drop-flushes,
}
use privsep_rs.Log.Global.{Scope, async_logger}
use privsep_rs.Log.Syslog.{has, before, new_syslog-outcome, log_str-outcome}
use privsep_rs.Process.Display.{display_child}
use privsep_rs.Log.Identity.{child_logger, async_logger-display}

abbrev at_least : Level → Level → Bool
at_least debug debug = true
at_least _ _ = false

abbrev priorities : Priorities
priorities = record { log_crit = 2; log_err = 3; log_warning = 4; log_info = 6; log_debug = 7 }

-- Standard error is closed.
abbrev write_all : Str → Result LogError (Unit {0})
write_all text = err (io_error write_zero)

abbrev hello : Record
hello = record { msg = 104 ∷ 105 ∷ []; level = info; file = []; line = []; path = []; kv = [] }

abbrev fault : Record
fault = record hello { level = debug; kv = (107 ∷ [], 118 ∷ []) ∷ [] }

-- Two records are logged, and the task has taken the first one.
abbrev task : Async.Async
task =
    (log_async at_least priorities write_all (stderr (112 ∷ [])) fault [] (
      listen at_least priorities write_all (stderr (112 ∷ []))
        (log_async at_least priorities write_all (stderr (112 ∷ [])) hello [] new).0)).0

task-Run :
    Run at_least priorities write_all (stderr (112 ∷ [])) new ((hello, []) ∷ (fault, []) ∷ []) task
task-Run = step (logs hello []) (step listens (step (logs fault []) stop))

Run-Delivers_example :
    Delivers at_least priorities write_all (stderr (112 ∷ [])) task ((hello, []) ∷ (fault, []) ∷ [])
Run-Delivers_example =
    Run-Delivers at_least priorities write_all (stderr (112 ∷ [])) task
      ((hello, []) ∷ (fault, []) ∷ []) task-Run

drop-flushes_example :
    let dropped = drop at_least priorities write_all (stderr (112 ∷ [])) task in
    (dropped.1 ≡ ok tt)
    × (repeat
          (listen at_least priorities write_all (stderr (112 ∷ [])))
          (suc (length task.queue))
          dropped.0
        ≡ record {
          queue = [];
          listening = false;
          output =
              sync_output at_least priorities write_all
                (stderr (112 ∷ []))
                ((hello, []) ∷ (fault, []) ∷ []);
        })
drop-flushes_example =
    drop-flushes at_least priorities write_all (stderr (112 ∷ [])) task
      ((hello, []) ∷ (fault, []) ∷ []) task-Run

new_syslog-outcome_example :
    ((has 0 (before 40 (97 ∷ 40 ∷ 98 ∷ [])) ≡ false)
      × (new_syslog (97 ∷ 40 ∷ 98 ∷ []) ≡ (
        openlog (before 40 (97 ∷ 40 ∷ 98 ∷ [])) ∷ [],
        ok (background (before 40 (97 ∷ 40 ∷ 98 ∷ []))),
      )))
    ⊎ ((i : ℕ) × (get_elem? (before 40 (97 ∷ 40 ∷ 98 ∷ [])) i ≡ some 0)
        × (new_syslog (97 ∷ 40 ∷ 98 ∷ []) ≡ ([], err (nul_error i))))
new_syslog-outcome_example = new_syslog-outcome (97 ∷ 40 ∷ 98 ∷ [])

log_str-outcome_example :
    ((has 0 (37 ∷ []) ≡ false)
      × (log_str priorities write_all (background []) (37 ∷ [])
          ≡ (syslog priorities.log_info (37 ∷ []) ∷ [], ok tt)))
    ⊎ ((i : ℕ) × (get_elem? {A = ℕ} (37 ∷ []) i ≡ some 0)
        × (log_str priorities write_all (background []) (37 ∷ []) ≡ ([], err (nul_error i))))
log_str-outcome_example = log_str-outcome priorities write_all [] (37 ∷ [])

abbrev from_str : Str → Option Level
from_str text = some info

abbrev config : Config
config = record { foreground = false; filter = none }

abbrev unset : Scope
unset = record { current = none; initialized = false }

-- One digit of the process id.
abbrev show_pid : ℕ → Str
show_pid pid = (48 + pid) ∷ []

async_logger-display_run :
    async_logger from_str none (display_child show_pid (97 ∷ []) 7) config unset
    ≡ child_logger from_str none show_pid (97 ∷ []) config
async_logger-display_run =
    async_logger-display from_str none show_pid (97 ∷ []) 7 config unset refl refl refl
