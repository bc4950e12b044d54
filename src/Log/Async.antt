-- ===== src/Log/Async.antt =====
-- log/src/lib.rs: the drains, and the async logger with its background task.
use privsep_rs.Prelude.{Bool, true, false, List, [], ◌∷◌, ◌++◌, if◌then◌else◌, Result, ok, err}
use privsep_rs.Process.{Str}
use privsep_rs.Log.Targets.{
  Level, LogError, send_error, Record, format_log, Effect, Priorities, Target, log_str,
}

pub data Message : Type 0 where
  entry : Level → Str → Message
  close : Message

-- A channel with its background task: the messages in it, whether the task still receives, and what
-- its target did.
pub record Async : Type 0 where
  pub queue : List Message
  pub listening : Bool
  pub output : List Effect

-- Async::new
abbrev pub new : Async
new = record { queue = []; listening = true; output = [] }

-- UnboundedSender::send: it fails when the receiver is dropped.
abbrev pub send : Message → Async → Async × Result LogError (Unit {0})
send m a =
    if a.listening then (record a { queue = a.queue ++ (m ∷ []) }, ok tt) else (a, err send_error)

module _ (at_least : Level → Level → Bool) (p : Priorities)
    (write_all : Str → Result LogError (Unit {0})) (target : Target) where
  -- Drain for Stderr and Drain for Syslog
  unfoldable pub log_sync : Record → List (Str × Str) → List Effect × Result LogError (Unit {0})
  log_sync r values = log_str p write_all target (format_log at_least r values)

  -- Drain for Async
  unfoldable pub log_async : Record → List (Str × Str) → Async → Async × Result LogError (Unit {0})
  log_async r values a = send (entry r.level (format_log at_least r values)) a

  -- One round of AsyncLogger::listen; on an empty queue it waits. The result of log_str is not used.
  abbrev pub received : List Message → Async → Async
  received [] a = a
  received (entry level message ∷ queue) a = record a {
    queue = queue;
    output = a.output ++ (log_str p write_all target message).0;
  }
  received (close ∷ queue) a = record a { queue = queue; listening = false }

  unfoldable pub listen : Async → Async
  listen a = if a.listening then received a.queue a else a

  -- Drop for Async, up to the wait for the task; an error of `send` is a panic.
  abbrev pub drop : Async → Async × Result LogError (Unit {0})
  drop a = send close a
