-- ===== src/Log/Identity.antt =====
-- The loggers of log/src/lib.rs under the displayed name of a process of privsep/src/process.rs.
use privsep_rs.Prelude.{
  ℕ, zero, suc, ◌≡◌, refl, ap, subst, ◌∙◌, Bool, true, false, Bool-cases, inl, inr, Option, some,
  [], ◌∷◌, ◌++◌, ◌||◌, get_elem?, ◌==◌, ==_iff, ok,
}
use privsep_rs.Process.{Str}
use privsep_rs.Process.Display.{display, display_child}
use privsep_rs.Log.Targets.{Level, Config, openlog, background}
use privsep_rs.Log.Global.{queued, Scope, Started, logger_of, async_logger}
use privsep_rs.Log.Syslog.{before, has}
use privsep_rs.Log.Start.{up, refused, opening, target_of, sync_logger-Outcome}

or_left : (a b : Bool) → (a || b) ≡ false → a ≡ false
or_left true b e = cc e
or_left false b e = refl

or_right : (a b : Bool) → (a || b) ≡ false → b ≡ false
or_right true b e = cc e
or_right false b e = e

-- A character that a text has not stands behind it first.
before-has : (c : ℕ) (text rest : Str) → has c text ≡ false → before c (text ++ (c ∷ rest)) ≡ text
before-has c [] rest free = rw ((==_iff c c).1 refl) refl
before-has c (x ∷ text) rest free = elim (Bool-cases (x == c)) [
  | inl e ↦ cc (or_left (x == c) (has c text) free, e)
  | inr e ↦
      rw e (ap (λ (t : Str). x ∷ t) (before-has c text rest (or_right (x == c) (has c text) free)))
]

get-has : (c i : ℕ) (text : Str) → get_elem? text i ≡ some c → has c text ≡ true
get-has c i [] at = cc at
get-has c zero (x ∷ text) at = rw ((==_iff x c).1 (cc at)) refl
get-has c (suc i) (x ∷ text) at = elim (Bool-cases (x == c)) [
  | inl e ↦ rw e refl
  | inr e ↦ rw e (get-has c i text at)
]

module _ (from_str : Str → Option Level) (rust_log : Option Str) (show_pid : ℕ → Str) where
  -- In the background, what a child of this name starts, and what its parent does.
  abbrev pub child_logger : Str → Config → Started
  child_logger name config = record {
    effects = openlog name ∷ [];
    scope = record {
      current = some (logger_of from_str rust_log (queued (background name)) config);
      initialized = true;
    };
    result = ok tt;
  }

  -- In the background, for a process whose name has no parenthesis and no zero byte: the async logger
  -- that is started under the displayed name of the process is not refused, opens syslog under the
  -- name alone, whatever the process id, and is the global one with the filters of the configuration.
  pub async_logger-display :
      (name : Str) (pid : ℕ) (config : Config) (scope : Scope)
      → has 40 name ≡ false
      → has 0 name ≡ false
      → config.foreground ≡ false
      → async_logger from_str rust_log (display_child show_pid name pid) config scope
        ≡ child_logger name config
  async_logger-display name pid config scope no_paren no_zero background_set =
      elim (sync_logger-Outcome from_str rust_log (display show_pid name pid) config scope).1 [
        | up started ↦
            started
            ∙ ap (λ (foreground : Bool). opened foreground) background_set
            ∙ ap (λ (text : Str). child_logger text config) cut
        | refused i _ at _ ↦
            cc
              (get-has 0 i name (subst (λ (text : Str). get_elem? text i ≡ some 0) cut at), no_zero)
      ]
    where
      cut : before 40 (display show_pid name pid) ≡ name
      cut = before-has 40 name (show_pid pid ++ (41 ∷ [])) no_paren

      opened : Bool → Started
      opened foreground = record {
        effects = opening foreground (display show_pid name pid);
        scope = record {
          current = some (
              logger_of from_str rust_log
                (queued (target_of foreground (display show_pid name pid))) config);
          initialized = true;
        };
        result = ok tt;
      }
