-- ===== src/Log.antt =====
-- log/src/envlogger.rs: the filter of log records.
pub mod Enabled
pub mod Parse
pub mod Targets
pub mod Async
pub mod Delivery
pub mod Global
pub mod Syslog
pub mod Start
pub mod Identity
mod TargetTests
mod Tests
use privsep_rs.Prelude.{
  ℕ, ◌≡◌, Bool, true, false, not, ◌&&◌, ◌||◌, Option, none, some, List, [], ◌∷◌, ◌++◌, ltb, leb,
  ◌==◌, if◌then◌else◌, Result, ok,
}
use privsep_rs.Process.{Str}

pub record Filter (Level : Type 0) : Type 0 where
  pub module_prefix : Option Str
  pub level : Level

-- str::starts_with
abbrev pub starts_with : Str → Str → Bool
starts_with text [] = true
starts_with [] (p ∷ prefix) = false
starts_with (t ∷ text) (p ∷ prefix) = (t == p) && starts_with text prefix

-- self.module.as_ref().map_or(Some(self), ..), as a test
abbrev pub matches : Option Str → Str → Bool
matches none text = true
matches (some prefix) text = starts_with text prefix

-- str::split of a text at a character
abbrev pub add_char : ℕ → List Str → List Str
add_char c [] = (c ∷ []) ∷ []
add_char c (part ∷ parts) = (c ∷ part) ∷ parts

abbrev pub split : ℕ → Str → List Str
split sep [] = [] ∷ []
split sep (c ∷ text) =
    let parts = split sep text in if c == sep then [] ∷ parts else add_char c parts

abbrev pub comma : ℕ
comma = 44

abbrev pub equals : ℕ
equals = 61

-- '0'..='9' | 'a'..='z' | 'A'..='Z' | ':' | '_'
abbrev pub module_char : ℕ → Bool
module_char c =
    (leb 48 c && leb c 57)
    || ((leb 97 c && leb c 122) || ((leb 65 c && leb c 90) || ((c == 58) || (c == 95))))

abbrev pub all_chars : Str → Bool
all_chars [] = true
all_chars (c ∷ text) = module_char c && all_chars text

module _ {Level : Type 0} where
  abbrev pub match_module : Filter Level → Str → Option (Filter Level)
  match_module filter text = if matches filter.module_prefix text then some filter else none

  abbrev pub later : Option (Filter Level) → Option (Filter Level) → Option (Filter Level)
  later none found = found
  later (some f) found = some f

  -- filter_map(..).last(), after this filter
  abbrev pub last_match : List (Filter Level) → Str → Option (Filter Level) → Option (Filter Level)
  last_match [] text found = found
  last_match (f ∷ filters) text found = last_match filters text (later (match_module f text) found)

  abbrev pub with_module : Option Str → Option Level → Option (Filter Level)
  with_module m none = none
  with_module m (some level) = some (record { module_prefix = m; level = level })

  abbrev pub push : Option (Filter Level) → List (Filter Level) → List (Filter Level)
  push none filters = filters
  push (some f) filters = f ∷ filters

-- Level and its from_str are slog's.
module _ {Level : Type 0} (from_str : Str → Option Level) where
  abbrev pub directive : List Str → Option (Filter Level)
  directive (value ∷ []) = with_module none (from_str value)
  directive (key ∷ value ∷ []) =
      let parsed = with_module (some key) (from_str value) in if all_chars key then parsed else none
  directive _ = none

  abbrev pub filters_of : List Str → List (Filter Level)
  filters_of [] = []
  filters_of (part ∷ parts) = push (directive (split equals part)) (filters_of parts)

  -- From<String> for Directives
  unfoldable pub parse : Str → List (Filter Level)
  parse text = filters_of (split comma text)

  -- Logger::with_default_filter; `rust_log` is the variable RUST_LOG.
  unfoldable pub with_default_filter : Option Str → Str → List (Filter Level)
  unfolding parse
  with_default_filter none filter = parse filter
  with_default_filter (some text) filter = parse text

-- Level and its order are slog's.
module _ {Level : Type 0} (at_most : Level → Level → Bool) where
  abbrev pub match_level : Filter Level → Level → Bool
  match_level filter level = at_most level filter.level

  abbrev pub level_test : Option (Filter Level) → Level → Bool
  level_test none level = false
  level_test (some f) level = match_level f level

  unfoldable pub is_enabled : List (Filter Level) → Str → Level → Bool
  is_enabled filters text level = level_test (last_match filters text none) level

  -- Drain::log, where `drain` is what the inner drain makes of the record.
  unfoldable pub log :
      {E : Type 0} → List (Filter Level) → Str → Level → Result E (Unit {0}) → Result E (Unit {0})
  unfolding is_enabled
  log filters text level drain = if is_enabled filters text level then drain else ok tt
