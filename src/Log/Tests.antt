-- ===== src/Log/Tests.antt =====
-- Directives of log/src/envlogger.rs.
use privsep_rs.Prelude.{
  ℕ, leb, Bool, ◌≡◌, ◌↔◌, refl, true, Option, none, some, [], ◌∷◌, ◌++◌, ◌==◌, if◌then◌else◌,
}
use privsep_rs.Process.{Str}
use privsep_rs.Log
use privsep_rs.Log.{Filter, is_enabled, parse, comma}
use privsep_rs.Log.Enabled.{IsLastMatch, is_enabled_iff}
use privsep_rs.Log.Parse.{IsLevels, parse-show_all, parse-comma}

data Level : Type 0 where
  critical error warning info debug trace : Level

abbrev rank : Level → ℕ
rank critical = 1
rank error = 2
rank warning = 3
rank info = 4
rank debug = 5
rank trace = 6

abbrev at_most : Level → Level → Bool
at_most l k = leb (rank l) (rank k)

-- One letter for each level.
abbrev to_str : Level → Str
to_str critical = 99 ∷ []
to_str error = 101 ∷ []
to_str warning = 119 ∷ []
to_str info = 105 ∷ []
to_str debug = 100 ∷ []
to_str trace = 116 ∷ []

abbrev from_str : Str → Option Level
from_str [] = none
from_str (c ∷ _ ∷ _) = none
from_str (c ∷ []) =
    if c == 99
    then some critical
    else if c == 101
    then some error
    else if c == 119
    then some warning
    else if c == 105
    then some info
    else if c == 100
    then some debug
    else if c == 116
    then some trace
    else none

inverse : (l : Level) → from_str (to_str l) ≡ some l
inverse critical = refl
inverse error = refl
inverse warning = refl
inverse info = refl
inverse debug = refl
inverse trace = refl

plain : (l : Level) → Log.all_chars (to_str l) ≡ true
plain critical = refl
plain error = refl
plain warning = refl
plain info = refl
plain debug = refl
plain trace = refl

levels : IsLevels from_str to_str
levels = record { inverse = inverse; plain = plain }

-- `i,a=d`
abbrev all_info : Filter Level
all_info = record { module_prefix = none; level = info }

abbrev debug_a : Filter Level
debug_a = record { module_prefix = some (97 ∷ []); level = debug }

is_enabled_iff_example :
    (is_enabled at_most (all_info ∷ debug_a ∷ []) (97 ∷ 58 ∷ []) debug ≡ true) ↔ (
      (f : Filter Level) × IsLastMatch (all_info ∷ debug_a ∷ []) (97 ∷ 58 ∷ []) f
      × (at_most debug f.level ≡ true))
is_enabled_iff_example = is_enabled_iff at_most (all_info ∷ debug_a ∷ []) (97 ∷ 58 ∷ []) debug

parse-show_all_example : parse from_str (105 ∷ 44 ∷ 97 ∷ 61 ∷ 100 ∷ []) ≡ all_info ∷ debug_a ∷ []
parse-show_all_example = parse-show_all from_str to_str levels all_info (debug_a ∷ []) tt (refl, tt)

parse-comma_run :
    parse from_str ((63 ∷ []) ++ (comma ∷ 105 ∷ []))
    ≡ parse from_str (63 ∷ []) ++ parse from_str (105 ∷ [])
parse-comma_run = parse-comma from_str (63 ∷ []) (105 ∷ [])
