-- ===== src/Log/Parse.antt =====
-- The parser of directives in log/src/envlogger.rs.
use privsep_rs.Prelude.{
  ℕ, ◌≡◌, refl, ap, ◌∙◌, Bool, true, false, not, ◌&&◌, Bool-cases, inl, inr, Option, none, some,
  List, [], ◌∷◌, ◌++◌, All, ◌==◌, ==-refl, if◌then◌else◌, arith,
}
use privsep_rs.Process.{Str}
use privsep_rs.Log.{
  Filter, add_char, split, comma, equals, all_chars, directive, push, filters_of, parse,
}

-- No character of the text is the separator.
abbrev pub free_of : ℕ → Str → Bool
free_of sep [] = true
free_of sep (c ∷ text) = not (c == sep) && free_of sep text

split-free_of : (sep : ℕ) (text : Str) → free_of sep text ≡ true → split sep text ≡ text ∷ []
split-free_of sep [] h = refl
split-free_of sep (c ∷ text) h =
    let other : (c == sep) ≡ false = ground (arith, h) in
    rw (other, split-free_of sep text (ground (arith, h))) refl

-- What stands before a separator is a part of its own.
split-append :
    (sep : ℕ) (text rest : Str)
    → free_of sep text ≡ true
    → split sep (text ++ (sep ∷ rest)) ≡ text ∷ split sep rest
split-append sep [] rest h = rw (==-refl sep) refl
split-append sep (c ∷ text) rest h =
    let other : (c == sep) ≡ false = ground (arith, h) in
    rw (other, split-append sep text rest (ground (arith, h))) refl

all_chars-free_of : (text : Str) → all_chars text ≡ true → free_of equals text ≡ true
all_chars-free_of [] h = refl
all_chars-free_of (c ∷ text) h = ground (arith, all_chars-free_of text, h)

all_chars-free_of-comma : (text : Str) → all_chars text ≡ true → free_of comma text ≡ true
all_chars-free_of-comma [] h = refl
all_chars-free_of-comma (c ∷ text) h = ground (arith, all_chars-free_of-comma text, h)

free_of-append :
    (sep : ℕ) (xs ys : Str) → free_of sep (xs ++ ys) ≡ (free_of sep xs && free_of sep ys)
free_of-append sep [] ys = refl
free_of-append sep (c ∷ xs) ys = ground (arith, free_of-append sep xs ys)

add_char-split :
    (c sep : ℕ) (text : Str) (ys : List Str)
    → add_char c (split sep text ++ ys) ≡ add_char c (split sep text) ++ ys
add_char-split c sep [] ys = refl
add_char-split c sep (d ∷ text) ys = go (d == sep) (split sep text)
  where
    go :
        (t : Bool) (parts : List Str)
        → add_char c ((if t then [] ∷ parts else add_char d parts) ++ ys)
          ≡ add_char c (if t then [] ∷ parts else add_char d parts) ++ ys
    go true parts = refl
    go false [] = refl
    go false (p ∷ parts) = refl

split-concat :
    (sep : ℕ) (text rest : Str)
    → split sep (text ++ (sep ∷ rest)) ≡ split sep text ++ split sep rest
split-concat sep [] rest = rw (==-refl sep) refl
split-concat sep (c ∷ text) rest = elim (Bool-cases (c == sep)) [
  | inl e ↦ rw (e, split-concat sep text rest) refl
  | inr ne ↦ rw (ne, split-concat sep text rest) (add_char-split c sep text (split sep rest))
]

module _ {Level : Type 0} (from_str : Str → Option Level) where
  filters_of-append :
      (xs ys : List Str)
      → filters_of from_str (xs ++ ys) ≡ filters_of from_str xs ++ filters_of from_str ys
  filters_of-append [] ys = refl
  filters_of-append (x ∷ xs) ys =
      ap (push (directive from_str (split equals x))) (filters_of-append xs ys)
      ∙ push-append (directive from_str (split equals x))
    where
      push-append :
          (o : Option (Filter Level))
          → push o (filters_of from_str xs ++ filters_of from_str ys)
            ≡ push o (filters_of from_str xs) ++ filters_of from_str ys
      push-append none = refl
      push-append (some f) = refl

  -- A comma separates two texts of directives: the filters are those of the first text, then those of
  -- the second, whatever is invalid in either.
  pub parse-comma :
      (text rest : Str)
      → parse from_str (text ++ (comma ∷ rest)) ≡ parse from_str text ++ parse from_str rest
  unfolding parse
  parse-comma text rest =
      ap (filters_of from_str) (split-concat comma text rest)
      ∙ filters_of-append (split comma text) (split comma rest)

  module _ (to_str : Level → Str) where
    -- The text of a filter.
    abbrev pub show : Option Str → Level → Str
    show none level = to_str level
    show (some prefix) level = prefix ++ (equals ∷ to_str level)

    abbrev pub show_all : Filter Level → List (Filter Level) → Str
    show_all f [] = show f.module_prefix f.level
    show_all f (g ∷ filters) = show f.module_prefix f.level ++ (comma ∷ show_all g filters)

    -- A module prefix is of the characters that are allowed.
    abbrev pub IsPrefix : Option Str → Type 0
    IsPrefix none = Unit {0}
    IsPrefix (some prefix) = all_chars prefix ≡ true

    -- The names of the levels are of such characters, and read back.
    pub record IsLevels : Type 0 where
      pub inverse : (l : Level) → from_str (to_str l) ≡ some l
      pub plain : (l : Level) → all_chars (to_str l) ≡ true

    module _ (levels : IsLevels) where
      free_of-show : (m : Option Str) (l : Level) → IsPrefix m → free_of comma (show m l) ≡ true
      free_of-show none l valid = all_chars-free_of-comma (to_str l) (levels.plain l)
      free_of-show (some prefix) l valid =
          free_of-append comma prefix (equals ∷ to_str l)
          ∙ rw
              (
                all_chars-free_of-comma prefix valid,
                all_chars-free_of-comma (to_str l) (levels.plain l),
              )
              refl

      directive-show :
          (m : Option Str) (l : Level)
          → IsPrefix m
          → directive from_str (split equals (show m l))
            ≡ some (record { module_prefix = m; level = l })
      directive-show none l valid =
          rw
            (
              split-free_of equals (to_str l) (all_chars-free_of (to_str l) (levels.plain l)),
              levels.inverse l,
            )
            refl
      directive-show (some prefix) l valid =
          rw
            (
              split-append equals prefix (to_str l) (all_chars-free_of prefix valid),
              split-free_of equals (to_str l) (all_chars-free_of (to_str l) (levels.plain l)),
              valid,
              levels.inverse l,
            )
            refl

      -- For names of levels that are plain and read back, a list of filters, with module prefixes of
      -- allowed characters, is what the parser makes of its text.
      pub parse-show_all :
          (f : Filter Level) (filters : List (Filter Level))
          → IsPrefix f.module_prefix
          → All (λ g. IsPrefix g.module_prefix) filters
          → parse from_str (show_all f filters) ≡ f ∷ filters
      unfolding parse
      parse-show_all f [] valid all_valid =
          rw
            (
              split-free_of comma (show f.module_prefix f.level)
                  (free_of-show f.module_prefix f.level valid),
              directive-show f.module_prefix f.level valid,
            )
            refl
      parse-show_all f (g ∷ filters) valid (g_valid, all_valid) =
          rw
            (
              split-append comma (show f.module_prefix f.level) (show_all g filters)
                  (free_of-show f.module_prefix f.level valid),
              directive-show f.module_prefix f.level valid,
              parse-show_all g filters g_valid all_valid,
            )
            refl
