-- ===== src/Log/Enabled.antt =====
-- Directives::is_enabled of log/src/envlogger.rs.
use privsep_rs.Prelude.{
  ◌≡◌, ◌↔◌, ◌⊎◌, inl, inr, refl, ap, sym, ◌∙◌, Bool, true, not, ◌&&◌, Bool-cases, Option, none,
  some, List, [], ◌∷◌, ◌++◌, arith,
}
use privsep_rs.Process.{Str}
use privsep_rs.Log.{Filter, matches, match_module, last_match, later, level_test, is_enabled}

module _ {Level : Type 0} where
  -- No filter of the list is about the module.
  abbrev pub none_matches : List (Filter Level) → Str → Bool
  none_matches [] text = true
  none_matches (f ∷ filters) text = not (matches f.module_prefix text) && none_matches filters text

  -- This filter is the last one of the list that is about the module.
  pub record IsLastMatch (filters : List (Filter Level)) (text : Str) (f : Filter Level)
      : Type 0 where
    pub before : List (Filter Level)
    pub after : List (Filter Level)
    pub parts : filters ≡ before ++ (f ∷ after)
    pub matched : matches f.module_prefix text ≡ true
    pub unmatched : none_matches after text ≡ true

  last_match-none :
      (filters : List (Filter Level)) (text : Str) (found : Option (Filter Level))
      → none_matches filters text ≡ true
      → last_match filters text found ≡ found
  last_match-none [] text found h = refl
  last_match-none (f ∷ filters) text found h = elim (Bool-cases (matches f.module_prefix text)) [
    | inl e ↦ absurd (ground (arith, h, e))
    | inr e ↦ rw e (last_match-none filters text found (ground (arith, h)))
  ]

  last_match-append :
      (before filters : List (Filter Level)) (text : Str) (found : Option (Filter Level))
      → last_match (before ++ filters) text found
        ≡ last_match filters text (last_match before text found)
  last_match-append [] filters text found = refl
  last_match-append (f ∷ before) filters text found =
      last_match-append before filters text (later (match_module f text) found)

  last_match-IsLastMatch :
      (filters : List (Filter Level)) (text : Str) (f : Filter Level)
      (found : Option (Filter Level))
      → IsLastMatch filters text f
      → last_match filters text found ≡ some f
  last_match-IsLastMatch filters text f found l =
      ap (λ (fs : List (Filter Level)). last_match fs text found) l.parts
      ∙ last_match-append l.before (f ∷ l.after) text found
      ∙ rw (l.matched) (last_match-none l.after text (some f) l.unmatched)

  -- A list of filters has a last one that is about the module, or none.
  pub IsLastMatch-cases :
      (filters : List (Filter Level)) (text : Str)
      → (none_matches filters text ≡ true) ⊎ ((f : Filter Level) × IsLastMatch filters text f)
  IsLastMatch-cases [] text = inl refl
  IsLastMatch-cases (f ∷ filters) text = elim (IsLastMatch-cases filters text) [
    | inr (g, l) ↦ inr (
      g,
      record {
        before = f ∷ l.before;
        after = l.after;
        parts = ap (λ (fs : List (Filter Level)). f ∷ fs) l.parts;
        matched = l.matched;
        unmatched = l.unmatched;
      },
    )
    | inl none_later ↦ elim (Bool-cases (matches f.module_prefix text)) [
      | inl e ↦ inr (
        f,
        record { before = []; after = filters; parts = refl; matched = e; unmatched = none_later },
      )
      | inr e ↦ inl (rw (e, none_later) refl)
    ]
  ]

module _ {Level : Type 0} (at_most : Level → Level → Bool) where
  -- A record is logged just if some filter is about its module, and the last one that is allows its level.
  pub is_enabled_iff :
      (filters : List (Filter Level)) (text : Str) (level : Level)
      → (is_enabled at_most filters text level ≡ true)
        ↔ ((f : Filter Level) × IsLastMatch filters text f × (at_most level f.level ≡ true))
  unfolding is_enabled
  is_enabled_iff filters text level = (
    λ h. elim (IsLastMatch-cases filters text) [
      | inl none_at_all ↦ absurd (
          ground (
            arith,
            h,
            ap (λ (o : Option (Filter Level)). level_test at_most o level)
                (last_match-none filters text none none_at_all),
          ))
      | inr (f, l) ↦ (
        f,
        l,
        (sym (
              ap (λ (o : Option (Filter Level)). level_test at_most o level)
                (last_match-IsLastMatch filters text f none l))
            ∙ h),
      )
    ],
    λ r.
        ap (λ (o : Option (Filter Level)). level_test at_most o level)
          (last_match-IsLastMatch filters text r.0 none r.1)
        ∙ r.2,
  )
