-- ===== src/Log/Syslog.antt =====
-- Syslog of log/src/lib.rs: its name and its messages.
use privsep_rs.Prelude.{
  ℕ, suc, ◌≡◌, ◌⊎◌, inl, inr, refl, ap, ◌∙◌, Bool, true, false, ◌||◌, Bool-cases, Option, none,
  some, [], ◌∷◌, get_elem?, ◌==◌, ==_iff, if◌then◌else◌, Result, ok, err,
}
use privsep_rs.Process.{Str}
use privsep_rs.Log.Targets.{
  LogError, nul_error, openlog, syslog, Priorities, background, one_later, find, cut, new_syslog,
  log_str,
}

-- The character is in the text.
abbrev pub has : ℕ → Str → Bool
has c [] = false
has c (x ∷ text) = (x == c) || has c text

cut-later : (o : Option ℕ) (x : ℕ) (text : Str) → cut (one_later o) (x ∷ text) ≡ x ∷ cut o text
cut-later none x text = refl
cut-later (some i) x text = refl

-- A search finds nothing, in a text without the character, or a place where the character is.
find-has :
    (c : ℕ) (text : Str)
    → ((find c text ≡ none) × (has c text ≡ false))
      ⊎ ((i : ℕ) × (find c text ≡ some i) × (get_elem? text i ≡ some c) × (has c text ≡ true))
find-has c [] = inl (refl, refl)
find-has c (x ∷ text) = elim (Bool-cases (x == c)) [
  | inl e ↦ inr (0, rw e refl, ap (λ (y : ℕ). some y) ((==_iff x c).0 e), rw e refl)
  | inr e ↦ elim (find-has c text) [
    | inl (f, h) ↦ inl (rw (e, f) refl, rw (e, h) refl)
    | inr (i, f, at, h) ↦ inr (suc i, rw (e, f) refl, at, rw (e, h) refl)
  ]
]

-- The part of a text before the first of a character.
abbrev pub before : ℕ → Str → Str
before c [] = []
before c (x ∷ text) = let rest = before c text in if x == c then [] else x ∷ rest

cut-before : (c : ℕ) (text : Str) → cut (find c text) text ≡ before c text
cut-before c [] = refl
cut-before c (x ∷ text) = elim (Bool-cases (x == c)) [
  | inl e ↦ rw e refl
  | inr e ↦ rw e (cut-later (find c text) x text ∙ ap (λ (t : Str). x ∷ t) (cut-before c text))
]

-- A name without a zero byte before its first parenthesis is opened up to that parenthesis; any other
-- is refused with the place of a zero byte, and nothing is opened.
pub new_syslog-outcome :
    (name : Str)
    → ((has 0 (before 40 name) ≡ false)
        × (new_syslog name ≡ (openlog (before 40 name) ∷ [], ok (background (before 40 name)))))
      ⊎ ((i : ℕ) × (get_elem? (before 40 name) i ≡ some 0)
          × (new_syslog name ≡ ([], err (nul_error i))))
unfolding new_syslog
new_syslog-outcome name = elim (find-has 0 (before 40 name)) [
  | inl (f, h) ↦ inl (h, rw (cut-before 40 name, f) refl)
  | inr (i, f, at, h) ↦ inr (i, at, rw (cut-before 40 name, f) refl)
]

-- In the background a message without a zero byte is logged by one call of syslog(3), with the
-- message as the format and the priority LOG_INFO, whatever its level; any other is refused with
-- the place of a zero byte, and nothing is logged.
pub log_str-outcome :
    (p : Priorities) (write_all : Str → Result LogError (Unit {0})) (name message : Str)
    → ((has 0 message ≡ false)
        × (log_str p write_all (background name) message ≡ (syslog p.log_info message ∷ [], ok tt)))
      ⊎ ((i : ℕ) × (get_elem? message i ≡ some 0)
          × (log_str p write_all (background name) message ≡ ([], err (nul_error i))))
unfolding log_str
log_str-outcome p write_all name message = elim (find-has 0 message) [
  | inl (f, h) ↦ inl (h, rw f refl)
  | inr (i, f, at, h) ↦ inr (i, at, rw f refl)
]
