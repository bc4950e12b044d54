-- ===== src/Prelude/Iter.antt =====
-- A Rust iterator is a state with a `next` function; a `for` loop collects its items.
use Prim.Native.Nat.{ℕ, zero, suc, ◌≤◌, ◌<◌}
use mathlib.Core.Path.{◌≡◌, refl}
use mathlib.Core.List.{List, [], ◌∷◌}
use mathlib.Core.Option.{Option, none, some}
use native.Mathlib.Omega.{arith}
use mathlib.Core.Logic.{inl, inr}
use privsep_rs.Prelude.Tests.{Option-cases}

module _ {S A : Type 0} (next : S → Option (A × S)) where
  -- At most `fuel` items.
  unfoldable pub collect : ℕ → S → List A
  collect zero s = []
  collect (suc fuel) s = elim (next s) [ none ↦ [] | some (a, s') ↦ a ∷ collect fuel s' ]

  pub collect-some :
      (fuel : ℕ) {s s' : S} {a : A}
      → next s ≡ some (a, s')
      → collect (suc fuel) s ≡ a ∷ collect fuel s'
  unfolding collect
  collect-some fuel e = rw (e, collect)

  pub collect-none : (fuel : ℕ) {s : S} → next s ≡ none → collect fuel s ≡ []
  unfolding collect
  collect-none zero e = refl
  collect-none (suc fuel) e = rw (e, collect)

  -- The loop ends of itself after the listed items.
  pub data Drains : S → List A → Type 0 where
    done : {s : S} → next s ≡ none → Drains s []
    more : {s s' : S} {a : A} {l : List A} → next s ≡ some (a, s') → Drains s' l → Drains s (a ∷ l)

  -- Where a measure falls with each item and starts at the fuel at most, the fuel is enough.
  pub collect-Drains :
      (measure : S → ℕ)
      → ((s : S) (a : A) (s' : S) → next s ≡ some (a, s') → measure s' < measure s)
      → (fuel : ℕ) (s : S) → measure s ≤ fuel
      → Drains s (collect fuel s)
  unfolding collect
  collect-Drains measure falls zero s h = elim (Option-cases (next s)) [
    | inl e ↦ done e
    | inr ((a, s'), e) ↦ absurd (omega (arith, falls s a s' e))
  ]
  collect-Drains measure falls (suc fuel) s h = elim (Option-cases (next s)) [
    | inl e ↦ rw (e, collect) (done e)
    | inr ((a, s'), e) ↦
        rw (e, collect)
          (more e (collect-Drains measure falls fuel s' (omega (arith, falls s a s' e))))
  ]
