-- ===== src/Process/Sets.antt =====
-- The sets of process ids in privsep/src/process.rs.
use privsep_rs.Prelude.{
  ℕ, ◌≡◌, refl, Bool, true, false, not, ◌&&◌, ◌||◌, All, List, [], ◌∷◌, ◌==◌, ==_iff, ==-refl,
  if◌then◌else◌, arith,
}

-- HashSet::contains
abbrev pub contains : ℕ → List ℕ → Bool
contains x [] = false
contains x (y ∷ ys) = (x == y) || contains x ys

-- HashSet::remove, without its result
abbrev pub remove : ℕ → List ℕ → List ℕ
remove x [] = []
remove x (y ∷ ys) = let rest = remove x ys in if x == y then rest else y ∷ rest

abbrev pub IsDistinct : List ℕ → Type 0
IsDistinct [] = Unit {0}
IsDistinct (x ∷ xs) = (contains x xs ≡ false) × IsDistinct xs

-- The same elements.
abbrev pub SameSet : List ℕ → List ℕ → Type 0
SameSet xs ys = (x : ℕ) → contains x xs ≡ contains x ys

abbrev pub remove_all : List ℕ → List ℕ → List ℕ
remove_all [] ws = ws
remove_all (x ∷ xs) ws = remove_all xs (remove x ws)

pub contains-remove :
    (x z : ℕ) (ys : List ℕ) → contains z (remove x ys) ≡ (contains z ys && not (z == x))
contains-remove x z [] = refl
contains-remove x z (y ∷ ys) =
    ground (arith, contains-remove x z ys, ==_iff x y, ==_iff z y, ==_iff z x)

pub contains-remove_all :
    (xs ws : List ℕ) (x : ℕ)
    → contains x (remove_all xs ws) ≡ (contains x ws && not (contains x xs))
contains-remove_all [] ws x = ground arith
contains-remove_all (y ∷ xs) ws x =
    ground (arith, contains-remove_all xs (remove y ws) x, contains-remove y x ws)

-- A set without elements is empty.
pub nothing_contained : (ws : List ℕ) → ((x : ℕ) → contains x ws ≡ false) → ws ≡ []
nothing_contained [] h = refl
nothing_contained (w ∷ ws) h = absurd (ground (arith, h w, ==-refl w))

pub All-contains :
    (xs ws : List ℕ)
    → ((x : ℕ) → contains x xs ≡ true → contains x ws ≡ true)
    → All (λ x. contains x ws ≡ true) xs
All-contains [] ws h = tt
All-contains (x ∷ xs) ws h =
    (h x (ground (arith, ==-refl x)), All-contains xs ws (λ y hy. h y (ground (arith, hy))))
