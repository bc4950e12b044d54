-- ===== src/Derive/Resolve.antt =====
-- The resolution of connections in privsep-derive/src/lib.rs.
use privsep_rs.Prelude.{
  ℕ, ◌≡◌, refl, ap, sym, ◌∙◌, Bool, true, false, ◌&&◌, ◌||◌, Bool-cases, inl, inr, ◌⊎◌, List, [],
  ◌∷◌, ==-refl, if◌then◌else◌, Result, ok, err, ◌>>=◌, arith,
}
use mathlib.Core.Path.{ap₂}
use privsep_rs.Process.{Str, same_str}
use privsep_rs.Derive.{
  mem_str, DeriveError, unknown_process, ConnectMap, get, has_key, add_to, resolve_entries, resolve,
}

pub same_str_refl : (x : Str) → same_str x x ≡ true
same_str_refl [] = refl
same_str_refl (x ∷ xs) = rw (==-refl x) (same_str_refl xs)

pub same_str_eq : (x y : Str) → same_str x y ≡ true → x ≡ y
same_str_eq [] [] h = refl
same_str_eq [] (y ∷ ys) h = cc
same_str_eq (x ∷ xs) [] h = cc
same_str_eq (x ∷ xs) (y ∷ ys) h =
    ap₂ (λ (a : ℕ) (s : Str). a ∷ s) (ground (arith, h)) (same_str_eq xs ys (ground (arith, h)))

pub same_str_comm : (x y : Str) → same_str x y ≡ same_str y x
same_str_comm [] [] = refl
same_str_comm [] (y ∷ ys) = refl
same_str_comm (x ∷ xs) [] = refl
same_str_comm (x ∷ xs) (y ∷ ys) = ground (arith, same_str_comm xs ys)

-- Process `a` is connected to `b` in a map.
abbrev pub is_connected : ConnectMap → Str → Str → Bool
is_connected m a b = mem_str b (get m a)

-- Some entry of the copy asks for it.
abbrev pub asked : ConnectMap → Str → Str → Bool
asked [] a b = false
asked ((k, v) ∷ temp) a b = (same_str k a && mem_str b v) || asked temp a b

has_key-add_to : (entry key a : Str) (m : ConnectMap) → has_key (add_to entry key m) a ≡ has_key m a
has_key-add_to entry key a [] = refl
has_key-add_to entry key a ((k, v) ∷ m) = ground (arith, has_key-add_to entry key a m)

same_str_trans : (k entry a : Str) → same_str k entry ≡ true → same_str k a ≡ same_str entry a
same_str_trans k entry a h = ap (λ (s : Str). same_str s a) (same_str_eq k entry h)

is_connected-add_to :
    (entry key a b : Str) (m : ConnectMap)
    → is_connected (add_to entry key m) a b
      ≡ (is_connected m a b || (has_key m a && (same_str entry a && same_str b key)))
is_connected-add_to entry key a b [] = refl
is_connected-add_to entry key a b ((k, v) ∷ m) = ground (
  arith,
  is_connected-add_to entry key a b m,
  same_str_trans k entry a,
  same_str_trans k a entry,
  same_str_comm a entry,
)

if-ok :
    (t : Bool) (r : Result DeriveError ConnectMap) (x : DeriveError) (m : ConnectMap)
    → (if t then r else err x) ≡ ok m
    → r ≡ ok m
if-ok true r x m h = h
if-ok false r x m h = cc

pub bind_ok :
    {A B : Type 0} (r : Result DeriveError A) (f : A → Result DeriveError B) (m : B)
    → (r >>= f) ≡ ok m
    → (x : A) × (r ≡ ok x) × (f x ≡ ok m)
bind_ok (ok x) f m h = (x, refl, h)
bind_ok (err e) f m h = cc

-- What the entries of one process add.
resolve_entries-is_connected :
    (children : List Str) (key : Str) (entries : List Str) (m m' : ConnectMap) (a b : Str)
    → resolve_entries children key entries m ≡ ok m'
    → (has_key m' a ≡ has_key m a)
      × (is_connected m' a b
          ≡ (is_connected m a b || (has_key m a && (mem_str a entries && same_str key b))))
unfolding resolve_entries
resolve_entries-is_connected children key [] m m' a b e =
    let same : m ≡ m' = cc e in
    (
      ap (λ (x : ConnectMap). has_key x a) (sym same),
      ap (λ (x : ConnectMap). is_connected x a b) (sym same) ∙ ground arith,
    )
resolve_entries-is_connected children key (entry ∷ entries) m m' a b e =
    let (keys, values) =
      resolve_entries-is_connected children key entries (add_to entry key m) m' a b
        (if-ok (mem_str entry children) _ _ m' e) in
    (
      keys ∙ has_key-add_to entry key a m,
      values
          ∙ ground (
            arith,
            is_connected-add_to entry key a b m,
            has_key-add_to entry key a m,
            same_str_comm a entry,
            same_str_comm b key,
          ),
    )

-- A resolved map has the keys of the map before, and connects a process of the map to another one if
-- it was connected to it, or the other one asked for the process.
pub resolve-is_connected :
    (children : List Str) (temp m m' : ConnectMap) (a b : Str)
    → resolve children temp m ≡ ok m'
    → (has_key m' a ≡ has_key m a)
      × (is_connected m' a b ≡ (is_connected m a b || (has_key m a && asked temp b a)))
unfolding resolve
resolve-is_connected children [] m m' a b e =
    let same : m ≡ m' = cc e in
    (
      ap (λ (x : ConnectMap). has_key x a) (sym same),
      ap (λ (x : ConnectMap). is_connected x a b) (sym same) ∙ ground arith,
    )
resolve-is_connected children ((key, entries) ∷ temp) m m' a b e =
    let (x, first, later) =
      bind_ok (resolve_entries children key entries m) (resolve children temp) m' e in
    let (keys, values) = resolve_entries-is_connected children key entries m x a b first in
    let (keys', values') = resolve-is_connected children temp x m' a b later in
    (keys' ∙ keys, values' ∙ rw (values, keys) (ground arith))

-- Every entry is a process.
abbrev pub all_known_entries : List Str → List Str → Bool
all_known_entries children [] = true
all_known_entries children (e ∷ entries) = mem_str e children && all_known_entries children entries

abbrev pub all_known : List Str → ConnectMap → Bool
all_known children [] = true
all_known children ((k, entries) ∷ temp) =
    all_known_entries children entries && all_known children temp

resolve_entries-outcome :
    (children : List Str) (key : Str) (entries : List Str) (m : ConnectMap)
    → ((m' : ConnectMap) × (resolve_entries children key entries m ≡ ok m')
        × (all_known_entries children entries ≡ true))
      ⊎ ((entry : Str) × (resolve_entries children key entries m ≡ err (unknown_process entry))
          × (mem_str entry entries ≡ true)
          × (mem_str entry children ≡ false))
unfolding resolve_entries
resolve_entries-outcome children key [] m = inl (m, refl, refl)
resolve_entries-outcome children key (e ∷ entries) m = elim (Bool-cases (mem_str e children)) [
  | inr unknown ↦ inr (e, rw unknown refl, rw (same_str_refl e) refl, unknown)
  | inl known ↦ elim (resolve_entries-outcome children key entries (add_to e key m)) [
    | inl (m', done, all) ↦ inl (m', rw known done, rw (known, all) refl)
    | inr (entry, failed, inside, outside) ↦
        inr (entry, rw known failed, ground (arith, inside), outside)
  ]
]

-- The resolution ends with a map if every connection is to a process, and with an error that names an
-- unknown process to which some process asked to be connected if not.
pub resolve-outcome :
    (children : List Str) (temp m : ConnectMap)
    → ((m' : ConnectMap) × (resolve children temp m ≡ ok m') × (all_known children temp ≡ true))
      ⊎ ((key : Str) × (entry : Str) × (resolve children temp m ≡ err (unknown_process entry))
          × (asked temp key entry ≡ true)
          × (mem_str entry children ≡ false))
unfolding resolve
resolve-outcome children [] m = inl (m, refl, refl)
resolve-outcome children ((key, entries) ∷ temp) m =
    elim (resolve_entries-outcome children key entries m) [
      | inr (entry, failed, inside, outside) ↦
          inr (key, entry, rw failed refl, rw (same_str_refl key, inside) refl, outside)
      | inl (x, done, known) ↦ elim (resolve-outcome children temp x) [
        | inl (m', done', known') ↦ inl (m', rw done done', rw (known, known') refl)
        | inr (key', entry, failed, inside, outside) ↦
            inr (key', entry, rw done failed, ground (arith, inside), outside)
      ]
    ]
