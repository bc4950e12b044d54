-- ===== src/Fd/Table.antt =====
-- A kernel whose descriptors are a list, for the parameter of privsep/src/net/fd.rs.
use privsep_rs.Prelude.{
  ℕ, suc, ◌+◌, ◌≡◌, ◌≢◌, ◌<◌, ◌≤◌, inl, inr, refl, ap, sym, subst, ◌∙◌, false, Bool-cases, Option,
  none, some, List, [], ◌∷◌, Result, ok, err, ◌==◌, leb, leb→le, leb→lt, ==_iff, ==-refl, ne→==,
  if◌then◌else◌, arith,
}
use privsep_rs.Fd.{Kernel, IsKernel, Opened, Paired}

abbrev pub Files : Type 0
Files = List (ℕ × ℕ)

abbrev pub file_of : Files → ℕ → Option ℕ
file_of [] fd = none
file_of ((d, file) ∷ files) fd = let rest = file_of files fd in if d == fd then some file else rest

abbrev pub remove : ℕ → Files → Files
remove fd [] = []
remove fd ((d, file) ∷ files) =
    let rest = remove fd files in if d == fd then rest else (d, file) ∷ rest

-- More than all descriptors.
abbrev pub bound : Files → ℕ
bound [] = 0
bound ((d, file) ∷ files) = suc d + bound files

file_of-remove : (fd : ℕ) (files : Files) → file_of (remove fd files) fd ≡ none
file_of-remove fd [] = refl
file_of-remove fd ((d, file) ∷ files) = elim (Bool-cases (d == fd)) [
  | inl e ↦ rw e (file_of-remove fd files)
  | inr e ↦ rw (e, e) (file_of-remove fd files)
]

file_of-remove_other :
    (fd x : ℕ) (files : Files) → x ≢ fd → file_of (remove fd files) x ≡ file_of files x
file_of-remove_other fd x [] other = refl
file_of-remove_other fd x ((d, file) ∷ files) other = elim (Bool-cases (d == fd)) [
  | inl e ↦
      let differs : (d == x) ≡ false = ne→== d x (λ same. other (sym same ∙ (==_iff d fd).0 e)) in
      rw (e, differs) (file_of-remove_other fd x files other)
  | inr e ↦ rw e (
      ap (λ (o : Option ℕ). if d == x then some file else o)
        (file_of-remove_other fd x files other))
]

file_of-past : (files : Files) (n : ℕ) → bound files ≤ n → file_of files n ≡ none
file_of-past [] n h = refl
file_of-past ((d, file) ∷ files) n h =
    rw (ne→== d n (omega (arith, h))) (file_of-past files n (omega (arith, h)))

-- dup(2) and dup2(2) of this file
abbrev pub dup_file : Option ℕ → Files → Result ℕ ℕ × Files
dup_file none files = (err 9, files)
dup_file (some file) files = (ok (bound files), (bound files, file) ∷ files)

abbrev pub dup2_same : Option ℕ → ℕ → Files → Result ℕ ℕ × Files
dup2_same none fd files = (err 9, files)
dup2_same (some file) fd files = (ok fd, files)

abbrev pub dup2_file : Option ℕ → ℕ → Files → Result ℕ ℕ × Files
dup2_file none new files = (err 9, files)
dup2_file (some file) new files = (ok new, (new, file) ∷ remove new files)

-- On the descriptor itself it does nothing, and from a limit on it fails.
abbrev pub dup2_at : ℕ → ℕ → Files → Result ℕ ℕ × Files
dup2_at fd new files =
    if fd == new
    then dup2_same (file_of files fd) fd files
    else if leb 1024 new
    then (err 9, files)
    else dup2_file (file_of files fd) new files

abbrev pub close_file : Option ℕ → ℕ → Files → Result ℕ (Unit {0}) × Files
close_file none fd files = (err 9, files)
close_file (some file) fd files = (ok tt, remove fd files)

abbrev pub flags_of : Option ℕ → Result ℕ ℕ
flags_of none = err 9
flags_of (some file) = ok 0

abbrev pub remove_from : ℕ → Files → Files
remove_from low [] = []
remove_from low ((d, file) ∷ files) =
    let rest = remove_from low files in if leb low d then rest else (d, file) ∷ rest

-- /dev/null is the file 0, the two ends of a socket pair are 1 and 2.
abbrev pub table : Kernel
table = record {
  State = Files;
  file_of = file_of;
  close = λ fd files. close_file (file_of files fd) fd files;
  dup = λ fd files. dup_file (file_of files fd) files;
  dup2 = dup2_at;
  getfd = λ fd files. flags_of (file_of files fd);
  open_null = λ files. (ok (bound files), (bound files, 0) ∷ files);
  socketpair = λ files.
      (ok (bound files, suc (bound files)), (bound files, 1) ∷ (suc (bound files), 2) ∷ files);
  close_from = remove_from;
}

Opened-bound :
    (file : ℕ) (files : Files) → Opened table files (bound files) file ((bound files, file) ∷ files)
Opened-bound file files = record {
  was_free = file_of-past files (bound files) (omega arith);
  is_open = rw (==-refl (bound files)) refl;
  others = λ x other. rw (ne→== (bound files) x (λ same. other (sym same))) refl;
}

-- A new descriptor, told from the answer.
Opened-answer :
    (file n : ℕ) (s t : Files)
    → ◌≡◌ {A = Result ℕ ℕ × Files} (ok (bound s), (bound s, file) ∷ s) (ok n, t)
    → Opened table s n file t
Opened-answer file n s t e =
    let number : bound s ≡ n = cc (ap (λ (x : Result ℕ ℕ × Files). x.0) e) in
    subst (λ (i : ℕ). Opened table s i file t) number
      (subst (Opened table s (bound s) file) (ap (λ (x : Result ℕ ℕ × Files). x.1) e)
        (Opened-bound file s))

close-one :
    (o : Option ℕ) (fd : ℕ) (s : Files) → file_of s fd ≡ o → file_of (close_file o fd s).1 fd ≡ none
close-one none fd s e = e
close-one (some file) fd s e = file_of-remove fd s

close-other :
    (o : Option ℕ) (fd x : ℕ) (s : Files) → x ≢ fd → file_of (close_file o fd s).1 x ≡ file_of s x
close-other none fd x s other = refl
close-other (some file) fd x s other = file_of-remove_other fd x s other

dup2-other :
    (o : Option ℕ) (new x : ℕ) (s : Files) → x ≢ new → file_of (dup2_file o new s).1 x ≡ file_of s x
dup2-other none new x s other = refl
dup2-other (some file) new x s other =
    rw (ne→== new x (λ same. other (sym same))) (file_of-remove_other new x s other)

dup2_at-other : (fd new x : ℕ) (s : Files) → x ≢ new → file_of (dup2_at fd new s).1 x ≡ file_of s x
dup2_at-other fd new x s other = elim (Bool-cases (fd == new)) [
  | inl e ↦ rw e (same_files (file_of s fd))
  | inr e ↦ elim (Bool-cases (leb 1024 new)) [
    | inl f ↦ rw (e, f) refl
    | inr f ↦ rw (e, f) (dup2-other (file_of s fd) new x s other)
  ]
]
  where
    same_files : (o : Option ℕ) → file_of (dup2_same o fd s).1 x ≡ file_of s x
    same_files none = refl
    same_files (some file) = refl

-- What a call with success has done.
dup2_at-ok :
    (fd new n file : ℕ) (s t : Files)
    → dup2_at fd new s ≡ (ok n, t)
    → file_of s fd ≡ some file
    → (n ≡ new) × (file_of t new ≡ some file)
dup2_at-ok fd new n file s t done e = elim (Bool-cases (fd == new)) [
  | inl f ↦
      let here : fd ≡ new = (==_iff fd new).0 f in
      let answer : ◌≡◌ {A = Result ℕ ℕ × Files} (ok fd, s) (ok n, t) =
        sym (rw f (ap (λ (o : Option ℕ). dup2_same o fd s) e)) ∙ done in
      (
        sym (cc (ap (λ (x : Result ℕ ℕ × Files). x.0) answer)) ∙ here,
        ap (λ (u : Files). file_of u new) (sym (ap (λ (x : Result ℕ ℕ × Files). x.1) answer))
            ∙ ap (file_of s) (sym here)
            ∙ e,
      )
  | inr f ↦ elim (Bool-cases (leb 1024 new)) [
    | inl g ↦
        let answer : ◌≡◌ {A = Result ℕ ℕ × Files} (err 9, s) (ok n, t) =
          sym (rw (f, g) refl) ∙ done in
        cc (ap (λ (x : Result ℕ ℕ × Files). x.0) answer)
    | inr g ↦
        let answer : ◌≡◌ {A = Result ℕ ℕ × Files} (ok new, (new, file) ∷ remove new s) (ok n, t) =
          sym (rw (f, g) (ap (λ (o : Option ℕ). dup2_file o new s) e)) ∙ done in
        (
          sym (cc (ap (λ (x : Result ℕ ℕ × Files). x.0) answer)),
          ap (λ (u : Files). file_of u new) (sym (ap (λ (x : Result ℕ ℕ × Files). x.1) answer))
              ∙ rw (==-refl new) refl,
        )
  ]
]

Paired-bound :
    (s : Files) → Paired table s (bound s) (suc (bound s)) ((bound s, 1) ∷ (suc (bound s), 2) ∷ s)
Paired-bound s = record {
  apart = λ e. omega (arith, e);
  first_free = file_of-past s (bound s) (omega arith);
  second_free = file_of-past s (suc (bound s)) (omega arith);
  first_open = (1, rw (==-refl (bound s)) refl);
  second_open = (
    2,
    rw (ne→== (bound s) (suc (bound s)) (λ e. omega (arith, e)), ==-refl (suc (bound s))) refl,
  );
  others = λ x not_first not_second.
      rw
        (
          ne→== (bound s) x (λ e. not_first (sym e)),
          ne→== (suc (bound s)) x (λ e. not_second (sym e)),
        )
        refl;
}

Paired-answer :
    (a b : ℕ) (s t : Files)
    → ◌≡◌ {A = Result ℕ (ℕ × ℕ) × Files}
        (ok (bound s, suc (bound s)), (bound s, 1) ∷ (suc (bound s), 2) ∷ s)
        (ok (a, b), t)
    → Paired table s a b t
Paired-answer a b s t e =
    let pair : ◌≡◌ {A = ℕ × ℕ} (bound s, suc (bound s)) (a, b) =
      cc (ap (λ (x : Result ℕ (ℕ × ℕ) × Files). x.0) e) in
    subst (λ (i : ℕ × ℕ). Paired table s i.0 i.1 t) pair
      (subst (Paired table s (bound s) (suc (bound s)))
        (ap (λ (x : Result ℕ (ℕ × ℕ) × Files). x.1) e) (Paired-bound s))

remove_from-above : (low x : ℕ) (s : Files) → low ≤ x → file_of (remove_from low s) x ≡ none
remove_from-above low x [] h = refl
remove_from-above low x ((d, file) ∷ s) h = elim (Bool-cases (leb low d)) [
  | inl e ↦ rw e (remove_from-above low x s h)
  | inr e ↦
      rw (e, ne→== d x (λ same. omega (arith, h, same, leb→lt low d e)))
        (remove_from-above low x s h)
]

remove_from-below : (low x : ℕ) (s : Files) → x < low → file_of (remove_from low s) x ≡ file_of s x
remove_from-below low x [] h = refl
remove_from-below low x ((d, file) ∷ s) h = elim (Bool-cases (leb low d)) [
  | inl e ↦
      rw (e, ne→== d x (λ same. omega (arith, h, same, leb→le low d e)))
        (remove_from-below low x s h)
  | inr e ↦
      rw e (ap (λ (o : Option ℕ). if d == x then some file else o) (remove_from-below low x s h))
]

pub table-IsKernel : IsKernel table 0
table-IsKernel = record {
  close_one = λ fd s. close-one (file_of s fd) fd s refl;
  close_others = λ fd x s other. close-other (file_of s fd) fd x s other;
  dup_ok = λ fd n file s t done e.
      Opened-answer file n s t (ap (λ (o : Option ℕ). dup_file o s) (sym e) ∙ done);
  dup2_ok = dup2_at-ok;
  dup2_same = λ fd file s e. rw (==-refl fd, e) refl;
  dup2_others = dup2_at-other;
  getfd_open = λ fd file s e. (0, rw e refl);
  getfd_closed = λ fd s e. (9, rw e refl);
  open_null_ok = λ fd s t done. Opened-answer 0 fd s t done;
  open_null_fails = λ errno s t failed. cc failed;
  close_from_above = remove_from-above;
  close_from_below = remove_from-below;
  socketpair_ok = λ a b s t done. Paired-answer a b s t done;
}
