-- ===== src/Process/Session.antt =====
-- new_session of privsep/src/process.rs.
use privsep_rs.Prelude.{
  ℕ, zero, suc, ◌≡◌, ◌≢◌, ◌≤◌, ◌<◌, ◌⊎◌, inl, inr, refl, ap, sym, ◌∙◌, subst, Bool, true, false,
  Bool-cases, some, Result, ok, err, ◌==◌, ==_iff, ne→==, ltb, ltb→lt, ltb→le, if◌then◌else◌, arith,
}
use privsep_rs.Process.{Str}
use privsep_rs.Process.Privdrop.{slash}
use privsep_rs.Fd.{Kernel, IsKernel}
use privsep_rs.Fd.Ownership.{same_or_not}

pub data SessionError : Type 0 where
  unix_error : ℕ → SessionError
  no_session : SessionError

module _ (k : Kernel) where
  -- The descriptors and the working directory.
  pub record Session : Type 0 where
    pub files : k.State
    pub cwd : Str

  abbrev pub changed : Result ℕ (Unit {0}) → Session → Session
  changed (ok _) s = record s { cwd = slash }
  changed (err errno) s = s

  -- dup2 of the descriptor on the three standard ones
  abbrev pub dup_standard : ℕ → k.State → k.State
  dup_standard fd files = (k.dup2 fd 2 (k.dup2 fd 1 (k.dup2 fd 0 files).1).1).1

  -- The answer of the one on this descriptor.
  abbrev pub dup_answer : ℕ → ℕ → k.State → Result ℕ ℕ
  dup_answer fd zero files = (k.dup2 fd 0 files).0
  dup_answer fd (suc zero) files = (k.dup2 fd 1 (k.dup2 fd 0 files).1).0
  dup_answer fd (suc (suc x)) files = (k.dup2 fd 2 (k.dup2 fd 1 (k.dup2 fd 0 files).1).1).0

  abbrev pub attach_null : Result ℕ ℕ × k.State → k.State
  attach_null (err errno, files) = files
  attach_null (ok fd, files) =
      if ltb 2 fd then (k.close fd (dup_standard fd files)).1 else dup_standard fd files

  -- `chdir` is the answer of chdir("/").
  abbrev pub detached : Bool → Bool → Result ℕ (Unit {0}) → Session → Session
  detached no_close no_chdir chdir s =
      let there = if no_chdir then s else changed chdir s in
      if no_close then there else record there { files = attach_null (k.open_null there.files) }

  -- `setsid` is the answer of setsid(2), `this` is Pid::this().
  abbrev pub in_session :
      Result ℕ ℕ → ℕ → Session → Session → Result SessionError (Unit {0}) × Session
  in_session (err errno) this s later = (err (unix_error errno), s)
  in_session (ok pid) this s later = if pid == this then (ok tt, later) else (err no_session, s)

  unfoldable pub new_session :
      Result ℕ ℕ
      → ℕ
      → Result ℕ (Unit {0})
      → Bool
      → Bool
      → Session
      → Result SessionError (Unit {0}) × Session
  new_session setsid this chdir no_close no_chdir s =
      in_session setsid this s (detached no_close no_chdir chdir s)

  module _ (null : ℕ) (laws : IsKernel k null) where
    dup2-source :
        (fd new file : ℕ) (s : k.State)
        → k.file_of s fd ≡ some file
        → k.file_of (k.dup2 fd new s).1 fd ≡ some file
    dup2-source fd new file s e = elim (same_or_not fd new) [
      | inl same ↦
          ap (λ (n : ℕ). k.file_of (k.dup2 fd n s).1 fd) (sym same)
          ∙ ap (λ (r : Result ℕ ℕ × k.State). k.file_of r.1 fd) (laws.dup2_same fd file s e)
          ∙ e
      | inr other ↦ laws.dup2_others fd new fd s other ∙ e
    ]

    dup_standard-other :
        (fd x : ℕ) (s : k.State) → 2 < x → k.file_of (dup_standard fd s) x ≡ k.file_of s x
    dup_standard-other fd x s h =
        laws.dup2_others fd 2 x _ (λ e. omega (arith, h, e))
        ∙ laws.dup2_others fd 1 x _ (λ e. omega (arith, h, e))
        ∙ laws.dup2_others fd 0 x s (λ e. omega (arith, h, e))

    dup2-done :
        (fd new n file : ℕ) (s : k.State)
        → (k.dup2 fd new s).0 ≡ ok n
        → k.file_of s fd ≡ some file
        → k.file_of (k.dup2 fd new s).1 new ≡ some file
    dup2-done fd new n file s answer e =
        (laws.dup2_ok fd new n file s (k.dup2 fd new s).1 (λ i. (answer i, (k.dup2 fd new s).1))
          e).1

    -- A standard descriptor whose dup2 succeeded.
    dup_standard-null :
        (fd x file : ℕ) (s : k.State)
        → k.file_of s fd ≡ some file
        → x ≤ 2
        → dup_answer fd x s ≡ ok x
        → k.file_of (dup_standard fd s) x ≡ some file
    dup_standard-null fd zero file s e h answer =
        laws.dup2_others fd 2 0 _ (λ x. omega (arith, x))
        ∙ laws.dup2_others fd 1 0 _ (λ x. omega (arith, x))
        ∙ dup2-done fd 0 0 file s answer e
    dup_standard-null fd (suc zero) file s e h answer =
        laws.dup2_others fd 2 1 _ (λ x. omega (arith, x))
        ∙ dup2-done fd 1 1 file _ answer (dup2-source fd 0 file s e)
    dup_standard-null fd (suc (suc x)) file s e h answer =
        let two : suc (suc x) ≡ 2 = omega arith in
        ap (k.file_of (dup_standard fd s)) two
        ∙ dup2-done fd 2 (suc (suc x)) file _ answer
            (dup2-source fd 1 file (k.dup2 fd 0 s).1 (dup2-source fd 0 file s e))

    pub attach_null-file_of :
        (fd x : ℕ) (s t : k.State)
        → k.open_null s ≡ (ok fd, t)
        → (x ≤ 2 → dup_answer fd x t ≡ ok x → k.file_of (attach_null (ok fd, t)) x ≡ some null)
          × (2 < x → k.file_of (attach_null (ok fd, t)) x ≡ k.file_of s x)
    attach_null-file_of fd x s t opened =
        let o = laws.open_null_ok fd s t opened in
        elim (Bool-cases (ltb 2 fd)) [
          | inl above ↦ rw above (
            λ h answer.
                laws.close_others fd x _ (λ e. omega (arith, h, e, ltb→lt 2 fd above))
                ∙ dup_standard-null fd x null t o.is_open h answer,
            λ h. elim (same_or_not x fd) [
              | inl same ↦
                  ap (k.file_of (k.close fd (dup_standard fd t)).1) same
                  ∙ laws.close_one fd _
                  ∙ sym o.was_free
                  ∙ ap (k.file_of s) (sym same)
              | inr other ↦
                  laws.close_others fd x _ other ∙ dup_standard-other fd x t h ∙ o.others x other
            ],
          )
          | inr standard ↦ rw standard (
            λ h answer. dup_standard-null fd x null t o.is_open h answer,
            λ h.
                dup_standard-other fd x t h
                ∙ o.others x (λ e. omega (arith, h, e, ltb→le 2 fd standard)),
          )
        ]

    -- /dev/null was opened as `fd`, with these descriptors: each standard descriptor whose dup2
    -- succeeded is of its file, the others are as they were.
    pub record IsDetached (fd : ℕ) (opened s t : k.State) : Type 0 where
      pub standard : (x : ℕ) → x ≤ 2 → dup_answer fd x opened ≡ ok x → k.file_of t x ≡ some null
      pub others : (x : ℕ) → 2 < x → k.file_of t x ≡ k.file_of s x

    -- /dev/null could be opened, and so; or it could not, and all descriptors are as they were.
    pub data Attaches (s t : k.State) : Type 0 where
      attached :
          (fd : ℕ) (opened : k.State)
          → k.open_null s ≡ (ok fd, opened)
          → IsDetached fd opened s t
          → Attaches s t
      not_opened :
          (errno : ℕ) (opened : k.State)
          → k.open_null s ≡ (err errno, opened)
          → ((x : ℕ) → k.file_of t x ≡ k.file_of s x)
          → Attaches s t

    attach_null-outcome :
        (answer : Result ℕ ℕ × k.State) (s : k.State)
        → k.open_null s ≡ answer
        → Attaches s (attach_null answer)
    attach_null-outcome (err errno, t) s opened =
        not_opened errno t opened (laws.open_null_fails errno s t opened)
    attach_null-outcome (ok fd, t) s opened = attached fd t opened (record {
      standard = λ x h answer. (attach_null-file_of fd x s t opened).0 h answer;
      others = λ x h. (attach_null-file_of fd x s t opened).1 h;
    })

    abbrev pub Attached : Session → k.State → Type 0
    Attached s t = Attaches s.files t

    same_files :
        (no_chdir : Bool) (chdir : Result ℕ (Unit {0})) (s : Session)
        → (if no_chdir then s else changed chdir s).files ≡ s.files
    same_files true chdir s = refl
    same_files false (ok tt) s = refl
    same_files false (err errno) s = refl

    -- For a kernel that keeps its laws, and standard descriptors that are to be closed: if setsid makes
    -- this process the leader of its session, new_session returns Ok, and where /dev/null can be
    -- opened, each standard descriptor on which dup2 succeeds is /dev/null's, and all descriptors behind
    -- the standard ones are as before, /dev/null's own one closed again; where it cannot, all are as
    -- before. If not, an error is returned and nothing is changed.
    pub new_session-IsDetached :
        (setsid : Result ℕ ℕ) (this : ℕ) (chdir : Result ℕ (Unit {0})) (no_chdir : Bool)
        (s : Session)
        → let r = new_session setsid this chdir false no_chdir s in
          ((setsid ≡ ok this) × (r.0 ≡ ok tt) × Attached s r.1.files)
          ⊎ ((setsid ≢ ok this) × (r.0 ≢ ok tt) × (r.1 ≡ s))
    unfolding new_session
    new_session-IsDetached (err errno) this chdir no_chdir s = inr (λ e. cc e, λ e. cc e, refl)
    new_session-IsDetached (ok pid) this chdir no_chdir s = elim (same_or_not pid this) [
      | inl same ↦ inl (
        ap (λ (n : ℕ). ok n) same,
        rw ((==_iff pid this).1 same) refl,
        rw ((==_iff pid this).1 same) (
            subst (λ (files : k.State). Attached s (attach_null (k.open_null files)))
              (sym (same_files no_chdir chdir s))
              (attach_null-outcome (k.open_null s.files) s.files refl)),
      )
      | inr other ↦
          inr (
            λ e. other (cc e),
            rw (ne→== pid this other) (λ e. cc e),
            rw (ne→== pid this other) refl,
          )
    ]
