-- ===== src/Process/Inherit.antt =====
-- The child's side of the fork in Parent::new of privsep/src/process.rs, up to execve: the descriptors
-- that the executed program inherits.
use privsep_rs.Prelude.{
  ℕ, ◌+◌, ◌≡◌, ◌≤◌, ◌<◌, refl, ◌∙◌, Bool, true, false, none, some, Result, ok, err, ==-refl, arith,
}
use privsep_rs.Process.Child.{privsep_fd}
use privsep_rs.Fd.{Kernel, IsKernel}
use privsep_rs.Process.Session.{
  SessionError, unix_error, Session, dup_answer, attach_null, new_session, attach_null-file_of,
}

module _ (k : Kernel) where
  abbrev pub after_cloexec :
      Result ℕ (Unit {0}) → k.State → Result SessionError (Unit {0}) × k.State
  after_cloexec (err errno) s = (err (unix_error errno), s)
  after_cloexec (ok _) s = (ok tt, k.close_from (privsep_fd + 1) s)

  -- `cloexec` is the answer of set_cloexec on a descriptor.
  abbrev pub after_dup2 :
      (ℕ → Result ℕ (Unit {0})) → Result ℕ ℕ × k.State → Result SessionError (Unit {0}) × k.State
  after_dup2 cloexec (err errno, s) = (err (unix_error errno), s)
  after_dup2 cloexec (ok fd, s) = after_cloexec (cloexec fd) s

  abbrev pub after_session :
      (ℕ → Result ℕ (Unit {0}))
      → ℕ
      → Result SessionError (Unit {0}) × Session k
      → Result SessionError (Unit {0}) × k.State
  after_session cloexec remote (err e, session) = (err e, session.files)
  after_session cloexec remote (ok _, session) =
      after_dup2 cloexec (k.dup2 remote privsep_fd session.files)

  -- `remote` is the descriptor of the child's end of the pair.
  unfoldable pub child_side :
      Result ℕ ℕ
      → ℕ
      → (ℕ → Result ℕ (Unit {0}))
      → Bool
      → ℕ
      → Session k
      → Result SessionError (Unit {0}) × k.State
  child_side setsid this cloexec foreground remote s =
      after_session cloexec remote (new_session k setsid this (ok tt) foreground true s)

  module _ (null : ℕ) (laws : IsKernel k null) where
    -- What the executed program finds open.
    pub record Inherits (file : ℕ) (t : k.State) : Type 0 where
      pub standard : (x : ℕ) → x ≤ 2 → k.file_of t x ≡ some null
      pub socket : k.file_of t privsep_fd ≡ some file
      pub nothing_else : (x : ℕ) → privsep_fd < x → k.file_of t x ≡ none

    dup2-Inherits :
        (remote n file : ℕ) (u : k.State)
        → (k.dup2 remote privsep_fd u).0 ≡ ok n
        → k.file_of u remote ≡ some file
        → ((x : ℕ) → x ≤ 2 → k.file_of u x ≡ some null)
        → Inherits file (k.close_from (privsep_fd + 1) (k.dup2 remote privsep_fd u).1)
    dup2-Inherits remote n file u answer is_open standard = record {
      standard = λ x h.
          laws.close_from_below (privsep_fd + 1) x _ (omega (arith, h))
          ∙ laws.dup2_others remote privsep_fd x u (λ e. omega (arith, h, e))
          ∙ standard x h;
      socket =
          laws.close_from_below (privsep_fd + 1) privsep_fd _ (omega arith)
          ∙ (laws.dup2_ok remote privsep_fd n file u (k.dup2 remote privsep_fd u).1
              (λ i. (answer i, (k.dup2 remote privsep_fd u).1)) is_open).1;
      nothing_else = λ x h. laws.close_from_above (privsep_fd + 1) x _ (omega (arith, h));
    }

    -- The end of the child's side: the error of dup2 on PRIVSEP_FD, that of the close-on-exec flag, or
    -- success, with these descriptors.
    pub data ChildSide (file : ℕ) (answer : Result ℕ ℕ) (cloexec : ℕ → Result ℕ (Unit {0}))
        : Result SessionError (Unit {0}) × k.State → Type 0 where
      no_dup :
          (errno : ℕ) (t : k.State)
          → answer ≡ err errno
          → ChildSide file answer cloexec (err (unix_error errno), t)
      no_flag :
          (n errno : ℕ) (t : k.State)
          → answer ≡ ok n
          → cloexec n ≡ err errno
          → ChildSide file answer cloexec (err (unix_error errno), t)
      ready :
          (n : ℕ) (t : k.State)
          → answer ≡ ok n
          → cloexec n ≡ ok tt
          → Inherits file t
          → ChildSide file answer cloexec (ok tt, t)

    after_dup2-ChildSide :
        (remote file : ℕ) (cloexec : ℕ → Result ℕ (Unit {0})) (u : k.State)
        → k.file_of u remote ≡ some file
        → ((x : ℕ) → x ≤ 2 → k.file_of u x ≡ some null)
        → ChildSide file
            (k.dup2 remote privsep_fd u).0
            cloexec
            (after_dup2 cloexec (k.dup2 remote privsep_fd u))
    after_dup2-ChildSide remote file cloexec u is_open standard =
        go (k.dup2 remote privsep_fd u).0 refl
      where
        dupped : k.State
        dupped = (k.dup2 remote privsep_fd u).1

        flagged :
            (n : ℕ) (r : Result ℕ (Unit {0}))
            → (k.dup2 remote privsep_fd u).0 ≡ ok n
            → cloexec n ≡ r
            → ChildSide file (ok n) cloexec (after_cloexec r dupped)
        flagged n (err errno) e f = no_flag n errno dupped refl f
        flagged n (ok _) e f =
            ready n (k.close_from (privsep_fd + 1) dupped) refl f
              (dup2-Inherits remote n file u e is_open standard)

        go :
            (answer : Result ℕ ℕ)
            → (k.dup2 remote privsep_fd u).0 ≡ answer
            → ChildSide file answer cloexec (after_dup2 cloexec (answer, dupped))
        go (err errno) e = no_dup errno dupped refl
        go (ok n) e = flagged n (cloexec n) e refl

    -- For a kernel that keeps its laws, in the background: on the child's side of a fork, with its end of
    -- the pair open behind the standard descriptors, where setsid makes the process the leader of
    -- its session, /dev/null can be opened and dup2 succeeds on the three standard descriptors: if
    -- dup2 on PRIVSEP_FD or the change of its close-on-exec flag fails, the error of that is returned;
    -- and else the calls up to execve succeed, and what is open then is /dev/null on the standard
    -- descriptors, the child's end on PRIVSEP_FD, and nothing else, whatever the parent had open.
    pub child_side-Inherits :
        (this fd remote file : ℕ) (cloexec : ℕ → Result ℕ (Unit {0})) (s : Session k) (t : k.State)
        → k.file_of s.files remote ≡ some file
        → 2 < remote
        → k.open_null s.files ≡ (ok fd, t)
        → ((x : ℕ) → x ≤ 2 → dup_answer k fd x t ≡ ok x)
        → ChildSide file
            (k.dup2 remote privsep_fd (attach_null k (ok fd, t))).0
            cloexec
            (child_side (ok this) this cloexec false remote s)
    unfolding child_side new_session
    child_side-Inherits this fd remote file cloexec s t is_open above opened dupped =
        let u = attach_null k (ok fd, t) in
        let attached = attach_null-file_of k null laws fd remote s.files t opened in
        let there = attached.1 above ∙ is_open in
        rw (==-refl this, opened)
          (after_dup2-ChildSide remote file cloexec u there
            (λ x h. (attach_null-file_of k null laws fd x s.files t opened).0 h (dupped x h)))
