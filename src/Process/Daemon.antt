-- ===== src/Process/Daemon.antt =====
-- daemon of privsep/src/process.rs.
use privsep_rs.Prelude.{
  ℕ, ◌≡◌, ◌≢◌, ◌⊎◌, inl, inr, refl, ap, ◌∙◌, ==-refl, Bool, true, false, Result, ok, err,
  if◌then◌else◌,
}
use privsep_rs.Fd.{Kernel, IsKernel}
use privsep_rs.Process.Session.{
  SessionError, unix_error, Session, Attached, detached, new_session, new_session-IsDetached,
}

-- The side of a fork.
pub data ForkResult : Type 0 where
  parent : ForkResult
  child : ForkResult

module _ (k : Kernel) where
  -- The process has ended, or the call has returned.
  pub data Daemon : Type 0 where
    exited : Daemon
    returned : Result SessionError (Unit {0}) × Session k → Daemon

  -- `session` is new_session with the answers of its calls.
  abbrev pub forked :
      Result ℕ ForkResult
      → (Session k → Result SessionError (Unit {0}) × Session k)
      → Session k
      → Daemon
  forked (err errno) session s = returned (err (unix_error errno), s)
  forked (ok parent) session s = exited
  forked (ok child) session s = returned (session s)

  -- The error of the library, as the crate's.
  abbrev pub converted :
      Result ℕ (Unit {0}) × Session k → Result SessionError (Unit {0}) × Session k
  converted (err errno, s) = (err (unix_error errno), s)
  converted (ok _, s) = (ok tt, s)

  -- `macos` is the configuration of the build; `library nochdir noclose` is unistd::daemon of nix.
  unfoldable pub daemon :
      Bool
      → (Bool → Bool → Session k → Result ℕ (Unit {0}) × Session k)
      → Result ℕ ForkResult
      → Result ℕ ℕ
      → ℕ
      → Result ℕ (Unit {0})
      → Bool
      → Bool
      → Session k
      → Daemon
  daemon macos library fork setsid this chdir no_close no_chdir s =
      if macos
      then forked fork (new_session k setsid this chdir no_close no_chdir) s
      else returned (converted (library no_close no_chdir s))

  -- When the library does what daemon(3) documents, by its parameters nochdir and noclose: on a
  -- system other than macOS daemon with its two flags does what it does on macOS, on the child's side
  -- of the fork as the leader of a session, with the two flags exchanged.
  pub daemon-exchanged :
      (library : Bool → Bool → Session k → Result ℕ (Unit {0}) × Session k)
      (fork : Result ℕ ForkResult) (setsid : Result ℕ ℕ) (this : ℕ) (chdir : Result ℕ (Unit {0}))
      (no_close no_chdir : Bool) (s : Session k)
      → ((nochdir noclose : Bool) (t : Session k)
          → library nochdir noclose t ≡ (ok tt, detached k noclose nochdir chdir t))
      → daemon false library fork setsid this chdir no_close no_chdir s
        ≡ daemon true library (ok child) (ok this) this chdir no_chdir no_close s
  unfolding daemon new_session
  daemon-exchanged library fork setsid this chdir no_close no_chdir s documented =
      ap (λ (r : Result ℕ (Unit {0}) × Session k). returned (converted r))
        (documented no_close no_chdir s)
      ∙ rw (==-refl this) refl

  module _ (null : ℕ) (laws : IsKernel k null) where
    -- In this process, Ok in a new session, with the standard descriptors attached to /dev/null as far as
    -- the kernel lets it, or an error.
    abbrev pub Detached :
        Result ℕ ForkResult
        → Result ℕ ℕ
        → ℕ
        → Session k
        → Result SessionError (Unit {0}) × Session k
        → Type 0
    Detached fork setsid this s r =
        ((fork ≡ ok child) × (setsid ≡ ok this) × (r.0 ≡ ok tt) × Attached k null laws s r.1.files)
        ⊎ ((r.0 ≢ ok tt) × (r.1 ≡ s))

    -- For a kernel that keeps its laws, on macOS, with standard descriptors that are to be closed:
    -- either the fork answers in its parent, and this process ends; or daemon returns in this process,
    -- with Ok, on the child's side of the fork and as the leader of a session, where, with /dev/null
    -- opened, each standard descriptor on which dup2 succeeds is /dev/null's and all descriptors behind
    -- the standard ones are as before, or all are as before, when /dev/null cannot be opened; or with an
    -- error, and nothing is changed.
    pub daemon-Detached :
        (library : Bool → Bool → Session k → Result ℕ (Unit {0}) × Session k)
        (fork : Result ℕ ForkResult) (setsid : Result ℕ ℕ) (this : ℕ) (chdir : Result ℕ (Unit {0}))
        (no_chdir : Bool) (s : Session k)
        → ((fork ≡ ok parent)
            × (daemon true library fork setsid this chdir false no_chdir s ≡ exited))
          ⊎ ((r : Result SessionError (Unit {0}) × Session k) × (daemon true library fork setsid
                  this chdir false no_chdir s
                ≡ returned r)
              × Detached fork setsid this s r)
    unfolding daemon
    daemon-Detached library (err errno) setsid this chdir no_chdir s =
        inr ((err (unix_error errno), s), refl, inr (λ e. cc e, refl))
    daemon-Detached library (ok parent) setsid this chdir no_chdir s = inl (refl, refl)
    daemon-Detached library (ok child) setsid this chdir no_chdir s =
        elim (new_session-IsDetached k null laws setsid this chdir no_chdir s) [
          | inl (leads, worked, there) ↦ inr (
            new_session k setsid this chdir false no_chdir s,
            refl,
            inl (refl, leads, worked, there),
          )
          | inr (_, failed, same) ↦
              inr (new_session k setsid this chdir false no_chdir s, refl, inr (failed, same))
        ]
