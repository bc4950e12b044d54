-- ===== src/Fd.antt =====
-- privsep/src/net/fd.rs: descriptors that are closed when they are dropped. The descriptors of the
-- process are the kernel's, which is a parameter with laws.
pub mod Table
pub mod Ownership
mod Tests
use privsep_rs.Prelude.{ℕ, ◌≡◌, ◌≢◌, Option, none, some, ◌<◌, ◌≤◌, Result, ok, err}
use privsep_rs.Stream.{IoError, not_connected}

-- close(2), dup(2), dup2(2), fcntl(2) with F_GETFD, open(2) of /dev/null and socketpair(2), with their
-- errno; `file_of` has the open file of a descriptor.
pub record Kernel : Type 1 where
  pub State : Type 0
  pub file_of : State → ℕ → Option ℕ
  pub close : ℕ → State → Result ℕ (Unit {0}) × State
  pub dup : ℕ → State → Result ℕ ℕ × State
  pub dup2 : ℕ → ℕ → State → Result ℕ ℕ × State
  pub getfd : ℕ → State → Result ℕ ℕ
  pub open_null : State → Result ℕ ℕ × State
  pub socketpair : State → Result ℕ (ℕ × ℕ) × State
  -- close_open_fds of the crate close_fds, with nothing to keep
  pub close_from : ℕ → State → State

module _ (k : Kernel) where
  -- The descriptor is new, for this file; no other one has changed.
  pub record Opened (s : k.State) (fd file : ℕ) (t : k.State) : Type 0 where
    pub was_free : k.file_of s fd ≡ none
    pub is_open : k.file_of t fd ≡ some file
    pub others : (x : ℕ) → x ≢ fd → k.file_of t x ≡ k.file_of s x

  -- Two different new descriptors.
  pub record Paired (s : k.State) (a b : ℕ) (t : k.State) : Type 0 where
    pub apart : a ≢ b
    pub first_free : k.file_of s a ≡ none
    pub second_free : k.file_of s b ≡ none
    pub first_open : (file : ℕ) × (k.file_of t a ≡ some file)
    pub second_open : (file : ℕ) × (k.file_of t b ≡ some file)
    pub others : (x : ℕ) → x ≢ a → x ≢ b → k.file_of t x ≡ k.file_of s x

  -- What the manual pages say. `null` is the open file of /dev/null.
  pub record IsKernel (null : ℕ) : Type 0 where
    pub close_one : (fd : ℕ) (s : k.State) → k.file_of (k.close fd s).1 fd ≡ none
    pub close_others :
        (fd x : ℕ) (s : k.State) → x ≢ fd → k.file_of (k.close fd s).1 x ≡ k.file_of s x
    pub dup_ok :
        (fd n file : ℕ) (s t : k.State)
        → k.dup fd s ≡ (ok n, t)
        → k.file_of s fd ≡ some file
        → Opened s n file t
    pub dup2_ok :
        (fd new n file : ℕ) (s t : k.State)
        → k.dup2 fd new s ≡ (ok n, t)
        → k.file_of s fd ≡ some file
        → (n ≡ new) × (k.file_of t new ≡ some file)
    -- On the descriptor itself it does nothing.
    pub dup2_same :
        (fd file : ℕ) (s : k.State) → k.file_of s fd ≡ some file → k.dup2 fd fd s ≡ (ok fd, s)
    pub dup2_others :
        (fd new x : ℕ) (s : k.State) → x ≢ new → k.file_of (k.dup2 fd new s).1 x ≡ k.file_of s x
    pub getfd_open :
        (fd file : ℕ) (s : k.State)
        → k.file_of s fd ≡ some file
        → (flags : ℕ) × (k.getfd fd s ≡ ok flags)
    pub getfd_closed :
        (fd : ℕ) (s : k.State) → k.file_of s fd ≡ none → (errno : ℕ) × (k.getfd fd s ≡ err errno)
    pub open_null_ok : (fd : ℕ) (s t : k.State) → k.open_null s ≡ (ok fd, t) → Opened s fd null t
    pub open_null_fails :
        (errno : ℕ) (s t : k.State)
        → k.open_null s ≡ (err errno, t)
        → (x : ℕ) → k.file_of t x ≡ k.file_of s x
    pub close_from_above :
        (low x : ℕ) (s : k.State) → low ≤ x → k.file_of (k.close_from low s) x ≡ none
    pub close_from_below :
        (low x : ℕ) (s : k.State) → x < low → k.file_of (k.close_from low s) x ≡ k.file_of s x
    pub socketpair_ok : (a b : ℕ) (s t : k.State) → k.socketpair s ≡ (ok (a, b), t) → Paired s a b t

  -- Fd::duplicate
  unfoldable pub duplicate : ℕ → k.State → Result ℕ ℕ × k.State
  duplicate fd s = k.dup fd s

  abbrev pub as_open : Result ℕ ℕ → Result IoError (Unit {0})
  as_open (ok flags) = ok tt
  as_open (err errno) = err not_connected

  -- Fd::is_open
  unfoldable pub is_open : ℕ → k.State → Result IoError (Unit {0})
  is_open fd s = as_open (k.getfd fd s)

  -- Drop for Fd
  abbrev pub drop : ℕ → k.State → k.State
  drop fd s = (k.close fd s).1

  -- IntoRawFd: the descriptor stays open.
  abbrev pub into_raw_fd : ℕ → k.State → ℕ × k.State
  into_raw_fd fd s = (fd, s)

  -- AsRawFd
  abbrev pub as_raw_fd : ℕ → ℕ
  as_raw_fd fd = fd
