-- ===== src/Process/ChildOrder.antt =====
-- The order of the calls in Child::new of privsep/src/process.rs.
use privsep_rs.Prelude.{
  list_laws, All, All-append, Bool, ℕ, ◌≡◌, inl, inr, refl, ap, sym, subst, ◌∙◌, true, false, some,
  List, [], ◌∷◌, ◌++◌, map, length, ◌≤◌, le→leb, Result, ok, err,
}
use mathlib.Core.List.{map-append}
use privsep_rs.Stream.{IoError}
use privsep_rs.Imsg.{Handler}
use privsep_rs.Imsg.Recv.{Output}
use privsep_rs.Process.{Str, Process}
use privsep_rs.Process.Privdrop.{User, Call, calls_of, privdrop, privdrop_failed, privdrop-outcome}
use privsep_rs.Process.UserLast.{Succeeds, IsDrop, calls_of-IsDrop, privdrop-Succeeds}
use privsep_rs.Process.Handshake.{start}
use privsep_rs.Process.Child.{
  privsep_fd, System, Error, unix_error, io_error, privdrop_error, Action, got_flags, set_flags,
  adopted, called, ignored_sigpipe, Outcome, failed, waited, and_then, unix, io, calls_done,
  set_cloexec, with_parent, with_peers, new,
}

module _ (sys : System) where
  -- The system has answered the call of this action with success.
  pub data Works : Action → Type 0 where
    got : (fd : ℕ) (flags : Bool) → sys.getfd fd ≡ ok flags → Works (got_flags fd)
    set : (fd : ℕ) (flags : Bool) → sys.setfd fd flags ≡ ok tt → Works (set_flags fd flags)
    taken : (fd : ℕ) (h : Handler) → sys.from_raw_fd fd ≡ ok h → Works (adopted fd)
    dropped : (c : Call) → sys.privdrop.call c ≡ ok tt → Works (called c)
    ignored : sys.sigpipe ≡ ok tt → Works ignored_sigpipe

  -- It has answered it with a failure, for which this is the error.
  pub data Fails : Action → Error → Type 0 where
    not_got : (fd errno : ℕ) → sys.getfd fd ≡ err errno → Fails (got_flags fd) (unix_error errno)
    not_set :
        (fd : ℕ) (flags : Bool) (errno : ℕ)
        → sys.setfd fd flags ≡ err errno
        → Fails (set_flags fd flags) (unix_error errno)
    not_taken :
        (fd : ℕ) (kind : IoError)
        → sys.from_raw_fd fd ≡ err kind
        → Fails (adopted fd) (io_error kind)
    not_dropped :
        (c : Call) (errno : ℕ)
        → sys.privdrop.call c ≡ err errno
        → Fails (called c) (privdrop_error (privdrop_failed c errno))
    not_ignored : (errno : ℕ) → sys.sigpipe ≡ err errno → Fails ignored_sigpipe (unix_error errno)

  -- These actions were all done, with this in the end; or those before one of them, which failed, with
  -- its error.
  pub data Staged (actions : List Action) (final : Outcome → Type 0)
      : List Action × Outcome → Type 0 where
    all_done : (o : Outcome) → All Works actions → final o → Staged actions final (actions, o)
    ended :
        (done : List Action) (a : Action) (rest : List Action) (e : Error)
        → actions ≡ done ++ (a ∷ rest)
        → All Works done
        → Fails a e
        → Staged actions final (done, failed e)

  -- One call, with its actions.
  data CallDone {A : Type 0} (actions : List Action) (fine : A → Type 0)
      : List Action × Result Error A → Type 0 where
    fine_call : (a : A) → All Works actions → fine a → CallDone actions fine (actions, ok a)
    bad_call :
        (done : List Action) (b : Action) (rest : List Action) (e : Error)
        → actions ≡ done ++ (b ∷ rest)
        → All Works done
        → Fails b e
        → CallDone actions fine (done, err e)

  and_then-Staged :
      {A : Type 0} (actions more : List Action) (fine : A → Type 0) (final : Outcome → Type 0)
      (x : List Action × Result Error A) (next : A → List Action × Outcome)
      → CallDone actions fine x
      → ((a : A) → fine a → Staged more final (next a))
      → Staged (actions ++ more) final (and_then x next (λ e. failed e))
  and_then-Staged actions more fine final _ next (bad_call done b rest e parts work bad) later =
      ended done b (rest ++ more) e (simp (list_laws, parts)) work bad
  and_then-Staged actions more fine final _ next (fine_call a work f) later =
      go (next a) (later a f)
    where
      go :
          (y : List Action × Outcome)
          → Staged more final y
          → Staged (actions ++ more) final (actions ++ y.0, y.1)
      go _ (all_done o works f') = all_done o (All-append Works actions more work works) f'
      go _ (ended done b rest e parts works bad) =
          ended (actions ++ done) b rest e (simp (list_laws, parts))
            (All-append Works actions done work works) bad

  and_then-CallDone :
      {A B : Type 0} (actions more : List Action) (fine : A → Type 0) (final : B → Type 0)
      (x : List Action × Result Error A) (next : A → List Action × Result Error B)
      → CallDone actions fine x
      → ((a : A) → fine a → CallDone more final (next a))
      → CallDone (actions ++ more) final (and_then x next (λ e. err e))
  and_then-CallDone {B = B} actions more fine final _ next (bad_call done b rest e parts work bad)
        later =
      bad_call done b (rest ++ more) e (simp (list_laws, parts)) work bad
  and_then-CallDone {B = B} actions more fine final _ next (fine_call a work f) later =
      go (next a) (later a f)
    where
      go :
          (y : List Action × Result Error B)
          → CallDone more final y
          → CallDone (actions ++ more) final (actions ++ y.0, y.1)
      go _ (fine_call b works f') = fine_call b (All-append Works actions more work works) f'
      go _ (bad_call done b rest e parts works bad) =
          bad_call (actions ++ done) b rest e (simp (list_laws, parts))
            (All-append Works actions done work works) bad

  forget :
      {A : Type 0} (actions : List Action) (fine : A → Type 0) (x : List Action × Result Error A)
      → CallDone actions fine x
      → CallDone actions (λ _. Unit {0}) x
  forget actions fine _ (fine_call a work f) = fine_call a work tt
  forget actions fine _ (bad_call done b rest e parts work bad) =
      bad_call done b rest e parts work bad

  unix-CallDone :
      {A : Type 0} (action : Action) (r : Result ℕ A)
      → ((a : A) → r ≡ ok a → Works action)
      → ((errno : ℕ) → r ≡ err errno → Fails action (unix_error errno))
      → CallDone (action ∷ []) (λ a. r ≡ ok a) (unix action r)
  unix-CallDone action (ok a) works fails = fine_call a (works a refl, tt) refl
  unix-CallDone action (err errno) works fails = bad_call [] action [] _ refl tt (fails errno refl)

  io-CallDone :
      {A : Type 0} (action : Action) (r : Result IoError A)
      → ((a : A) → r ≡ ok a → Works action)
      → ((kind : IoError) → r ≡ err kind → Fails action (io_error kind))
      → CallDone (action ∷ []) (λ a. r ≡ ok a) (io action r)
  io-CallDone action (ok a) works fails = fine_call a (works a refl, tt) refl
  io-CallDone action (err kind) works fails = bad_call [] action [] _ refl tt (fails kind refl)

  called-Works :
      (calls : List Call)
      → All (Succeeds sys.privdrop) calls
      → All Works (map (λ c. called c) calls)
  called-Works [] all = tt
  called-Works (c ∷ calls) (e, all) = (dropped c e, called-Works calls all)

-- All that a child does before it reads a message, with these calls of the privilege drop.
abbrev pub preparation : List Call → List Action
preparation calls =
    (got_flags privsep_fd ∷ set_flags privsep_fd true ∷ [])
    ++ ((adopted privsep_fd ∷ []) ++ (map (λ c. called c) calls ++ (ignored_sigpipe ∷ [])))

module _ (sys : System) (user : User) (username : Str)
    (found : sys.privdrop.from_name username ≡ ok (some user)) where
  set_cloexec-CallDone :
      CallDone sys
        (got_flags privsep_fd ∷ set_flags privsep_fd true ∷ [])
        (λ _. Unit {0})
        (set_cloexec sys privsep_fd true)
  unfolding set_cloexec
  set_cloexec-CallDone =
      and_then-CallDone sys (got_flags privsep_fd ∷ []) (set_flags privsep_fd true ∷ []) _
        (λ _. Unit {0}) (unix (got_flags privsep_fd) (sys.getfd privsep_fd))
        (λ flags. unix (set_flags privsep_fd true) (sys.setfd privsep_fd true))
        (unix-CallDone sys (got_flags privsep_fd) (sys.getfd privsep_fd)
          (λ flags e. got privsep_fd flags e) (λ errno e. not_got privsep_fd errno e))
        (λ flags f. forget sys _ _ _ (
          unix-CallDone sys (set_flags privsep_fd true) (sys.setfd privsep_fd true)
            (λ _ e. set privsep_fd true e) (λ errno e. not_set privsep_fd true errno e)))

  privdrop-CallDone :
      CallDone sys
        (map (λ c. called c) (calls_of sys.privdrop user))
        (λ _. Unit {0})
        (calls_done (privdrop sys.privdrop false username))
  privdrop-CallDone =
      let work =
        called-Works sys (privdrop sys.privdrop false username).0
          (privdrop-Succeeds sys.privdrop username user found) in
      elim (privdrop-outcome sys.privdrop username user found) [
        | inl all ↦ go_all all work
        | inr (before, c, after, errno, parts, fails, some_calls) ↦
            go_some before c after errno parts fails some_calls work
      ]
    where
      go_all :
          privdrop sys.privdrop false username ≡ (calls_of sys.privdrop user, ok tt)
          → All (Works sys) (map (λ c. called c) (privdrop sys.privdrop false username).0)
          → CallDone sys
              (map (λ c. called c) (calls_of sys.privdrop user))
              (λ _. Unit {0})
              (calls_done (privdrop sys.privdrop false username))
      go_all all work =
          subst
            (λ x.
              All (Works sys) (map (λ c. called c) x.0)
              → CallDone sys (map (λ c. called c) (calls_of sys.privdrop user)) (λ _. Unit {0})
                  (calls_done x))
            (sym all) (λ w. fine_call tt w tt) work

      go_some :
          (before : List Call) (c : Call) (after : List Call) (errno : ℕ)
          → calls_of sys.privdrop user ≡ before ++ (c ∷ after)
          → sys.privdrop.call c ≡ err errno
          → privdrop sys.privdrop false username ≡ (before, err (privdrop_failed c errno))
          → All (Works sys) (map (λ c. called c) (privdrop sys.privdrop false username).0)
          → CallDone sys
              (map (λ c. called c) (calls_of sys.privdrop user))
              (λ _. Unit {0})
              (calls_done (privdrop sys.privdrop false username))
      go_some before c after errno parts fails some_calls work =
          subst
            (λ x.
              All (Works sys) (map (λ c. called c) x.0)
              → CallDone sys (map (λ c. called c) (calls_of sys.privdrop user)) (λ _. Unit {0})
                  (calls_done x))
            (sym some_calls)
            (λ w.
              bad_call (map (λ d. called d) before) (called c) (map (λ d. called d) after)
                (privdrop_error (privdrop_failed c errno))
                (ap (map (λ d. called d)) parts ∙ map-append (λ d. called d) before (c ∷ after)) w
                (not_dropped c errno fails))
            work

  module _ (processes : List Process) (results : List (Output (Unit {0}))) where
    -- The child waits for its peers, with the handler of the descriptor as the parent's.
    abbrev pub Waits : Outcome → Type 0
    Waits o =
        (parent : Handler) × (sys.from_raw_fd privsep_fd ≡ ok parent)
        × (o ≡ waited (start sys.handshake parent sys.parent_pid processes results))

    with_parent-Staged :
        (parent : Handler)
        → sys.from_raw_fd privsep_fd ≡ ok parent
        → Staged sys
            (map (λ c. called c) (calls_of sys.privdrop user) ++ (ignored_sigpipe ∷ []))
            Waits
            (with_parent sys processes false username results parent)
    with_parent-Staged parent e =
        and_then-Staged sys (map (λ c. called c) (calls_of sys.privdrop user))
          (ignored_sigpipe ∷ []) (λ _. Unit {0}) Waits
          (calls_done (privdrop sys.privdrop false username)) _ privdrop-CallDone
          (λ _ _.
            and_then-Staged sys (ignored_sigpipe ∷ []) [] _ Waits (unix ignored_sigpipe sys.sigpipe)
              _
              (unix-CallDone sys ignored_sigpipe sys.sigpipe (λ _ x. ignored x)
                (λ errno x. not_ignored errno x))
              (λ _ _. all_done _ tt (parent, e, refl)))

    new-preparation :
        (room : ℕ) (first : Process) (rest : List Process)
        → processes ≡ first ∷ rest
        → length processes ≤ room
        → Staged sys
            (preparation (calls_of sys.privdrop user))
            Waits
            (new sys processes false username results room)
    unfolding new
    new-preparation room first rest parts fits = rw (le→leb (length processes) room fits) (
        and_then-Staged sys (got_flags privsep_fd ∷ set_flags privsep_fd true ∷ []) _
          (λ _. Unit {0}) Waits (set_cloexec sys privsep_fd true) _ set_cloexec-CallDone
          (λ _ _. adopting))
      where
        adopting :
            Staged sys
              ((adopted privsep_fd ∷ [])
                ++ (map (λ c. called c) (calls_of sys.privdrop user) ++ (ignored_sigpipe ∷ [])))
              Waits
              (with_peers sys processes false username results processes)
        adopting =
            subst
              (λ (ps : List Process).
                Staged sys
                  ((adopted privsep_fd ∷ [])
                    ++ (map (λ c. called c) (calls_of sys.privdrop user) ++ (ignored_sigpipe ∷ [])))
                  Waits (with_peers sys processes false username results ps))
              (sym parts)
              (and_then-Staged sys (adopted privsep_fd ∷ []) _
                (λ parent. sys.from_raw_fd privsep_fd ≡ ok parent) Waits
                (io (adopted privsep_fd) (sys.from_raw_fd privsep_fd)) _
                (io-CallDone sys (adopted privsep_fd) (sys.from_raw_fd privsep_fd)
                  (λ h x. taken privsep_fd h x) (λ kind x. not_taken privsep_fd kind x))
                with_parent-Staged)

    -- With the privilege drop enabled, its user found, a process at least and no more than there is
    -- room for: either Child::new sets the close-on-exec flag of its descriptor, adopts it, makes the
    -- calls that give up all privileges for this user, in their order, and ignores SIGPIPE, all with
    -- success, and only then waits for messages; or it does those before one of them with success,
    -- this one fails, it returns the error of that, and no message is read.
    pub new-Staged :
        (room : ℕ) (first : Process) (rest : List Process)
        → processes ≡ first ∷ rest
        → length processes ≤ room
        → (calls : List Call) × IsDrop sys.privdrop user calls
          × Staged sys (preparation calls) Waits (new sys processes false username results room)
    new-Staged room first rest parts fits = (
      calls_of sys.privdrop user,
      calls_of-IsDrop sys.privdrop user,
      new-preparation room first rest parts fits,
    )
