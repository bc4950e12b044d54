-- ===== src/Process/Privdrop.antt =====
-- The privilege drop in Child::new of privsep/src/process.rs, on each system.
use privsep_rs.Prelude.{
  ℕ, ◌≡◌, ◌⊎◌, inl, inr, refl, ap, Bool, true, false, Option, none, some, List, [], ◌∷◌, ◌++◌,
  if◌then◌else◌, Result, ok, err,
}
use privsep_rs.Process.{Str}

pub record User : Type 0 where
  pub dir : Str
  pub uid : ℕ
  pub gid : ℕ

-- The systems that the source tells apart: Android, FreeBSD, Linux and OpenBSD; iOS and macOS; Redox;
-- any other one.
pub data Target : Type 0 where
  with_saved_ids apple redox other_unix : Target

-- The calls, with their arguments.
pub data Call : Type 0 where
  chroot chdir : Str → Call
  setgroups : List ℕ → Call
  setresgid setresuid : ℕ → ℕ → ℕ → Call
  setegid setgid seteuid setuid : ℕ → Call

-- `privdrop` names the call that failed.
pub data Error : Type 0 where
  unix_error : ℕ → Error
  user_not_found : Str → Error
  privdrop_failed : Call → ℕ → Error

pub record System : Type 0 where
  pub target : Target
  -- User::from_name, with its errno
  pub from_name : Str → Result ℕ (Option User)
  pub is_dir : Str → Bool
  pub call : Call → Result ℕ (Unit {0})

abbrev pub slash : Str
slash = 47 ∷ []

-- "/var/empty"
abbrev pub var_empty : Str
var_empty = 47 ∷ 118 ∷ 97 ∷ 114 ∷ 47 ∷ 101 ∷ 109 ∷ 112 ∷ 116 ∷ 121 ∷ []

-- setgroups, which iOS, macOS and Redox have not
abbrev pub supplementary : Target → ℕ → List Call
supplementary apple gid = []
supplementary redox gid = []
supplementary _ gid = setgroups (gid ∷ []) ∷ []

abbrev pub group_calls : Target → ℕ → List Call
group_calls with_saved_ids gid = setresgid gid gid gid ∷ []
group_calls _ gid = setegid gid ∷ setgid gid ∷ []

abbrev pub user_calls : Target → ℕ → List Call
user_calls with_saved_ids uid = setresuid uid uid uid ∷ []
user_calls apple uid = setuid uid ∷ []
user_calls _ uid = seteuid uid ∷ setuid uid ∷ []

module _ (sys : System) where
  -- The root directory, the supplementary groups and the group id.
  abbrev pub calls_before : User → List Call
  calls_before user =
      chroot (if sys.is_dir user.dir then user.dir else var_empty)
      ∷ chdir slash
      ∷ (supplementary sys.target user.gid ++ group_calls sys.target user.gid)

  -- The calls of the source, in its order.
  abbrev pub calls_of : User → List Call
  calls_of user = calls_before user ++ user_calls sys.target user.uid

  abbrev pub after_call :
      Call
      → Result ℕ (Unit {0})
      → List Call × Result Error (Unit {0})
      → List Call × Result Error (Unit {0})
  after_call c (err errno) rest = ([], err (privdrop_failed c errno))
  after_call c (ok _) rest = (c ∷ rest.0, rest.1)

  -- Each call with `?`; the result has the calls that succeeded.
  unfoldable pub run : List Call → List Call × Result Error (Unit {0})
  run [] = ([], ok tt)
  run (c ∷ calls) = let rest = run calls in after_call c (sys.call c) rest

  abbrev pub with_user : Str → Result ℕ (Option User) → List Call × Result Error (Unit {0})
  with_user username (err errno) = ([], err (unix_error errno))
  with_user username (ok none) = ([], err (user_not_found username))
  with_user username (ok (some user)) = run (calls_of user)

  unfoldable pub privdrop : Bool → Str → List Call × Result Error (Unit {0})
  unfolding run
  privdrop true username = ([], ok tt)
  privdrop false username = with_user username (sys.from_name username)

  run-outcome :
      (calls : List Call)
      → ((run calls ≡ (calls, ok tt)))
        ⊎ ((before : List Call) × (c : Call) × (after : List Call) × (errno : ℕ) × (calls
              ≡ before ++ (c ∷ after))
            × (sys.call c ≡ err errno)
            × (run calls ≡ (before, err (privdrop_failed c errno))))
  unfolding run
  run-outcome [] = inl refl
  run-outcome (c ∷ calls) = go (sys.call c) refl (run-outcome calls)
    where
      go :
          (r : Result ℕ (Unit {0}))
          → sys.call c ≡ r
          → ((run calls ≡ (calls, ok tt)))
            ⊎ ((before : List Call) × (d : Call) × (after : List Call) × (errno : ℕ) × (calls
                  ≡ before ++ (d ∷ after))
                × (sys.call d ≡ err errno)
                × (run calls ≡ (before, err (privdrop_failed d errno))))
          → ((after_call c (sys.call c) (run calls) ≡ (c ∷ calls, ok tt)))
            ⊎ ((before : List Call) × (d : Call) × (after : List Call) × (errno : ℕ) × (c ∷ calls
                  ≡ before ++ (d ∷ after))
                × (sys.call d ≡ err errno)
                × (after_call c (sys.call c) (run calls) ≡ (before, err (privdrop_failed d errno))))
      go (err errno) e later = inr ([], c, calls, errno, refl, e, rw e refl)
      go (ok tt) e (inl done) = inl (rw (e, done) refl)
      go (ok tt) e (inr (before, d, after, errno, parts, fails, result)) = inr (
        c ∷ before,
        d,
        after,
        errno,
        ap (λ (cs : List Call). c ∷ cs) parts,
        fails,
        rw (e, result) refl,
      )

  -- With a user of the configured name, the privilege drop ends with Ok after all calls in their order,
  -- or with an error that names the first call that failed, after just the calls before it.
  pub privdrop-outcome :
      (username : Str) (user : User)
      → sys.from_name username ≡ ok (some user)
      → (privdrop false username ≡ (calls_of user, ok tt))
        ⊎ ((before : List Call) × (c : Call) × (after : List Call) × (errno : ℕ) × (calls_of user
              ≡ before ++ (c ∷ after))
            × (sys.call c ≡ err errno)
            × (privdrop false username ≡ (before, err (privdrop_failed c errno))))
  unfolding privdrop
  privdrop-outcome username user found = rw found (run-outcome (calls_of user))
