-- ===== src/Process/UserLast.antt =====
-- The order of the privilege drop in Child::new of privsep/src/process.rs.
use privsep_rs.Prelude.{
  ℕ, ◌≡◌, ◌⊎◌, inl, inr, refl, ap, Bool, true, false, Bool-cases, some, List, [], ◌∷◌, ◌++◌, All,
  ok, err, subst, Result, if◌then◌else◌,
}
use privsep_rs.Process.{Str}
use privsep_rs.Process.Privdrop.{
  User, Error, privdrop_failed, Target, with_saved_ids, apple, redox, other_unix, Call, chroot,
  chdir, setgroups, setresgid, setresuid, setegid, setgid, seteuid, setuid, System, slash,
  var_empty, supplementary, group_calls, user_calls, calls_of, after_call, run, privdrop,
  privdrop-outcome,
}

-- The call sets the user id.
abbrev pub sets_user : Call → Bool
sets_user (setresuid _ _ _) = true
sets_user (seteuid _) = true
sets_user (setuid _) = true
sets_user _ = false

abbrev pub SetUser : List Call → Type 0
SetUser calls = All (λ c. sets_user c ≡ true) calls

abbrev pub KeepUser : List Call → Type 0
KeepUser calls = All (λ c. sets_user c ≡ false) calls

-- What the calls for the groups are to be on each system, and those for the user.
pub data GroupCalls (gid : ℕ) : Target → List Call → Type 0 where
  saved_groups : GroupCalls gid with_saved_ids (setgroups (gid ∷ []) ∷ setresgid gid gid gid ∷ [])
  apple_groups : GroupCalls gid apple (setegid gid ∷ setgid gid ∷ [])
  redox_groups : GroupCalls gid redox (setegid gid ∷ setgid gid ∷ [])
  other_groups : GroupCalls gid other_unix (setgroups (gid ∷ []) ∷ setegid gid ∷ setgid gid ∷ [])

pub data UserCalls (uid : ℕ) : Target → List Call → Type 0 where
  saved_user : UserCalls uid with_saved_ids (setresuid uid uid uid ∷ [])
  apple_user : UserCalls uid apple (setuid uid ∷ [])
  redox_user : UserCalls uid redox (seteuid uid ∷ setuid uid ∷ [])
  other_user : UserCalls uid other_unix (seteuid uid ∷ setuid uid ∷ [])

GroupCalls-code :
    (target : Target) (gid : ℕ)
    → GroupCalls gid target (supplementary target gid ++ group_calls target gid)
GroupCalls-code with_saved_ids gid = saved_groups
GroupCalls-code apple gid = apple_groups
GroupCalls-code redox gid = redox_groups
GroupCalls-code other_unix gid = other_groups

UserCalls-code : (target : Target) (uid : ℕ) → UserCalls uid target (user_calls target uid)
UserCalls-code with_saved_ids uid = saved_user
UserCalls-code apple uid = apple_user
UserCalls-code redox uid = redox_user
UserCalls-code other_unix uid = other_user

GroupCalls-KeepUser :
    (gid : ℕ) (target : Target) (calls : List Call) → GroupCalls gid target calls → KeepUser calls
GroupCalls-KeepUser gid _ _ saved_groups = (refl, (refl, tt))
GroupCalls-KeepUser gid _ _ apple_groups = (refl, (refl, tt))
GroupCalls-KeepUser gid _ _ redox_groups = (refl, (refl, tt))
GroupCalls-KeepUser gid _ _ other_groups = (refl, (refl, (refl, tt)))

UserCalls-SetUser :
    (uid : ℕ) (target : Target) (calls : List Call) → UserCalls uid target calls → SetUser calls
UserCalls-SetUser uid _ _ saved_user = (refl, tt)
UserCalls-SetUser uid _ _ apple_user = (refl, tt)
UserCalls-SetUser uid _ _ redox_user = (refl, (refl, tt))
UserCalls-SetUser uid _ _ other_user = (refl, (refl, tt))

module _ (sys : System) where
  -- The root directory is the home of the user, or /var/empty if that is no directory.
  pub data RootOf (home : Str) : Str → Type 0 where
    at_home : sys.is_dir home ≡ true → RootOf home home
    at_empty : sys.is_dir home ≡ false → RootOf home var_empty

  RootOf-code : (home : Str) → RootOf home (if sys.is_dir home then home else var_empty)
  RootOf-code home = elim (Bool-cases (sys.is_dir home)) [
    | inl e ↦ rw e (at_home e)
    | inr e ↦ rw e (at_empty e)
  ]

  -- The calls that give up all privileges for this user: of the root directory, the working directory
  -- and the groups first, and of the user last.
  pub record IsDrop (user : User) (calls : List Call) : Type 0 where
    pub root : Str
    pub groups : List Call
    pub last : List Call
    pub parts : calls ≡ chroot root ∷ chdir slash ∷ (groups ++ last)
    pub is_root : RootOf user.dir root
    pub is_groups : GroupCalls user.gid sys.target groups
    pub is_last : UserCalls user.uid sys.target last
    pub keeps : KeepUser groups
    pub sets : SetUser last

  pub calls_of-IsDrop : (user : User) → IsDrop user (calls_of sys user)
  calls_of-IsDrop user =
      let g = GroupCalls-code sys.target user.gid in
      let u = UserCalls-code sys.target user.uid in
      record {
        root = if sys.is_dir user.dir then user.dir else var_empty;
        groups = supplementary sys.target user.gid ++ group_calls sys.target user.gid;
        last = user_calls sys.target user.uid;
        parts = refl;
        is_root = RootOf-code user.dir;
        is_groups = g;
        is_last = u;
        keeps = GroupCalls-KeepUser _ _ _ g;
        sets = UserCalls-SetUser _ _ _ u;
      }

  abbrev pub Succeeds : Call → Type 0
  Succeeds c = sys.call c ≡ ok tt

  run-Succeeds : (calls : List Call) → All Succeeds (run sys calls).0
  unfolding run
  run-Succeeds [] = tt
  run-Succeeds (c ∷ calls) = go (sys.call c) refl (run-Succeeds calls)
    where
      go :
          (r : Result ℕ (Unit {0}))
          → sys.call c ≡ r
          → All Succeeds (run sys calls).0
          → All Succeeds (after_call sys c r (run sys calls)).0
      go (err errno) e later = tt
      go (ok _) e later = (e, later)

  pub privdrop-Succeeds :
      (username : Str) (user : User)
      → sys.from_name username ≡ ok (some user)
      → All Succeeds (privdrop sys false username).0
  unfolding privdrop
  privdrop-Succeeds username user found = rw found (run-Succeeds (calls_of sys user))

  -- On each system, with a user of the configured name: the privilege drop succeeds in all the calls
  -- that it lists, and either it ends with Ok, and these are the calls for the root directory, the
  -- working directory, the groups and the group ids and, after them, those that set the user ids of
  -- the user, on this system; or they are the beginning of those calls, the next one failed, and it
  -- ends with the error of that.
  pub privdrop-IsDrop :
      (username : Str) (user : User)
      → sys.from_name username ≡ ok (some user)
      → All Succeeds (privdrop sys false username).0
        × ((IsDrop user (privdrop sys false username).0 × ((privdrop sys false username).1 ≡ ok tt))
            ⊎ ((c : Call) × (after : List Call) × (errno : ℕ) × IsDrop user
                  ((privdrop sys false username).0 ++ (c ∷ after))
                × (sys.call c ≡ err errno)
                × ((privdrop sys false username).1 ≡ err (privdrop_failed c errno))))
  privdrop-IsDrop username user found = (
    privdrop-Succeeds username user found,
    elim (privdrop-outcome sys username user found) [
      | inl done ↦ inl (
        rw done (calls_of-IsDrop user),
        ap (λ (r : List Call × Result Error (Unit {0})). r.1) done,
      )
      | inr (before, c, after, errno, parts, fails, result) ↦ inr (
        c,
        after,
        errno,
        rw result (subst (IsDrop user) parts (calls_of-IsDrop user)),
        fails,
        ap (λ (r : List Call × Result Error (Unit {0})). r.1) result,
      )
    ],
  )
