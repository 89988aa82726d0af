-- ===== src/Cmd/Run/Started.antt =====
-- runWith of cmd/ocu-rclone-filestore/run.go up to the mount.
use ocu_rclone_filestore.Base.{
  Text, true, false, ◌≡◌, ◌≢◌, ◌⊎◌, inl, inr, refl, ap, subst, arith, Option, none, some, GoError,
  Result, ok, err, List, [], ◌∷◌, ◌++◌, is_empty, Bool-cases,
}
use ocu_rclone_filestore.Mountcfg.Validate.{Config}
use ocu_rclone_filestore.Mountcfg.Accepts.{IsValidConfig}
use ocu_rclone_filestore.Mountcfg.Load.{Loaded, loaded, refused, load, load_iff}
use ocu_rclone_filestore.Mounter.Cachedir.{CacheAction, ensure_writable_cache_dir, cache_dir_after}
use ocu_rclone_filestore.Mounter.Cachedir.Writable.{writable, ensure_writable_cache_dir-Settled}
use ocu_rclone_filestore.Cmd.Run.{
  Flags, Step, wrote_version, on_cache_dir, ignored_signals, notified, stopped, mounted, RunError,
  RunEnv, resolve_flag_or_env, cache_steps, of_mount, after_cache_dir, after_load, written,
  run_flags, after_parse, run_with,
}

-- The mounts that the steps start, each with its config and its ready-file path.
unfoldable pub mounts_of : List Step → List (Config × Text)
mounts_of [] = []
mounts_of (wrote_version ∷ steps) = mounts_of steps
mounts_of (on_cache_dir a ∷ steps) = mounts_of steps
mounts_of (ignored_signals ∷ steps) = mounts_of steps
mounts_of (notified ∷ steps) = mounts_of steps
mounts_of (stopped ∷ steps) = mounts_of steps
mounts_of (mounted cfg path ∷ steps) = (cfg, path) ∷ mounts_of steps

mounts_of-cache_steps :
    (actions : List CacheAction) (rest : List Step)
    → mounts_of (cache_steps actions ++ rest) ≡ mounts_of rest
unfolding mounts_of
mounts_of-cache_steps [] rest = refl
mounts_of-cache_steps (a ∷ actions) rest = mounts_of-cache_steps actions rest

-- The flags ask for a mount of this config, which the loader accepts, with this ready-file path; and
-- a cache directory could be ensured, with these actions.
pub record IsAsked (env : RunEnv) (f : Flags) (cfg : Config) (path : Text)
    (actions : List CacheAction) : Type 0 where
  pub flags : env.flags ≡ ok f
  pub no_version : f.version ≡ false
  pub config : f.config ≢ []
  pub accepted : load env.loader f.config ≡ loaded cfg
  pub ready_file :
      ((f.ready_file ≢ []) × (path ≡ f.ready_file))
      ⊎ ((f.ready_file ≡ []) × (path ≡ env.ready_file_env))
  pub cache_dir : ensure_writable_cache_dir env.cache env.cache_dir ≡ (actions, none)

-- A run that mounts: a config that keeps the loader's rules, over a cache directory that is writable, after
-- the cache directory and the signals were seen to, and only once; its error is that of the mount.
abbrev pub Mounts : RunEnv → (Config → Text → Option GoError) → List Step × Option RunError → Type 0
Mounts env mount (steps, error) =
    (f : Flags) × (cfg : Config) × (path : Text) × (actions : List CacheAction) × IsAsked env f cfg
      path actions
    × IsValidConfig env.loader.is_uri cfg
    × (writable env.cache (cache_dir_after env.cache_dir actions) ≡ true)
    × (steps ≡ cache_steps actions ++ ignored_signals ∷ notified ∷ mounted cfg path ∷ stopped ∷ [])
    × (error ≡ of_mount (mount cfg path))

-- A run that mounts nothing: it wrote the version, or failed.
abbrev pub MountsNothing : List Step × Option RunError → Type 0
MountsNothing (steps, error) =
    (mounts_of steps ≡ []) × ((steps ≡ wrote_version ∷ []) ⊎ (error ≢ none))

resolved :
    (flag_val env_val path : Text)
    → path ≡ resolve_flag_or_env flag_val env_val
    → ((flag_val ≢ []) × (path ≡ flag_val)) ⊎ ((flag_val ≡ []) × (path ≡ env_val))
unfolding resolve_flag_or_env
resolved [] env_val path h = inr (refl, h)
resolved (c ∷ flag_val) env_val path h = inl ((λ bad. cc), h)

module _ (env : RunEnv) (mount : Config → Text → Option GoError) where
  abbrev Outcome : List Step × Option RunError → Type 0
  Outcome r = MountsNothing r ⊎ Mounts env mount r

  cache_steps_quiet : (actions : List CacheAction) → mounts_of (cache_steps actions) ≡ []
  unfolding mounts_of
  cache_steps_quiet [] = refl
  cache_steps_quiet (a ∷ actions) = cache_steps_quiet actions

  after_cache_dir-Outcome :
      (f : Flags) (cfg : Config) (path : Text)
      → env.flags ≡ ok f
      → f.version ≡ false
      → f.config ≢ []
      → load env.loader f.config ≡ loaded cfg
      → path ≡ resolve_flag_or_env f.ready_file env.ready_file_env
      → (r : List CacheAction × Option GoError)
      → ensure_writable_cache_dir env.cache env.cache_dir ≡ r
      → Outcome (after_cache_dir mount cfg path r)
  after_cache_dir-Outcome f cfg path flags plain config accepted ready (actions, some e) ensured =
      inl (cache_steps_quiet actions, inr (λ bad. cc))
  after_cache_dir-Outcome f cfg path flags plain config accepted ready (actions, none) ensured =
      let (raw, found, decoded, valid) = (load_iff env.loader f.config cfg).0 accepted in
      let ((good, bad, iff), kept) = ensure_writable_cache_dir-Settled env.cache env.cache_dir in
      inr (
        f,
        cfg,
        path,
        actions,
        record {
          flags = flags;
          no_version = plain;
          config = config;
          accepted = accepted;
          ready_file = resolved f.ready_file env.ready_file_env path ready;
          cache_dir = ensured;
        },
        valid,
        subst
            (λ (r : List CacheAction × Option GoError).
              writable env.cache (cache_dir_after env.cache_dir r.0) ≡ true)
            ensured (good (ap (λ r. r.1) ensured)),
        refl,
        refl,
      )

  after_load-Outcome :
      (f : Flags)
      → env.flags ≡ ok f
      → f.version ≡ false
      → f.config ≢ []
      → (l : Loaded) → load env.loader f.config ≡ l
      → Outcome (after_load env mount (resolve_flag_or_env f.ready_file env.ready_file_env) l)
  unfolding mounts_of
  after_load-Outcome f flags plain config (refused e) accepted = inl (refl, inr (λ bad. cc))
  after_load-Outcome f flags plain config (loaded cfg) accepted =
      after_cache_dir-Outcome f cfg _ flags plain config accepted refl _ refl

  written-Outcome : (e : Option GoError) → Outcome (written e)
  unfolding mounts_of
  written-Outcome none = inl (refl, inl refl)
  written-Outcome (some e) = inl (refl, inr (λ bad. cc))

  run_flags-Outcome : (f : Flags) → env.flags ≡ ok f → Outcome (run_flags env mount f)
  unfolding run_flags mounts_of
  run_flags-Outcome f flags = elim (Bool-cases f.version) [
    | inl asked ↦ rw asked (written-Outcome env.write_error)
    | inr plain ↦ elim (Bool-cases (is_empty f.config)) [
      | inl none_given ↦ rw (plain, none_given) (inl (refl, inr (λ bad. cc)))
      | inr given ↦
          rw (plain, given) (after_load-Outcome f flags plain (nonempty f.config given) _ refl)
    ]
  ]
    where
      nonempty : (t : Text) → is_empty t ≡ false → t ≢ []
      nonempty [] h = absurd (ground arith)
      nonempty (c ∷ t) h = λ bad. cc

  -- A run of the binary either mounts nothing, and then it has written the version or ends with an
  -- error; or it mounts exactly once, after the cache directory was seen to and the signals were
  -- claimed, with the config of the --config flag, which keeps the rules that the loader checks, with the
  -- ready-file of the flag or else of the environment, over a cache directory that is writable; and
  -- then its error is that of the mount.
  pub run_with-Mounts : MountsNothing (run_with env mount) ⊎ Mounts env mount (run_with env mount)
  unfolding run_with mounts_of
  run_with-Mounts = of_flags env.flags refl
    where
      of_flags : (r : Result Flags) → env.flags ≡ r → Outcome (after_parse env mount r)
      of_flags (err e) flags = inl (refl, inr (λ bad. cc))
      of_flags (ok f) flags = run_flags-Outcome f flags
