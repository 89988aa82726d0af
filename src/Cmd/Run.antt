-- ===== src/Cmd/Run.antt =====
-- cmd/ocu-rclone-filestore/run.go and main.go: the mount binary. What a run does, in order, is the
-- sequence of its steps. The parsed flags, the environment variable and the injected mount function
-- are parameters.
pub mod Started
use ocu_rclone_filestore.Base.{
  ℕ, Text, Bool, true, false, Option, none, some, GoError, message, wrap, Result, ok, err, List, [],
  ◌∷◌, ◌++◌, is_empty, if◌then◌else◌,
}
use ocu_rclone_filestore.Mountcfg.Validate.{Config}
use ocu_rclone_filestore.Mountcfg.Load.{LoadError, Loader, Loaded, loaded, refused, load}
use ocu_rclone_filestore.Mounter.Cachedir.{CacheEnv, CacheAction, ensure_writable_cache_dir}
use ocu_rclone_filestore.Mounter.Bringup.{RealPointMounter}
use ocu_rclone_filestore.Mounter.Orchestrator.{Env, Run}
use ocu_rclone_filestore.Mounter.Mount.{new, with_readiness, with_signals, mount}

pub record Flags : Type 0 where
  pub config : Text
  pub version : Bool
  pub ready_file : Text

pub data Step : Type 0 where
  wrote_version : Step
  on_cache_dir : CacheAction → Step
  -- atexit.IgnoreSignals, signal.Notify, the mount function with its config and ready-file path, and
  -- the deferred signal.Stop
  ignored_signals notified stopped : Step
  mounted : Config → Text → Step

-- The errors that runWith returns.
pub data RunError : Type 0 where
  parse_flags write_version ensure_cache_dir mount_error : GoError → RunError
  missing_config : RunError
  load_config : LoadError → RunError

-- What the outside answers.
pub record RunEnv : Type 0 where
  -- FlagSet.Parse of the arguments
  pub flags : Result Flags
  pub write_error : Option GoError
  -- os.Getenv("OCU_READY_FILE")
  pub ready_file_env : Text
  pub loader : Loader
  pub cache : CacheEnv
  -- rclone's cache directory before
  pub cache_dir : Text

unfoldable pub resolve_flag_or_env : Text → Text → Text
resolve_flag_or_env flag_val env_val = if is_empty flag_val then env_val else flag_val

abbrev pub cache_steps : List CacheAction → List Step
cache_steps [] = []
cache_steps (a ∷ actions) = on_cache_dir a ∷ cache_steps actions

abbrev pub of_mount : Option GoError → Option RunError
of_mount none = none
of_mount (some e) = some (mount_error e)

abbrev pub after_cache_dir :
    (Config → Text → Option GoError)
    → Config
    → Text
    → List CacheAction × Option GoError
    → List Step × Option RunError
after_cache_dir mount cfg path (actions, some e) =
    (cache_steps actions, some (ensure_cache_dir (wrap "ensure VFS cache dir: %w" [] e)))
after_cache_dir mount cfg path (actions, none) = (
  cache_steps actions ++ ignored_signals ∷ notified ∷ mounted cfg path ∷ stopped ∷ [],
  of_mount (mount cfg path),
)

abbrev pub after_load :
    RunEnv → (Config → Text → Option GoError) → Text → Loaded → List Step × Option RunError
after_load env mount path (refused e) = ([], some (load_config e))
after_load env mount path (loaded cfg) =
    after_cache_dir mount cfg path (ensure_writable_cache_dir env.cache env.cache_dir)

abbrev pub written : Option GoError → List Step × Option RunError
written none = (wrote_version ∷ [], none)
written (some e) = ([], some (write_version (wrap "write version: %w" [] e)))

unfoldable pub run_flags :
    RunEnv → (Config → Text → Option GoError) → Flags → List Step × Option RunError
unfolding load ensure_writable_cache_dir resolve_flag_or_env
run_flags env mount f =
    if f.version
    then written env.write_error
    else if is_empty f.config
    then ([], some missing_config)
    else after_load env mount (resolve_flag_or_env f.ready_file env.ready_file_env)
        (load env.loader f.config)

abbrev pub after_parse :
    RunEnv → (Config → Text → Option GoError) → Result Flags → List Step × Option RunError
after_parse env mount (err e) = ([], some (parse_flags (wrap "parse flags: %w" [] e)))
after_parse env mount (ok f) = run_flags env mount f

unfoldable pub run_with : RunEnv → (Config → Text → Option GoError) → List Step × Option RunError
unfolding run_flags
run_with env mount = after_parse env mount env.flags

-- productionMount: what the mounter does for a config, a ready-file path and a signal channel.
unfoldable pub production_mount :
    {F C : Type 0} → Bool → F → (RealPointMounter F → Env) → C → Config → Text → Run
unfolding new with_readiness with_signals mount
production_mount supported direct_mount_fn outside sig cfg path =
    mount outside (new supported direct_mount_fn (with_readiness path ∷ with_signals sig ∷ [])) cfg

-- main: the exit code.
unfoldable pub exit_code : List Step × Option RunError → ℕ
exit_code (steps, none) = 0
exit_code (steps, some e) = 1
