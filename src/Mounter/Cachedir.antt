-- ===== src/Mounter/Cachedir.antt =====
-- internal/mounter/cachedir.go: the directory of the VFS disk cache. What the functions do to the
-- file system and to rclone's global is the sequence of their actions.
pub mod Writable
use ocu_rclone_filestore.Base.{
  Text, codes, Bool, true, false, Option, none, some, GoError, message, wrap, str, List, [], ◌∷◌,
  ◌++◌, is_empty, text_eq, if◌then◌else◌,
}
use ocu_rclone_filestore.Base.Paths.{join_path}
use ocu_rclone_filestore.Posture.{cache_tmpfs}

-- The answers of os.MkdirAll, os.CreateTemp and config.SetCacheDir for a directory, and os.TempDir.
pub record CacheEnv : Type 0 where
  pub mkdir_error : Text → Option GoError
  pub create_error : Text → Option GoError
  pub set_error : Text → Option GoError
  pub temp_dir : Text

pub data CacheAction : Type 0 where
  made create_probe remove_probe set_cache_dir : Text → CacheAction

abbrev pub probe_dir : Text → Option GoError → List CacheAction × Bool
probe_dir dir (some e) = (made dir ∷ [], false)
probe_dir dir none = (made dir ∷ create_probe dir ∷ remove_probe dir ∷ [], true)

abbrev pub mkdir_result : CacheEnv → Text → Option GoError → List CacheAction × Bool
mkdir_result env dir (some e) = ([], false)
mkdir_result env dir none = probe_dir dir (env.create_error dir)

unfoldable pub dir_is_writable : CacheEnv → Text → List CacheAction × Bool
dir_is_writable env dir =
    if is_empty dir then ([], false) else mkdir_result env dir (env.mkdir_error dir)

unfoldable pub candidates : CacheEnv → List Text
unfolding join_path
candidates env =
    join_path cache_tmpfs (codes "rclone") ∷ join_path env.temp_dir (codes "rclone") ∷ []

abbrev pub redirect : Text → Option GoError → List CacheAction × Option GoError
redirect dir (some e) = ([], some (wrap "redirect VFS cache dir to %q: %w" (str dir ∷ []) e))
redirect dir none = (set_cache_dir dir ∷ [], none)

abbrev pub behind_actions :
    {A : Type 0} → List CacheAction → List CacheAction × A → List CacheAction × A
behind_actions before (actions, a) = (before ++ actions, a)

-- The loop over the candidates.
unfoldable pub try_candidates : CacheEnv → Text → List Text → List CacheAction × Option GoError
unfolding dir_is_writable text_eq
try_candidates env current [] = (
  [],
  some (
      message
        "no writable VFS cache directory: default %q and fallbacks are all read-only (SEC-46 cache would silently disable)"
        (str current ∷ [])),
)
try_candidates env current (dir ∷ dirs) =
    let rest = try_candidates env current dirs in
    let (probed, writable) = dir_is_writable env dir in
    if text_eq dir current
    then rest
    else if writable
    then behind_actions probed (redirect dir (env.set_error dir))
    else behind_actions probed rest

-- EnsureWritableCacheDir, from the current directory.
unfoldable pub ensure_writable_cache_dir : CacheEnv → Text → List CacheAction × Option GoError
unfolding dir_is_writable try_candidates candidates
ensure_writable_cache_dir env current =
    let (probed, writable) = dir_is_writable env current in
    if writable
    then (probed, none)
    else behind_actions probed (try_candidates env current (candidates env))

-- rclone's global after the actions, from before them.
unfoldable pub cache_dir_after : Text → List CacheAction → Text
cache_dir_after dir [] = dir
cache_dir_after dir (made d ∷ actions) = cache_dir_after dir actions
cache_dir_after dir (create_probe d ∷ actions) = cache_dir_after dir actions
cache_dir_after dir (remove_probe d ∷ actions) = cache_dir_after dir actions
cache_dir_after dir (set_cache_dir d ∷ actions) = cache_dir_after d actions
