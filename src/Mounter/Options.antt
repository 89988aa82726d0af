-- ===== src/Mounter/Options.antt =====
-- internal/mounter/options.go, buildVFSOptions: the VFS options of a mount. rclone's parsers of the
-- option texts are parameters; the options that the function leaves at their defaults are not kept.
pub mod Accepted
use Prim.Native.String.{String}
use ocu_rclone_filestore.Base.{
  ℕ, Text, Bool, true, false, not, ◌&&◌, Option, none, some, GoError, message, wrap, str, Result,
  ok, err, [], ◌∷◌, ◌++◌, is_empty, all_of, if◌then◌else◌,
}
use ocu_rclone_filestore.Base.Int.{ℤ, pos, scale, wrap64, is_positive}
use ocu_rclone_filestore.Mountcfg.Patterns.{is_digit}
use ocu_rclone_filestore.Mountcfg.Validate.{Mount}

-- CacheMode.Set, SizeSuffix.Set, Duration.Set and FileMode.Set, with the value that they store.
pub record VfsParsers : Type 0 where
  pub cache_mode : Text → Result ℕ
  pub size_suffix : Text → Result ℤ
  pub duration : Text → Result ℤ
  pub file_mode : Text → Result ℕ

-- Durations are in nanoseconds.
pub record VfsOptions : Type 0 where
  pub cache_mode : ℕ
  pub cache_max_size : ℤ
  pub dir_cache_time : ℤ
  pub write_back : ℤ
  pub dir_perms : ℕ
  pub file_perms : ℕ
  pub umask : ℕ
  pub read_only : Bool

unfoldable pub is_all_digits : Text → Bool
unfolding all_of
is_all_digits s = not (is_empty s) && all_of is_digit s

-- The size text that is parsed: a text without a unit gets the one for bytes.
unfoldable pub raw_size : Text → Text
unfolding is_all_digits
raw_size s = if is_all_digits s then s ++ b'B' ∷ [] else s

-- time.Duration(seconds) * time.Second, on int64.
unfoldable pub dir_cache_time : Option ℤ → ℤ
dir_cache_time none = pos 0
dir_cache_time (some seconds) = wrap64 (scale seconds 1000000000)

-- An option that is parsed, and the rest of the function; a failure names the option and its text.
abbrev pub parsed : {A B : Type 0} → String → Text → Result A → (A → Result B) → Result B
parsed format text (ok a) rest = rest a
parsed format text (err e) rest = err (wrap format (str text ∷ []) e)

abbrev pub checked_positive : Text → ℤ → Result ℤ
checked_positive text wb =
    if is_positive wb
    then ok wb
    else err (message "vfs_write_back %q: must be a positive duration" (str text ∷ []))

-- An empty text leaves the default.
unfoldable pub write_back_of : VfsParsers → ℤ → Text → Result ℤ
write_back_of p default text =
    if is_empty text
    then ok default
    else parsed "vfs_write_back %q: %w" text (p.duration text) (checked_positive text)

abbrev pub on_ok : {A B : Type 0} → Result A → (A → Result B) → Result B
on_ok (ok a) rest = rest a
on_ok (err e) rest = err e

unfoldable pub build_vfs_options : VfsParsers → VfsOptions → Mount → Bool → Result VfsOptions
unfolding raw_size dir_cache_time write_back_of
build_vfs_options p defaults m read_only =
    parsed "vfs_cache_mode %q: %w" m.vfs_cache_mode (p.cache_mode m.vfs_cache_mode) (λ mode.
      parsed "vfs_cache_max_size %q: %w" m.vfs_cache_max_size
        (p.size_suffix (raw_size m.vfs_cache_max_size))
        (λ size. on_ok (write_back_of p defaults.write_back m.vfs_write_back) (λ wb.
          parsed "dir_perms %q: %w" m.dir_perms (p.file_mode m.dir_perms) (λ dir_perms.
            parsed "file_perms %q: %w" m.file_perms (p.file_mode m.file_perms) (λ file_perms.
              ok (record {
                cache_mode = mode;
                cache_max_size = size;
                dir_cache_time = dir_cache_time m.cache_duration_s;
                write_back = wb;
                dir_perms = dir_perms;
                file_perms = file_perms;
                umask = 0;
                read_only = read_only;
              }))))))
