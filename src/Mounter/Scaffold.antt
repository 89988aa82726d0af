-- ===== src/Mounter/Scaffold.antt =====
-- internal/mounter/scaffoldguard.go: the walk over a mount destination before a mount shadows it.
-- A directory is what os.ReadDir answers for it and, in turn, for the directories below it.
pub mod Shadow
use ocu_rclone_filestore.Base.{
  ℕ, ◌+◌, Text, Bool, ◌&&◌, Option, none, some, GoError, message, wrap, str, num, is, Sentinel,
  Result, ok, err, [], ◌∷◌, ltb, if◌then◌else◌, text_eq,
}
use ocu_rclone_filestore.Base.Paths.{join_path}

-- The entries of a directory that could be read, in order: each has its name, and is a directory
-- that can be read, one that cannot, or no directory (a file, a symbolic link).
pub data Listing : Type 0 where
  done : Listing
  other : Text → Listing → Listing
  sub : Text → Listing → Listing → Listing
  unreadable : Text → GoError → Listing → Listing

abbrev pub scaffold_walk_entry_ceiling : ℕ
scaffold_walk_entry_ceiling = 4096

unfoldable pub classify_dest_read_error : Text → Text → GoError → GoError
unfolding text_eq
classify_dest_read_error dest dir e =
    if text_eq dir dest && is e Sentinel.not_exist
    then message "mount destination %q does not exist" (str dest ∷ [])
    else if is e Sentinel.not_connected
    then wrap
        "a stale disconnected mount is still attached at %q (a previous mount instance exited without a clean detach); lazy-unmount it (umount -l) and restart the mount: %w"
        (str dir ∷ []) e
    else wrap "inspecting mount destination %q: %w" (str dest ∷ []) e

-- An entry is counted, and the walk goes on only below the ceiling.
abbrev pub unless_full : Text → ℕ → ℕ × Option GoError → ℕ × Option GoError
unless_full dir seen rest =
    if ltb scaffold_walk_entry_ceiling seen
    then (
      seen,
      some (
          message
            "refusing to shadow existing content at %q: more than %d entries under the mount destination; empty the destination and restart the mount"
            (str dir ∷ num scaffold_walk_entry_ceiling ∷ [])),
    )
    else rest

-- The rest of a walk, which an error ends; the count goes on through the closure.
abbrev pub and_then : ℕ × Option GoError → (ℕ → ℕ × Option GoError) → ℕ × Option GoError
and_then (seen, some e) rest = (seen, some e)
and_then (seen, none) rest = rest seen

-- The closure `walk` over the entries of `dir`, from the count so far.
unfoldable pub walk : Text → Text → Listing → ℕ → ℕ × Option GoError
unfolding join_path classify_dest_read_error
walk dest dir done seen = (seen, none)
walk dest dir (other name rest) seen = unless_full dir (seen + 1) (
  seen + 1,
  some (
      message
        "refusing to shadow existing content at %q: the mount destination must hold only empty directories (the baked scaffold); remove the entry and restart the mount"
        (str (join_path dir name) ∷ [])),
)
walk dest dir (sub name inside rest) seen =
    unless_full dir (seen + 1)
      (and_then (walk dest (join_path dir name) inside (seen + 1)) (λ n. walk dest dir rest n))
walk dest dir (unreadable name e rest) seen =
    unless_full dir (seen + 1)
      (seen + 1, some (classify_dest_read_error dest (join_path dir name) e))

unfoldable pub ensure_mountpoint_shadows_no_content : Text → Result Listing → Option GoError
unfolding walk classify_dest_read_error
ensure_mountpoint_shadows_no_content dest (err e) = some (classify_dest_read_error dest dest e)
ensure_mountpoint_shadows_no_content dest (ok entries) = (walk dest dest entries 0).1
