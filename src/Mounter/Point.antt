-- ===== src/Mounter/Point.antt =====
-- internal/mounter/realpoint.go and teardown.go: a live point, its detach, and the unmount of the
-- seam. What a point does to the VFS and the kernel is the sequence of its actions. Times are in
-- milliseconds.
pub mod Once
pub mod Callers
use ocu_rclone_filestore.Base.{
  ℕ, Text, Bool, true, false, Option, none, some, GoError, sentinel, message, is, Sentinel, List,
  [], ◌∷◌, ◌++◌, ◌==◌, if◌then◌else◌,
}

pub data PointAction : Type 0 where
  -- VFS.WaitForWriters with its timeout, and VFS.FlushDirCache
  wait_for_writers : ℕ → PointAction
  flush_dir_cache : PointAction
  -- MountPoint.Unmount, with the time that the point waits for it
  detach : ℕ → PointAction

abbrev pub writeback_drain_timeout : ℕ
writeback_drain_timeout = 120000

abbrev pub unmount_detach_grace : ℕ
unmount_detach_grace = 3000

-- `done` is what sync.Once keeps; `detach_grace` is 0 for the default.
pub record RealPoint : Type 0 where
  pub dest : Text
  pub has_vfs : Bool
  pub done : Bool
  pub unmount_err : Option GoError
  pub detach_grace : ℕ

-- A point as mountAndWaitReady makes it.
abbrev pub new_real_point : Text → Bool → RealPoint
new_real_point dest has_vfs = record {
  dest = dest;
  has_vfs = has_vfs;
  done = false;
  unmount_err = none;
  detach_grace = 0;
}

abbrev pub grace_of : RealPoint → ℕ
grace_of p = if p.detach_grace == 0 then unmount_detach_grace else p.detach_grace

-- What the select gets: the result of MountPoint.Unmount, or `none` when the grace is over first.
abbrev pub detach_result : Option (Option GoError) → Option GoError
detach_result none = some (sentinel Sentinel.detach_did_not_return)
detach_result (some e) = e

abbrev pub drain_actions : Bool → List PointAction
drain_actions has_vfs =
    if has_vfs then wait_for_writers writeback_drain_timeout ∷ flush_dir_cache ∷ [] else []

-- The actions, the point after them and its result; `detached` is how the detach would end.
unfoldable pub do_unmount :
    Option (Option GoError) → RealPoint → List PointAction × RealPoint × Option GoError
do_unmount detached p = if p.done then ([], p, p.unmount_err) else (
  drain_actions p.has_vfs ++ detach (grace_of p) ∷ [],
  record p { done = true; unmount_err = detach_result detached },
  detach_result detached,
)

-- A point of the seam, or one of another type.
pub data Point : Type 0 where
  real : RealPoint → Point
  foreign : Point

-- A detach that did not return is no error of the teardown.
abbrev pub unmount_verdict : Option GoError → Option GoError
unmount_verdict none = none
unmount_verdict (some e) = if is e Sentinel.detach_did_not_return then none else some e

unfoldable pub unmount : Option (Option GoError) → Point → List PointAction × Point × Option GoError
unfolding do_unmount
unmount detached foreign = ([], foreign, some (message "unmount: unexpected point type %T" []))
unmount detached (real p) =
    let (actions, p', e) = do_unmount detached p in (actions, real p', unmount_verdict e)

-- Callers of doUnmount one after another, which is how sync.Once lets concurrent ones through; each
-- has its own detach that it would get. The actions of all, and the result of each.
unfoldable pub do_unmounts :
    List (Option (Option GoError)) → RealPoint → List PointAction × List (Option GoError)
do_unmounts [] p = ([], [])
do_unmounts (d ∷ ds) p =
    let (actions, p', e) = do_unmount d p in
    let (later, results) = do_unmounts ds p' in (actions ++ later, e ∷ results)
