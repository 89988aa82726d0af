-- ===== src/Mounter/Bringup.antt =====
-- internal/mounter/realpoint.go, mountAndWaitReady and the constructors of the seam. What the seam
-- does to the outside is the sequence of its actions. Times are in milliseconds.
pub mod Steps
pub mod Seam
pub mod Scoped
use Prim.Native.String.{String}
use ocu_rclone_filestore.Base.{
  ℕ, Text, codes, Bool, Option, none, some, GoError, sentinel, wrap, str, Sentinel, Result, ok, err,
  List, [], ◌∷◌, ◌++◌, map, if◌then◌else◌,
}
use ocu_rclone_filestore.Ocufs.NewFs.{Built}
use ocu_rclone_filestore.Mounter.Specs.{MountSpec, OcufsConfigmap, build_ocufs_configmap}
use ocu_rclone_filestore.Mounter.Options.{VfsParsers, VfsOptions, build_vfs_options}
use ocu_rclone_filestore.Mounter.Scaffold.{Listing, ensure_mountpoint_shadows_no_content}
use ocu_rclone_filestore.Mounter.Direct.{MountOptions, build_mount_options}
use ocu_rclone_filestore.Mounter.Point.{
  PointAction, RealPoint, new_real_point, do_unmount, unmount_detach_grace,
}
use ocu_rclone_filestore.Mounter.Ready.{Poll, wait_ready}

-- What the outside answers while one spec is brought up.
pub record SeamEnv : Type 0 where
  -- fs.Find, and the backend's NewFs by name, root and config map
  pub find_error : Option GoError
  pub new_fs : Text → Text → OcufsConfigmap → Result Built
  pub parsers : VfsParsers
  pub vfs_defaults : VfsOptions
  pub mount_defaults : MountOptions
  -- the destination as the guard reads it
  pub listing : Result Listing
  -- MountPoint.Mount, and whether it has made a VFS
  pub start_error : Option GoError
  pub has_vfs : Bool
  -- the poll: whether the platform can check, its rounds, and the clock at its start
  pub can_check : Bool
  pub polls : ℕ → Poll
  pub start : ℕ
  -- how the detach ends that follows a failed poll
  pub detached : Option (Option GoError)

-- realPointMounter, over the type of the mount functions.
pub record RealPointMounter (F : Type 0) : Type 0 where
  pub mount_fn : F
  pub ready_timeout : ℕ

abbrev pub wait_mount_ready_timeout : ℕ
wait_mount_ready_timeout = 30000

-- A nil function is `none`.
unfoldable pub new_real_point_mounter : {F : Type 0} → Option F → Result (RealPointMounter F)
new_real_point_mounter none = err (sentinel Sentinel.mount_method_unavailable)
new_real_point_mounter (some f) =
    ok (record { mount_fn = f; ready_timeout = wait_mount_ready_timeout })

-- defaultRealSeam, on a platform that the mount method supports and on another.
unfoldable pub default_real_seam : {F : Type 0} → Bool → F → Result (RealPointMounter F)
unfolding new_real_point_mounter
default_real_seam supported direct_mount_fn =
    if supported
    then new_real_point_mounter (some direct_mount_fn)
    else err (sentinel Sentinel.mount_method_unavailable)

-- What a mount is started with.
pub record Prepared : Type 0 where
  pub configmap : OcufsConfigmap
  pub built : Built
  pub vfs_options : VfsOptions
  pub mount_options : MountOptions

abbrev pub at_mount : String → Text → GoError → GoError
at_mount format dest e = wrap format (str dest ∷ []) e

abbrev pub after_guard : MountSpec → Prepared → Option GoError → Result Prepared
after_guard spec p none = ok p
after_guard spec p (some e) = err (at_mount "mount %q: %w" spec.mount.destination e)

abbrev pub after_vfs :
    SeamEnv → MountSpec → OcufsConfigmap → Built → Result VfsOptions → Result Prepared
after_vfs env spec cm built (err e) =
    err (at_mount "mount %q: build VFS options: %w" spec.mount.destination e)
after_vfs env spec cm built (ok vfs) =
    after_guard spec
      (record {
        configmap = cm;
        built = built;
        vfs_options = vfs;
        mount_options = build_mount_options env.mount_defaults;
      })
      (ensure_mountpoint_shadows_no_content spec.mount.destination env.listing)

abbrev pub after_fs : SeamEnv → MountSpec → OcufsConfigmap → Result Built → Result Prepared
after_fs env spec cm (err e) =
    err (at_mount "mount %q: build ocufs Fs: %w" spec.mount.destination e)
after_fs env spec cm (ok built) =
    after_vfs env spec cm built
      (build_vfs_options env.parsers env.vfs_defaults spec.mount spec.read_only)

abbrev pub after_find : SeamEnv → MountSpec → OcufsConfigmap → Option GoError → Result Prepared
after_find env spec cm (some e) =
    err (at_mount "mount %q: ocufs backend not registered: %w" spec.mount.destination e)
after_find env spec cm none =
    after_fs env spec cm (env.new_fs (codes "ocufs-" ++ spec.mount.destination) [] cm)

abbrev pub after_configmap : SeamEnv → MountSpec → Result OcufsConfigmap → Result Prepared
after_configmap env spec (err e) = err e
after_configmap env spec (ok cm) = after_find env spec cm env.find_error

-- The steps before the mount, in their order.
unfoldable pub prepare : SeamEnv → MountSpec → Result Prepared
unfolding build_ocufs_configmap
prepare env spec =
    after_configmap env spec
      (build_ocufs_configmap spec.mount spec.read_only spec.service_url spec.ca_cert_pem)

pub data BringupAction : Type 0 where
  -- a MountPoint with these options whose Mount comes up, and one whose Mount fails
  started failed_start : Prepared → BringupAction
  on_point : PointAction → BringupAction

-- The actions and the result; `none` means that the fuel of the poll ran out.
abbrev pub Attempt : Type 0
Attempt = Option (List BringupAction × Result RealPoint)

-- A poll that fails is followed by the unmount of a point of its own.
abbrev pub after_poll : SeamEnv → Text → Prepared → Option (Option GoError) → Attempt
after_poll env dest p none = none
after_poll env dest p (some none) = some (started p ∷ [], ok (new_real_point dest env.has_vfs))
after_poll env dest p (some (some e)) =
    some (
      started p ∷ map on_point (do_unmount env.detached (new_real_point dest env.has_vfs)).0,
      err e,
    )

abbrev pub after_start : SeamEnv → ℕ → Text → Prepared → Option GoError → Attempt
after_start env ready_timeout dest p (some e) =
    some (failed_start p ∷ [], err (at_mount "mount %q: start mount: %w" dest e))
after_start env ready_timeout dest p none =
    after_poll env dest p (wait_ready env.can_check env.polls env.start ready_timeout dest)

abbrev pub after_prepare : SeamEnv → ℕ → Text → Result Prepared → Attempt
after_prepare env ready_timeout dest (err e) = some ([], err e)
after_prepare env ready_timeout dest (ok p) = after_start env ready_timeout dest p env.start_error

unfoldable pub mount_and_wait_ready :
    {F : Type 0} → SeamEnv → RealPointMounter F → MountSpec → Attempt
unfolding prepare wait_ready do_unmount
mount_and_wait_ready env r spec =
    after_prepare env r.ready_timeout spec.mount.destination (prepare env spec)
