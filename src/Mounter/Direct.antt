-- ===== src/Mounter/Direct.antt =====
-- internal/mounter/directmount.go and its read-only files, xattr_enotsup.go, and buildMountOptions of
-- options.go: the FUSE mount. What it does to the server is the sequence of its actions, given what
-- the outside answers.
pub mod Strict
pub mod Served
use ocu_rclone_filestore.Base.{
  ℕ, Text, codes, Bool, true, false, not, Option, none, some, GoError, message, wrap, str, Result,
  ok, err, List, [], ◌∷◌, ◌++◌, if◌then◌else◌,
}
use ocu_rclone_filestore.Base.Int.{ℤ}

-- The fields of mountlib.Options that the frontend reads.
pub record MountOptions : Type 0 where
  pub allow_other : Bool
  pub allow_root : Bool
  pub allow_non_empty : Bool
  pub default_permissions : Bool
  pub writeback_cache : Bool
  pub debug_fuse : Bool
  pub extra_flags : List Text
  pub extra_options : List Text
  pub device_name : Text
  pub volume_name : Text
  pub max_read_ahead : ℤ
  pub attr_timeout : ℤ

-- buildMountOptions, from the registered defaults.
unfoldable pub build_mount_options : MountOptions → MountOptions
build_mount_options defaults = record defaults { allow_other = true; allow_non_empty = true }

-- The fields of fuse.MountOptions that are set, and DisableXAttrs, which is left unset.
pub record FuseMountOptions : Type 0 where
  pub allow_other : Bool
  pub fs_name : Text
  pub name : Text
  pub debug : Bool
  pub max_read_ahead : ℤ
  pub max_write : ℕ
  pub disable_read_dir_plus : Bool
  pub disable_xattrs : Bool
  pub direct_mount_strict : Bool
  pub direct_mount_flags : ℕ
  pub options : List Text

pub data Platform : Type 0 where
  linux darwin : Platform

-- MS_NOSUID | MS_NODEV | MS_RDONLY
abbrev pub read_only_flags : ℕ
read_only_flags = 7

-- applyReadOnly: the options after it, and the option strings that it returns.
unfoldable pub apply_read_only : Platform → FuseMountOptions → Bool → FuseMountOptions × List Text
apply_read_only linux mo read_only =
    if read_only then (record mo { direct_mount_flags = read_only_flags }, []) else (mo, [])
apply_read_only darwin mo read_only = if read_only then (mo, codes "ro" ∷ []) else (mo, [])

abbrev pub volume_options : Platform → Text → List Text
volume_options linux volume_name = []
volume_options darwin volume_name =
    (codes "volname=" ++ volume_name) ∷ codes "noapplexattr" ∷ codes "noappledouble" ∷ []

abbrev pub base_options : MountOptions → FuseMountOptions
base_options opt = record {
  allow_other = opt.allow_other;
  fs_name = opt.device_name;
  name = codes "rclone";
  debug = opt.debug_fuse;
  max_read_ahead = opt.max_read_ahead;
  max_write = 1048576;
  disable_read_dir_plus = true;
  disable_xattrs = false;
  direct_mount_strict = true;
  direct_mount_flags = 0;
  options = [];
}

abbrev pub unsupported : GoError
unsupported = message "unsupported under direct mount" []

abbrev pub permission_options : Bool → List Text
permission_options default_permissions =
    if default_permissions then codes "default_permissions" ∷ [] else []

-- The options with their strings; the write-back cache is only logged.
abbrev pub with_strings : Platform → MountOptions → FuseMountOptions × List Text → FuseMountOptions
with_strings platform opt (mo, read_only_strings) = record mo {
  options =
      permission_options opt.default_permissions
      ++ read_only_strings
      ++ volume_options platform opt.volume_name
      ++ opt.extra_options;
}

-- The error names the flags, of which the first stands here for all.
abbrev pub refuse_flags : List Text → Result FuseMountOptions → Result FuseMountOptions
refuse_flags [] rest = rest
refuse_flags (x ∷ xs) rest = err (
    wrap
      "extra mount flags %v: helper-era flags have no kernel meaning (use kernel-recognized ExtraOptions instead): %w"
      (str x ∷ []) unsupported)

unfoldable pub build_fuse_mount_options : Platform → Bool → MountOptions → Result FuseMountOptions
unfolding apply_read_only
build_fuse_mount_options platform read_only opt =
    if opt.allow_root
    then err (
        wrap
          "allow-root: only a fusermount-style helper can enforce it and the kernel rejects the option string: %w"
          [] unsupported)
    else refuse_flags opt.extra_flags
        (ok (with_strings platform opt (apply_read_only platform (base_options opt) read_only)))

pub record NodeOptions : Type 0 where
  pub mount_options : FuseMountOptions
  pub entry_timeout : ℤ
  pub attr_timeout : ℤ
  pub uid : ℕ
  pub gid : ℕ

unfoldable pub build_node_fs_options : ℕ → ℕ → MountOptions → FuseMountOptions → NodeOptions
build_node_fs_options uid gid opt mo = record {
  mount_options = mo;
  entry_timeout = opt.attr_timeout;
  attr_timeout = opt.attr_timeout;
  uid = uid;
  gid = gid;
}

-- A fuse.Status.
pub data Status : Type 0 where
  enosys enotsup : Status
  other : ℕ → Status

unfoldable pub enosys_to_enotsup : Status → Status
enosys_to_enotsup enosys = enotsup
enosys_to_enotsup enotsup = enotsup
enosys_to_enotsup (other s) = other s

-- The extended-attribute operations of a fuse.RawFileSystem, each for its request; the first two
-- answer a size too.
pub record XattrOps (Req : Type 0) : Type 0 where
  pub get_xattr : Req → ℕ × Status
  pub list_xattr : Req → ℕ × Status
  pub set_xattr : Req → Status
  pub remove_xattr : Req → Status

abbrev pub sized : ℕ × Status → ℕ × Status
sized (n, s) = (n, enosys_to_enotsup s)

-- newXattrENOTSUPFileSystem
unfoldable pub wrap_xattrs : {Req : Type 0} → XattrOps Req → XattrOps Req
unfolding enosys_to_enotsup
wrap_xattrs inner = record {
  get_xattr = λ req. sized (inner.get_xattr req);
  list_xattr = λ req. sized (inner.list_xattr req);
  set_xattr = λ req. enosys_to_enotsup (inner.set_xattr req);
  remove_xattr = λ req. enosys_to_enotsup (inner.remove_xattr req);
}

-- fuse.NewServer with its options, the serve loop in the background, and the two halves of the
-- unmount closure.
pub data FuseAction : Type 0 where
  new_server : NodeOptions → FuseAction
  serve shutdown_vfs unmount_kernel : FuseAction

pub record DirectEnv : Type 0 where
  pub overlap_error : Option GoError
  pub non_empty_error : Option GoError
  pub root_error : Option GoError
  pub server_error : Option GoError
  pub wait_error : Option GoError

-- The unmount closure of serveFuse.
abbrev pub umount : List FuseAction
umount = shutdown_vfs ∷ unmount_kernel ∷ []

-- From the assembled options on.
abbrev pub serve_options : DirectEnv → Text → NodeOptions → List FuseAction × Option GoError
serve_options env mountpoint node = elim env.server_error [
  | some e ↦ ([], some (wrap "direct mount %q: %w" (str mountpoint ∷ []) e))
  | none ↦ elim env.wait_error [
    | some e ↦ (
      new_server node ∷ serve ∷ umount,
      some (wrap "direct mount %q: wait for mount: %w" (str mountpoint ∷ []) e),
    )
    | none ↦ (new_server node ∷ serve ∷ [], none)
  ]
]

abbrev pub assemble :
    DirectEnv
    → Text
    → ℕ
    → ℕ
    → MountOptions
    → Result FuseMountOptions
    → List FuseAction × Option GoError
assemble env mountpoint uid gid opt (err e) =
    ([], some (wrap "direct mount %q: %w" (str mountpoint ∷ []) e))
assemble env mountpoint uid gid opt (ok mo) =
    serve_options env mountpoint (build_node_fs_options uid gid opt mo)

abbrev pub unless_error :
    Option GoError → List FuseAction × Option GoError → List FuseAction × Option GoError
unless_error (some e) rest = ([], some e)
unless_error none rest = rest

unfoldable pub direct_mount :
    DirectEnv → Platform → Text → Bool → ℕ → ℕ → MountOptions → List FuseAction × Option GoError
unfolding build_fuse_mount_options build_node_fs_options
direct_mount env platform mountpoint read_only uid gid opt = unless_error env.overlap_error (
    unless_error env.non_empty_error (
      unless_error env.root_error
        (assemble env mountpoint uid gid opt (build_fuse_mount_options platform read_only opt))))
