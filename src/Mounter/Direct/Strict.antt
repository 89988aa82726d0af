-- ===== src/Mounter/Direct/Strict.antt =====
-- The options of the direct mount in internal/mounter/directmount.go.
use ocu_rclone_filestore.Base.{
  Text, Bool, true, false, ◌≡◌, ◌↔◌, refl, arith, GoError, Result, ok, err, List, [], ◌∷◌, ◌++◌,
  if◌then◌else◌, ◌+◌, codes, sym, subst, ◌∙◌,
}
use ocu_rclone_filestore.Mounter.Direct.{
  MountOptions, FuseMountOptions, linux, build_fuse_mount_options, apply_read_only, refuse_flags,
  base_options, with_strings,
}

-- Options that the kernel can parse without a userspace helper.
abbrev pub IsSupported : MountOptions → Type 0
IsSupported opt = (opt.allow_root ≡ false) × (opt.extra_flags ≡ [])

-- A mount that the kernel performs itself, with its posture in the flags and not in a string: MS_RDONLY
-- is 1, MS_NOSUID 2, and MS_NODEV 4.
abbrev pub IsStrict : Bool → MountOptions → FuseMountOptions → Type 0
IsStrict read_only opt mo =
    (mo.direct_mount_strict ≡ true)
    × (mo.disable_xattrs ≡ false)
    × (mo.allow_other ≡ opt.allow_other)
    × (mo.direct_mount_flags ≡ (if read_only then 1 + 2 + 4 else 0))
    × (mo.options
        ≡ (if opt.default_permissions then codes "default_permissions" ∷ [] else [])
          ++ opt.extra_options)

with_strings-IsStrict :
    (read_only : Bool) (opt : MountOptions)
    → IsStrict read_only opt
        (with_strings linux opt (apply_read_only linux (base_options opt) read_only))
unfolding apply_read_only
with_strings-IsStrict true opt = (refl, refl, refl, refl, ground arith)
with_strings-IsStrict false opt = (refl, refl, refl, refl, ground arith)

guards_ok :
    (root : Bool) (flags : List Text) (e : GoError) (rest : Result FuseMountOptions)
    → (mo : FuseMountOptions) → (if root then err e else refuse_flags flags rest) ≡ ok mo
    → (root ≡ false) × (flags ≡ [])
guards_ok true flags e rest mo h = absurd (ground arith)
guards_ok false [] e rest mo h = (refl, refl)
guards_ok false (x ∷ xs) e rest mo h = absurd (ground arith)

pub built_options :
    (read_only : Bool) (opt : MountOptions) (mo : FuseMountOptions)
    → build_fuse_mount_options linux read_only opt ≡ ok mo
    → IsSupported opt
unfolding build_fuse_mount_options
built_options read_only opt mo h = guards_ok opt.allow_root opt.extra_flags _ _ mo h

pub build_options :
    (read_only : Bool) (opt : MountOptions)
    → IsSupported opt
    → build_fuse_mount_options linux read_only opt
      ≡ ok (with_strings linux opt (apply_read_only linux (base_options opt) read_only))
unfolding build_fuse_mount_options
build_options read_only opt (no_root, no_flags) = rw (no_root, no_flags) refl

-- On Linux the options are built exactly when neither allow-root nor an extra flag is asked for; and
-- then the mount is strict and serves the extended attributes, carries a read-only posture in the
-- mount flags alone, and its option strings are default_permissions, if set, and the extra options.
pub build_fuse_mount_options-IsStrict :
    (read_only : Bool) (opt : MountOptions)
    → (((mo : FuseMountOptions) × (build_fuse_mount_options linux read_only opt ≡ ok mo))
        ↔ IsSupported opt)
      × ((mo : FuseMountOptions)
          → build_fuse_mount_options linux read_only opt ≡ ok mo
          → IsStrict read_only opt mo)
build_fuse_mount_options-IsStrict read_only opt = (
  (
    λ (mo, h). built_options read_only opt mo h,
    λ clear. (
      with_strings linux opt (apply_read_only linux (base_options opt) read_only),
      build_options read_only opt clear,
    ),
  ),
  λ mo h.
      let same : with_strings linux opt (apply_read_only linux (base_options opt) read_only) ≡ mo =
        ok-injective (sym (build_options read_only opt (built_options read_only opt mo h)) ∙ h) in
      subst (IsStrict read_only opt) same (with_strings-IsStrict read_only opt),
)
  where
    ok-injective : {x y : FuseMountOptions} → ok x ≡ ok y → x ≡ y
    ok-injective e = cc
