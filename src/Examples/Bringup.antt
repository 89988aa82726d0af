-- ===== src/Examples/Bringup.antt =====
-- Bring-ups of one mount, and the mounter over them.
use ocu_rclone_filestore.Base.{
  ok, ◌*◌, ℕ, Text, codes, true, false, ◌≡◌, ◌≢◌, ◌↔◌, refl, arith, Option, none, some, GoError,
  message, [], ◌∷◌, ltb, text_eq, if◌then◌else◌,
}
use ocu_rclone_filestore.Base.Int.{pos}
use ocu_rclone_filestore.Base.Paths.{parts_of}
use ocu_rclone_filestore.Base.Paths.Clean.{rooted}
use ocu_rclone_filestore.Mounter.Direct.{
  FuseMountOptions, build_fuse_mount_options, MountOptions, linux, DirectEnv, direct_mount,
}
use ocu_rclone_filestore.Mounter.Direct.Strict.{
  IsSupported, IsStrict, build_fuse_mount_options-IsStrict,
}
use ocu_rclone_filestore.Mounter.Direct.Served.{Clear, Outcome, node_for, direct_mount-Outcome}
use ocu_rclone_filestore.Mounter.Ready.{Poll, wait_ready, mount_serves}
use ocu_rclone_filestore.Mounter.Ready.Polls.{ReadyAfter, wait_ready-ReadyAfter}
use ocu_rclone_filestore.Mounter.Ready.Boundary.{mount_serves_iff}

abbrev mount_options : MountOptions
mount_options = record {
  allow_other = true;
  allow_root = false;
  allow_non_empty = true;
  default_permissions = true;
  writeback_cache = false;
  debug_fuse = false;
  extra_flags = [];
  extra_options = codes "max_read=4096" ∷ [];
  device_name = codes "ocufs";
  volume_name = [];
  max_read_ahead = pos 131072;
  attr_timeout = pos 1000000000;
}

build_fuse_mount_options-IsStrict_example :
    (((mo : FuseMountOptions) × (build_fuse_mount_options linux true mount_options ≡ ok mo))
      ↔ IsSupported mount_options)
    × ((mo : FuseMountOptions)
        → build_fuse_mount_options linux true mount_options ≡ ok mo
        → IsStrict true mount_options mo)
build_fuse_mount_options-IsStrict_example = build_fuse_mount_options-IsStrict true mount_options

-- The kernel mount comes up too late.
abbrev late : DirectEnv
late = record {
  overlap_error = none;
  non_empty_error = none;
  root_error = none;
  server_error = none;
  wait_error = some (message "wait failed" []);
}

direct_mount-Outcome_example :
    Outcome
      (node_for true 0 0 mount_options)
      (direct_mount late linux (codes "/mnt") true 0 0 mount_options)
    × (((direct_mount late linux (codes "/mnt") true 0 0 mount_options).1 ≡ none)
        ↔ Clear late mount_options)
direct_mount-Outcome_example = direct_mount-Outcome late (codes "/mnt") true 0 0 mount_options

-- The device boundary is there from the third round on, and the mount table never lists the mount.
abbrev rounds_of : ℕ → Poll
rounds_of k = record {
  ctx_err = none;
  check = some (message "not in the mount table" []);
  serves = ltb 1 k;
  now = 100 * k;
  wait_err = none;
}

wait_ready-ReadyAfter_example :
    (e : Option GoError) × (wait_ready true rounds_of 0 30000 (codes "/mnt") ≡ some e)
    × ((e ≡ none) ↔ ((n : ℕ) × ReadyAfter rounds_of 30000 n 0))
wait_ready-ReadyAfter_example =
    wait_ready-ReadyAfter rounds_of 0 30000 (codes "/mnt") (omega arith) (λ k. omega arith)

-- Another device below /mnt/in.
abbrev devices : Text → Option ℕ
devices p = if text_eq p (codes "/mnt/in") then some 7 else some 3

mount_serves_iff_example : (mount_serves devices (codes "/mnt//in/") ≡ true) ↔ (
    (d : ℕ) × (e : ℕ) × (devices (rooted (codes "mnt" ∷ codes "in" ∷ [])) ≡ some d)
    × (devices (rooted (codes "mnt" ∷ [])) ≡ some e)
    × (d ≢ e))
unfolding parts_of
mount_serves_iff_example =
    mount_serves_iff devices (codes "mnt//in/") (codes "mnt" ∷ []) (codes "in") refl

finds_the_boundary : mount_serves devices (codes "/mnt//in/") ≡ true
unfolding mount_serves
finds_the_boundary = refl
