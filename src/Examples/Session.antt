-- ===== src/Examples/Session.antt =====
-- The mounter and the backend's construction at concrete inputs.
use ocu_rclone_filestore.Base.{
  ap, ◌*◌, ℕ, Text, codes, Bool, true, false, ◌≡◌, ◌↔◌, refl, arith, none, some, Result, ok, List,
  [], ◌∷◌, any_of,
}
use ocu_rclone_filestore.Base.Int.{pos}
use ocu_rclone_filestore.Ocufs.Interface.{Encoder}
use ocu_rclone_filestore.Ocufs.NewFs.{Options, Built, Backing, new_fs}
use ocu_rclone_filestore.Ocufs.NewFs.Dial.{IsUsable}
use ocu_rclone_filestore.Ocufs.NewFs.Scope.{Gives, IsFsFor, new_fs_iff}
use ocu_rclone_filestore.Mountcfg.Validate.{Mount, Config}
use ocu_rclone_filestore.Mounter.Options.{VfsParsers, VfsOptions, build_vfs_options}
use ocu_rclone_filestore.Mounter.Scaffold.{done, ensure_mountpoint_shadows_no_content}
use ocu_rclone_filestore.Mounter.Direct.{MountOptions}
use ocu_rclone_filestore.Mounter.Ready.{Poll}
use ocu_rclone_filestore.Mounter.Specs.{MountSpec, spec_of, build_specs, OcufsConfigmap}
use ocu_rclone_filestore.Mounter.Bringup.{SeamEnv, RealPointMounter, mount_and_wait_ready}
use ocu_rclone_filestore.Mounter.Bringup.Seam.{Ends, mount_and_wait_ready-Ends}
use ocu_rclone_filestore.Mounter.Bringup.{Prepared, prepare}
use ocu_rclone_filestore.Mounter.Bringup.Scoped.{Reads, IsOwn, prepare-IsOwn}
use ocu_rclone_filestore.Brokerrpc.Client.{Client}
use ocu_rclone_filestore.Mounter.Direct.{build_mount_options}
use ocu_rclone_filestore.Ocufs.NewFs.{built_of}
use ocu_rclone_filestore.Mounter.Orchestrator.{Env, signalled}
use ocu_rclone_filestore.Mounter.Orchestrator.Teardown.{is_ready}
use ocu_rclone_filestore.Mounter.Orchestrator.Readiness.{CanSignal}
use ocu_rclone_filestore.Mounter.Mount.{
  OrchestratorMounter, new, with_readiness, with_signals, mount,
}
use ocu_rclone_filestore.Mounter.Mount.Ready.{AllComeUp, mount-ready}

abbrev encoder : Encoder
encoder = record { from_standard_path = λ p. p; to_standard_path = λ p. p }

abbrev backing : Backing (List Text)
backing = record {
  parse_url = λ t. ok (record { scheme = codes "https"; host = codes "edge" });
  append_certs = λ pem. some (pem ∷ []);
  default_encoding = encoder;
  address = 1;
}

abbrev options_of : OcufsConfigmap → Result Options
options_of cm = ok (record {
  read_only = cm.read_only;
  service_url = cm.service_url;
  filesystem_id = cm.filesystem_id;
  auth_token = cm.auth_token;
  ca_cert_pem = cm.ca_cert_pem;
  enc = encoder;
})

abbrev no_encoding : OcufsConfigmap → Bool
no_encoding cm = false

abbrev configmap : OcufsConfigmap
configmap = record {
  service_url = codes "https://edge";
  auth_token = codes "token";
  ca_cert_pem = codes "pem";
  filesystem_id = codes "fs1";
  read_only = true;
}

new_fs_iff_example :
    (((built : Built) × (new_fs backing options_of no_encoding (codes "ocufs-/mnt") [] configmap
          ≡ ok built))
      ↔ ((opts : Options) × Gives backing options_of no_encoding configmap opts
          × IsUsable backing opts))
    × ((built : Built)
        → new_fs backing options_of no_encoding (codes "ocufs-/mnt") [] configmap ≡ ok built
        → (opts : Options) × Gives backing options_of no_encoding configmap opts
          × IsFsFor (codes "ocufs-/mnt") [] opts built)
new_fs_iff_example = new_fs_iff backing options_of no_encoding (codes "ocufs-/mnt") [] configmap

abbrev pub one_mount : Mount
one_mount = record {
  destination = codes "/mnt";
  auth_token = codes "token";
  filesystem_id = some (codes "fs1");
  memory_store_id = none;
  readonly = some true;
  vfs_cache_mode = codes "writes";
  cache_duration_s = some (pos 5);
  vfs_cache_max_size = codes "64M";
  dir_perms = codes "0755";
  file_perms = codes "0644";
  vfs_write_back = [];
}

abbrev one_spec : MountSpec
one_spec = spec_of (codes "https://edge") (codes "pem") one_mount

abbrev pub cfg : Config
cfg = record {
  schema_version = codes "v1alpha1";
  service_url = codes "https://edge";
  ca_cert_pem = codes "pem";
  mounts = some (one_mount ∷ []);
  backend_cache_ttl = none;
}

abbrev parsers : VfsParsers
parsers = record {
  cache_mode = λ t. ok 2;
  size_suffix = λ t. ok (pos 67108864);
  duration = λ t. ok (pos 1000000000);
  file_mode = λ t. ok 493;
}

abbrev vfs_options : VfsOptions
vfs_options = record {
  cache_mode = 0;
  cache_max_size = pos 0;
  dir_cache_time = pos 0;
  write_back = pos 5000000000;
  dir_perms = 511;
  file_perms = 438;
  umask = 18;
  read_only = false;
}

abbrev default_options : MountOptions
default_options = record {
  allow_other = false;
  allow_root = false;
  allow_non_empty = false;
  default_permissions = true;
  writeback_cache = false;
  debug_fuse = false;
  extra_flags = [];
  extra_options = [];
  device_name = codes "ocufs";
  volume_name = [];
  max_read_ahead = pos 131072;
  attr_timeout = pos 1000000000;
}

-- A mount that is listed at once.
abbrev listed : ℕ → Poll
listed k = record { ctx_err = none; check = none; serves = false; now = 100 * k; wait_err = none }

abbrev seam : SeamEnv
seam = record {
  find_error = none;
  new_fs = λ name root cm. new_fs backing options_of no_encoding name root cm;
  parsers = parsers;
  vfs_defaults = vfs_options;
  mount_defaults = default_options;
  listing = ok done;
  start_error = none;
  has_vfs = true;
  can_check = true;
  polls = listed;
  start = 0;
  detached = none;
}

abbrev mounter : RealPointMounter ℕ
mounter = record { mount_fn = 0; ready_timeout = 30000 }

mount_and_wait_ready-Ends_example :
    Ends seam 30000 one_spec (mount_and_wait_ready seam mounter one_spec)
mount_and_wait_ready-Ends_example =
    mount_and_wait_ready-Ends seam mounter one_spec (omega arith) (λ k. omega arith)

reads : Reads options_of
reads cm opts h =
    let same = ok_injective h in
    (
      ap (λ (x : Options). x.service_url) same,
      ap (λ (x : Options). x.filesystem_id) same,
      ap (λ (x : Options). x.auth_token) same,
      ap (λ (x : Options). x.read_only) same,
    )
  where
    ok_injective : {x y : Options} → ok x ≡ ok y → y ≡ x
    ok_injective e = cc

abbrev the_options : Options
the_options = record {
  read_only = true;
  service_url = codes "https://edge";
  filesystem_id = codes "fs1";
  auth_token = codes "token";
  ca_cert_pem = codes "pem";
  enc = encoder;
}

abbrev the_client : Client
the_client = record {
  service_url = codes "https://edge";
  fs_id = codes "fs1";
  auth_token = codes "token";
  message_ceiling = 262144;
  max_download_bytes = 17179869184;
  max_list_pages = 65536;
}

abbrev own_vfs : VfsOptions
own_vfs = record {
  cache_mode = 2;
  cache_max_size = pos 67108864;
  dir_cache_time = pos 5000000000;
  write_back = pos 5000000000;
  dir_perms = 493;
  file_perms = 493;
  umask = 0;
  read_only = true;
}

abbrev prepared : Prepared
prepared = record {
  configmap = configmap;
  built = built_of 1 (codes "ocufs-/mnt") [] the_options the_client;
  vfs_options = own_vfs;
  mount_options = build_mount_options default_options;
}

prepare-IsOwn_example : IsOwn one_spec prepared
unfolding prepare new_fs build_vfs_options ensure_mountpoint_shadows_no_content
prepare-IsOwn_example =
    prepare-IsOwn seam backing options_of no_encoding one_spec prepared (λ name root cm. refl) reads
      refl

abbrev comes_up : Env
comes_up = record {
  signal_pending = λ k. false;
  mount_error = λ k. none;
  unmount_error = λ p. none;
  remove_error = none;
  open_error = none;
  close_error = none;
  destination = λ p. codes "/mnt/a";
  wake = signalled;
}

abbrev the_mounter : OrchestratorMounter ℕ ℕ
the_mounter = record { new_seam = ok mounter; readiness = codes "/run/ocu/ready"; signals = some 1 }

options_in_order :
    new true 0 (with_readiness (codes "/run/ocu/ready") ∷ with_signals 1 ∷ []) ≡ the_mounter
unfolding new with_readiness with_signals
options_in_order = refl

mount-ready_example : (any_of is_ready (mount (λ r. comes_up) the_mounter cfg).actions ≡ true) ↔ (
    AllComeUp comes_up (λ k. seam) 30000 0 (one_spec ∷ [])
    × CanSignal comes_up (codes "/run/ready"))
unfolding build_specs mount_and_wait_ready new_fs build_vfs_options
    ensure_mountpoint_shadows_no_content
mount-ready_example =
    mount-ready (λ r. comes_up) (λ k. seam) the_mounter cfg mounter one_spec [] refl refl refl
      (refl, tt) (λ k. (omega arith, λ j. omega arith))
