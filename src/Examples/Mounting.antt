-- ===== src/Examples/Mounting.antt =====
-- A config of two mounts, and runs of the orchestrator over it.
use ocu_rclone_filestore.Base.{
  length, length-append, arith, ap, ◌++◌, sentinel, Sentinel, if◌then◌else◌, ◌==◌, ok, ◌≤◌, ℕ, zero,
  suc, Text, codes, Bool, true, false, Option, none, some, ◌≡◌, ◌↔◌, refl, GoError, message, List,
  [], ◌∷◌, map, All, any_of,
}
use ocu_rclone_filestore.Base.Int.{pos, is_negative}
use ocu_rclone_filestore.Mountcfg.Patterns.{
  matches_schema_version, matches_destination, matches_octal, matches_byte_size, is_cache_mode,
}
use ocu_rclone_filestore.Mountcfg.Validate.{Mount, Config, validate}
use ocu_rclone_filestore.Mountcfg.Schema.{IsSchemaConfig}
use ocu_rclone_filestore.Mounter.Scaffold.{Listing, done, sub, ensure_mountpoint_shadows_no_content}
use ocu_rclone_filestore.Mounter.Scaffold.Shadow.{
  is_scaffold, count, ensure_mountpoint_shadows_no_content_iff,
}
use ocu_rclone_filestore.Mounter.Options.{VfsParsers, VfsOptions, dir_cache_time, build_vfs_options}
use ocu_rclone_filestore.Mounter.Options.Accepted.{
  IsWriteBack, IsSize, IsCacheTime, build_vfs_options-ok,
}
use ocu_rclone_filestore.Mounter.Specs.{build_specs, spec_of, MountSpec}
use ocu_rclone_filestore.Mounter.Specs.Configured.{AreConfigured, validated-IsConfigured}
use ocu_rclone_filestore.Mounter.Specs.Disjoint.{build_specs-ok, AreApart}
use ocu_rclone_filestore.Mounter.Orchestrator.{
  Action, remove_stale, create_ready, retract_ready, mounted, unmount, Env, signalled, run,
}
use ocu_rclone_filestore.Mounter.Orchestrator.ReadyFile.{IsMadeOnce, run-RetractsLast}
use ocu_rclone_filestore.Mounter.Point
use ocu_rclone_filestore.Mounter.Point.{new_real_point}
use ocu_rclone_filestore.Mounter.Orchestrator.Shutdown.{run-ShutsDown}
use ocu_rclone_filestore.Mounter.Orchestrator.Errors.{finds, run-KeepsErrors}
use ocu_rclone_filestore.Mounter.Orchestrator.Teardown.{is_gone, run-unmounts_all}

abbrev mount_at : Text → Bool → Mount
mount_at destination readonly = record {
  destination = destination;
  auth_token = codes "token";
  filesystem_id = some (codes "fs1");
  memory_store_id = none;
  readonly = some readonly;
  vfs_cache_mode = codes "writes";
  cache_duration_s = some (pos 5);
  vfs_cache_max_size = codes "64M";
  dir_perms = codes "0755";
  file_perms = codes "0644";
  vfs_write_back = [];
}

abbrev two_mounts : List Mount
two_mounts = mount_at (codes "/mnt/in") true ∷ mount_at (codes "/mnt/out/") false ∷ []

abbrev a_config : Config
a_config = record {
  schema_version = codes "v1alpha1";
  service_url = codes "https://edge";
  ca_cert_pem = codes "pem";
  mounts = some two_mounts;
  backend_cache_ttl = none;
}

abbrev any_uri : Text → Bool
any_uri t = true

abbrev fails : ℕ → Option GoError
fails zero = none
fails (suc k) = some (message "mount failed" [])

-- The second mount fails.
abbrev second_fails : Env
second_fails = record {
  signal_pending = λ k. false;
  mount_error = fails;
  unmount_error = λ p. none;
  remove_error = none;
  open_error = none;
  close_error = none;
  destination = λ p. codes "/mnt/a";
  wake = signalled;
}

abbrev all_well : Env
all_well = record second_fails { mount_error = λ k. none }

abbrev marker : Text
marker = codes "-----BEGIN CERTIFICATE-----"

-- The loader takes a trust anchor with no certificate, which the schema does not.
takes_any_anchor : IsSchemaConfig any_uri a_config → ⊥
takes_any_anchor s =
    let (before, after, e) = s.ca_cert_pem in
    absurd (
      omega
        (arith, ap length e, length-append (before ++ marker) after, length-append before marker))

accepts_a_config : validate any_uri a_config ≡ none
unfolding validate matches_schema_version matches_destination matches_octal matches_byte_size
    is_cache_mode
accepts_a_config = refl

abbrev two_specs : List MountSpec
two_specs = map (spec_of (codes "https://edge") (codes "pem")) two_mounts

build_specs-ok_example :
    (two_specs ≡ map (spec_of (codes "https://edge") (codes "pem")) two_mounts)
    × AreApart [] two_mounts
    × All (λ (m : Mount). m.memory_store_id ≡ none) two_mounts
unfolding build_specs
build_specs-ok_example =
    build_specs-ok (codes "https://edge") (codes "pem") two_mounts two_specs
      ((codes "mnt/in", refl), ((codes "mnt/out/", refl), tt)) refl

-- The root, written with a dot, and a destination below it are both taken.
root_and_below_built :
    build_specs
      (codes "https://edge")
      (codes "pem")
      (mount_at (codes "/.") true ∷ mount_at (codes "/mnt/a") false ∷ [])
    ≡ ok (
        map
          (spec_of (codes "https://edge") (codes "pem"))
          (mount_at (codes "/.") true ∷ mount_at (codes "/mnt/a") false ∷ []))
unfolding build_specs
root_and_below_built = refl

run-unmounts_all_example :
    is_gone 0
      (run second_fails (codes "/run/ready") (codes "https://edge") (codes "pem") two_mounts)
    ≡ true
unfolding run any_of
run-unmounts_all_example =
    run-unmounts_all second_fails 0 (codes "/run/ready") (codes "https://edge") (codes "pem")
      two_mounts refl

-- A signal after both mounts are up; the second cannot be unmounted.
abbrev stuck : Env
stuck = record all_well {
  unmount_error = λ p. if p == 1 then some (sentinel Sentinel.not_connected) else none;
}

run-KeepsErrors_example :
    finds Sentinel.not_connected
      (run stuck (codes "/run/ready") (codes "https://edge") (codes "pem") two_mounts).result
    ≡ true
unfolding run any_of
run-KeepsErrors_example =
    run-KeepsErrors stuck Sentinel.not_connected (codes "/run/ready") (codes "https://edge")
      (codes "pem") two_mounts refl

run-RetractsLast_example :
    (actions : List Action) × ((run all_well
        (codes "/run/ready")
        (codes "https://edge")
        (codes "pem")
        two_mounts).actions
      ≡ remove_stale ∷ actions ++ retract_ready ∷ [])
    × IsMadeOnce 0 two_specs actions
unfolding build_specs
run-RetractsLast_example =
    run-RetractsLast all_well 47 (codes "run/ready") (codes "https://edge") (codes "pem") two_mounts
      (spec_of (codes "https://edge") (codes "pem") (mount_at (codes "/mnt/in") true))
      (spec_of (codes "https://edge") (codes "pem") (mount_at (codes "/mnt/out/") false) ∷ []) refl
      refl

-- On a signal both points go down while the ready-file is still there.
ready_while_unmounting :
    (run all_well (codes "/run/ready") (codes "https://edge") (codes "pem") two_mounts).actions
    ≡ remove_stale
      ∷ mounted 0
      ∷ mounted 1
      ∷ create_ready
      ∷ unmount 0
      ∷ unmount 1
      ∷ retract_ready
      ∷ []
unfolding run
ready_while_unmounting = refl

-- Neither detach returns, and the run ends well.
run-ShutsDown_example :
    (run all_well (codes "/run/ready") (codes "https://edge") (codes "pem") two_mounts).result
    ≡ none
unfolding build_specs Point.unmount
run-ShutsDown_example =
    run-ShutsDown all_well (λ p. new_real_point (codes "/mnt") true) (λ p. none)
      (codes "/run/ready") (codes "https://edge") (codes "pem") two_mounts two_specs refl
      (record { removed = refl; mounts = λ k. refl; opened = refl; closed = refl; woken = refl })
      (λ p. (refl, refl)) (λ p. tt)

-- Two nested empty directories, and the same with a file.
abbrev empty_scaffold : Listing
empty_scaffold =
    sub (codes "outputs") (sub (codes "tmp") done done) (sub (codes "uploads") done done)

ensure_mountpoint_shadows_no_content_iff_example :
    (ensure_mountpoint_shadows_no_content (codes "/mnt") (ok empty_scaffold) ≡ none)
    ↔ ((l : Listing) × (ok empty_scaffold ≡ ok l) × (is_scaffold l ≡ true) × (count l ≤ 4096))
ensure_mountpoint_shadows_no_content_iff_example =
    ensure_mountpoint_shadows_no_content_iff (codes "/mnt") (ok empty_scaffold)

lets_scaffold_through :
    ensure_mountpoint_shadows_no_content (codes "/mnt") (ok empty_scaffold) ≡ none
unfolding ensure_mountpoint_shadows_no_content
lets_scaffold_through = refl

abbrev parsers : VfsParsers
parsers = record {
  cache_mode = λ t. ok 2;
  size_suffix = λ t. ok (pos 67108864);
  duration = λ t. ok (pos 1000000000);
  file_mode = λ t. ok 493;
}

abbrev default_options : VfsOptions
default_options = record {
  cache_mode = 0;
  cache_max_size = pos 0;
  dir_cache_time = pos 0;
  write_back = pos 5000000000;
  dir_perms = 511;
  file_perms = 438;
  umask = 18;
  read_only = false;
}

abbrev in_options : VfsOptions
in_options = record {
  cache_mode = 2;
  cache_max_size = pos 67108864;
  dir_cache_time = pos 5000000000;
  write_back = pos 5000000000;
  dir_perms = 493;
  file_perms = 493;
  umask = 0;
  read_only = true;
}

build_vfs_options-ok_example :
    (parsers.cache_mode (codes "writes") ≡ ok 2)
    × IsSize parsers (codes "64M") (pos 67108864)
    × IsWriteBack parsers (pos 5000000000) [] (pos 5000000000)
    × (parsers.file_mode (codes "0755") ≡ ok 493)
    × (parsers.file_mode (codes "0644") ≡ ok 493)
    × (in_options.umask ≡ 0)
    × (true ≡ true)
    × IsCacheTime (some (pos 5)) in_options.dir_cache_time
unfolding build_vfs_options
build_vfs_options-ok_example =
    build_vfs_options-ok parsers default_options (mount_at (codes "/mnt/in") true) true in_options
      refl

-- A cache time of 9223372037 seconds, which the loader accepts, does not fit int64 nanoseconds.
cache_time_overflows : is_negative (dir_cache_time (some (pos 9223372037))) ≡ true
unfolding dir_cache_time
cache_time_overflows = refl

validated-IsConfigured_example :
    AreConfigured (codes "https://edge") (codes "pem") two_mounts two_specs
unfolding validate matches_schema_version matches_destination matches_octal matches_byte_size
    is_cache_mode build_specs
validated-IsConfigured_example =
    validated-IsConfigured any_uri a_config two_mounts two_specs refl refl refl
