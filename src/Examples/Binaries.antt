-- ===== src/Examples/Binaries.antt =====
-- The cache directory, the loader and the binaries at concrete inputs.
use ocu_rclone_filestore.Base.Paths.{join_path}
use ocu_rclone_filestore.Base.{
  ◌≢◌, Text, codes, true, false, ◌≡◌, ◌⊎◌, refl, Option, none, some, GoError, message, sentinel,
  Sentinel, ok, [], ◌∷◌, any_of, text_eq,
}
use ocu_rclone_filestore.Mountcfg.Patterns.{
  matches_schema_version, matches_destination, matches_octal, matches_byte_size, is_cache_mode,
}
use ocu_rclone_filestore.Mountcfg.Validate.{Config}
use ocu_rclone_filestore.Mountcfg.Load.{Loader}
use ocu_rclone_filestore.Mounter.Cachedir.{CacheEnv, ensure_writable_cache_dir, cache_dir_after}
use ocu_rclone_filestore.Mounter.Cachedir.Writable.{
  asked_dirs, writable, Settled, ensure_writable_cache_dir-Settled,
}
use ocu_rclone_filestore.Cmd.Run.{RunEnv, run_with, exit_code}
use ocu_rclone_filestore.Cmd.Run.Started.{MountsNothing, Mounts, run_with-Mounts}
use ocu_rclone_filestore.Cmd.Probe.{
  main, VerdictEnv, ProbeEnv, rootfs_probe_dir, tmpfs_probe_dir, tmpfs_probe, probe_text,
  write_verdict,
}
use ocu_rclone_filestore.Cmd.Probe.Atomic.{IsAtomic, write_verdict-IsAtomic}
use ocu_rclone_filestore.Cmd.Probe.Exit.{AllRemoved, IsReadOnly, IsWritable, Outcome, main-Outcome}
use ocu_rclone_filestore.Examples.Session.{cfg}

-- A read-only root: nothing but the tmpfs of the image is writable.
abbrev hardened : CacheEnv
hardened = record {
  mkdir_error = λ d. elim (text_eq d (codes "/root/.cache/rclone")) [
    | true ↦ none
    | false ↦ some (sentinel Sentinel.read_only_file_system)
  ];
  create_error = λ d. none;
  set_error = λ d. none;
  temp_dir = codes "/tmp";
}

ensure_writable_cache_dir-Settled_example :
    Settled hardened
      (codes "/.cache/rclone")
      (writable hardened)
      (any_of (writable hardened) (codes "/.cache/rclone" ∷ asked_dirs hardened))
      (ensure_writable_cache_dir hardened (codes "/.cache/rclone"))
    × ((writable hardened (codes "/.cache/rclone") ≡ true)
        → ((ensure_writable_cache_dir hardened (codes "/.cache/rclone")).1 ≡ none)
          × (cache_dir_after
                (codes "/.cache/rclone")
                (ensure_writable_cache_dir hardened (codes "/.cache/rclone")).0
              ≡ codes "/.cache/rclone"))
ensure_writable_cache_dir-Settled_example =
    ensure_writable_cache_dir-Settled hardened (codes "/.cache/rclone")

redirects_to_the_tmpfs :
    cache_dir_after
      (codes "/.cache/rclone")
      (ensure_writable_cache_dir hardened (codes "/.cache/rclone")).0
    ≡ codes "/root/.cache/rclone"
unfolding ensure_writable_cache_dir cache_dir_after
redirects_to_the_tmpfs = refl

abbrev loader : Loader
loader = record { read_file = λ path. ok (codes "{}"); decode = λ raw. ok cfg; is_uri = λ t. true }

abbrev invocation : RunEnv
invocation = record {
  flags = ok (record { config = codes "/etc/ocu.json"; version = false; ready_file = [] });
  write_error = none;
  ready_file_env = codes "/run/ocu/ready";
  loader = loader;
  cache = hardened;
  cache_dir = codes "/.cache/rclone";
}

abbrev clean_mount : Config → Text → Option GoError
clean_mount c path = none

run_with-Mounts_example :
    MountsNothing (run_with invocation clean_mount)
    ⊎ Mounts invocation clean_mount (run_with invocation clean_mount)
run_with-Mounts_example = run_with-Mounts invocation clean_mount

exits_with_zero : exit_code (run_with invocation clean_mount) ≡ 0
unfolding exit_code run_with matches_schema_version matches_destination matches_octal
    matches_byte_size is_cache_mode
exits_with_zero = refl

-- The write stops after four bytes.
abbrev short_write : VerdictEnv
short_write = record {
  mkdir_error = none;
  create_error = none;
  write_error = some (4, message "no space left" []);
  close_error = none;
  remove_error = none;
  rename_error = none;
}

write_verdict-IsAtomic_example :
    IsAtomic short_write
      (codes "ROOTFS_EROFS=ok")
      (some (codes "old"))
      (write_verdict short_write (codes "ROOTFS_EROFS=ok"))
write_verdict-IsAtomic_example =
    write_verdict-IsAtomic short_write (codes "ROOTFS_EROFS=ok") (some (codes "old"))

abbrev hardened_probes : ProbeEnv
hardened_probes = record {
  error_text = λ e. codes "error";
  decimal = λ n. codes "n";
  open_error = λ p. some (sentinel Sentinel.read_only_file_system);
  write_error = λ p. none;
  read_file = λ p. ok probe_text;
}

abbrev well : VerdictEnv
well = record short_write { write_error = none }

main-Outcome_example :
    Outcome well
      (IsReadOnly hardened_probes rootfs_probe_dir)
      (IsWritable hardened_probes tmpfs_probe_dir)
      none
      ((main well hardened_probes).1, (main well hardened_probes).2)
    × (AllRemoved (main well hardened_probes).0
        ⊎ (hardened_probes.write_error (join_path tmpfs_probe_dir tmpfs_probe) ≢ none))
main-Outcome_example = main-Outcome well hardened_probes none

probe_passes : (main well hardened_probes).2 ≡ 0
unfolding main
probe_passes = refl
