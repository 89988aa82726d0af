-- ===== src/Mounter/Bringup/Steps.antt =====
-- The steps of mountAndWaitReady of internal/mounter/realpoint.go before the mount.
use ocu_rclone_filestore.Base.{
  codes, ◌≡◌, refl, sym, ap, ◌∙◌, arith, Option, none, some, GoError, Result, ok, err, [], ◌++◌,
}
use ocu_rclone_filestore.Ocufs.NewFs.{Built}
use ocu_rclone_filestore.Mounter.Specs.{MountSpec, OcufsConfigmap, build_ocufs_configmap}
use ocu_rclone_filestore.Mounter.Options.{VfsOptions, build_vfs_options}
use ocu_rclone_filestore.Mounter.Scaffold.{ensure_mountpoint_shadows_no_content}
use ocu_rclone_filestore.Mounter.Direct.{MountOptions, build_mount_options}
use ocu_rclone_filestore.Mounter.Bringup.{
  SeamEnv, Prepared, prepare, after_guard, after_vfs, after_fs, after_find, after_configmap,
}

-- Every step before the mount ended well, and gave these values; the destination was a scaffold.
pub record IsPrepared (env : SeamEnv) (spec : MountSpec) (p : Prepared) : Type 0 where
  pub configmap :
      build_ocufs_configmap spec.mount spec.read_only spec.service_url spec.ca_cert_pem
      ≡ ok p.configmap
  pub found : env.find_error ≡ none
  pub built : env.new_fs (codes "ocufs-" ++ spec.mount.destination) [] p.configmap ≡ ok p.built
  pub vfs_options :
      build_vfs_options env.parsers env.vfs_defaults spec.mount spec.read_only ≡ ok p.vfs_options
  pub mount_options : p.mount_options ≡ build_mount_options env.mount_defaults
  pub scaffold : ensure_mountpoint_shadows_no_content spec.mount.destination env.listing ≡ none

after_guard_ok :
    (spec : MountSpec) (q p : Prepared) (g : Option GoError)
    → after_guard spec q g ≡ ok p
    → (g ≡ none) × (q ≡ p)
after_guard_ok spec q p none h = (refl, ground arith)
after_guard_ok spec q p (some e) h = absurd (ground arith)

module _ (env : SeamEnv) (spec : MountSpec) (p : Prepared) where
  after_vfs_ok :
      (cm : OcufsConfigmap) (built : Built) (r : Result VfsOptions)
      → after_vfs env spec cm built r ≡ ok p
      → (r ≡ ok p.vfs_options)
        × (cm ≡ p.configmap)
        × (built ≡ p.built)
        × (p.mount_options ≡ build_mount_options env.mount_defaults)
        × (ensure_mountpoint_shadows_no_content spec.mount.destination env.listing ≡ none)
  after_vfs_ok cm built (err e) h = absurd (ground arith)
  after_vfs_ok cm built (ok vfs) h =
      let (scaffold, same) = after_guard_ok spec _ p _ h in
      (
        ap (λ q. ok q.vfs_options) same,
        ap (λ q. q.configmap) same,
        ap (λ q. q.built) same,
        ap (λ q. q.mount_options) (sym same),
        scaffold,
      )

  after_fs_ok :
      (cm : OcufsConfigmap) (r : Result Built)
      → after_fs env spec cm r ≡ ok p
      → (r ≡ ok p.built)
        × (cm ≡ p.configmap)
        × (build_vfs_options env.parsers env.vfs_defaults spec.mount spec.read_only
            ≡ ok p.vfs_options)
        × (p.mount_options ≡ build_mount_options env.mount_defaults)
        × (ensure_mountpoint_shadows_no_content spec.mount.destination env.listing ≡ none)
  after_fs_ok cm (err e) h = absurd (ground arith)
  after_fs_ok cm (ok built) h =
      let (vfs, of_cm, of_built, mo, scaffold) = after_vfs_ok cm built _ h in
      (ap ok of_built, of_cm, vfs, mo, scaffold)

  after_find_ok :
      (cm : OcufsConfigmap) (e : Option GoError)
      → build_ocufs_configmap spec.mount spec.read_only spec.service_url spec.ca_cert_pem ≡ ok cm
      → env.find_error ≡ e
      → after_find env spec cm e ≡ ok p
      → IsPrepared env spec p
  after_find_ok cm (some e) made found h = absurd (ground arith)
  after_find_ok cm none made found h =
      let (built, of_cm, vfs, mo, scaffold) = after_fs_ok cm _ h in
      record {
        configmap = made ∙ ap ok of_cm;
        found = found;
        built = ap (env.new_fs (codes "ocufs-" ++ spec.mount.destination) []) (sym of_cm) ∙ built;
        vfs_options = vfs;
        mount_options = mo;
        scaffold = scaffold;
      }

  pub prepare_ok : prepare env spec ≡ ok p → IsPrepared env spec p
  unfolding prepare
  prepare_ok h = from_configmap _ refl h
    where
      from_configmap :
          (r : Result OcufsConfigmap)
          → build_ocufs_configmap spec.mount spec.read_only spec.service_url spec.ca_cert_pem ≡ r
          → after_configmap env spec r ≡ ok p
          → IsPrepared env spec p
      from_configmap (err e) made h' = absurd (ground arith)
      from_configmap (ok cm) made h' = after_find_ok cm env.find_error made refl h'

  pub ok_prepared : IsPrepared env spec p → prepare env spec ≡ ok p
  unfolding prepare
  ok_prepared q =
      ap (after_configmap env spec) q.configmap
      ∙ ap (after_find env spec p.configmap) q.found
      ∙ ap (after_fs env spec p.configmap) q.built
      ∙ ap (after_vfs env spec p.configmap p.built) q.vfs_options
      ∙ ap (after_guard spec (record p { mount_options = build_mount_options env.mount_defaults }))
          q.scaffold
      ∙ ap (λ (mo : MountOptions). ok (record p { mount_options = mo })) (sym q.mount_options)
