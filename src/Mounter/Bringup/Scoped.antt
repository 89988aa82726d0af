-- ===== src/Mounter/Bringup/Scoped.antt =====
-- The filesystem behind a mount that mountAndWaitReady of internal/mounter/realpoint.go prepares.
use ocu_rclone_filestore.Base.{
  Text, codes, Bool, true, false, subst, ◌≡◌, sym, ap, ◌∙◌, some, Result, ok, [], ◌∷◌, ◌++◌,
  Option-cases, inl, inr,
}
use ocu_rclone_filestore.Mountcfg.Validate.{Mount}
use ocu_rclone_filestore.Ocufs.Interface.{Encoder}
use ocu_rclone_filestore.Ocufs.NewFs.{Options, Backing, new_fs, with_encoding}
use ocu_rclone_filestore.Ocufs.NewFs.Scope.{Gives-with_encoding, Gives, new_fs_iff}
use ocu_rclone_filestore.Mounter.Specs.{MountSpec, OcufsConfigmap, build_ocufs_configmap}
use ocu_rclone_filestore.Mounter.Bringup.{SeamEnv, Prepared, prepare}
use ocu_rclone_filestore.Mounter.Bringup.Steps.{prepare_ok}

-- Options with the values of the config map's keys.
abbrev pub AgreesWith : OcufsConfigmap → Options → Type 0
AgreesWith cm opts =
    (opts.service_url ≡ cm.service_url)
    × (opts.filesystem_id ≡ cm.filesystem_id)
    × (opts.auth_token ≡ cm.auth_token)
    × (opts.read_only ≡ cm.read_only)

-- What configstruct.Set does: each field from its key.
abbrev pub Reads : (OcufsConfigmap → Result Options) → Type 0
Reads set = (cm : OcufsConfigmap) (opts : Options) → set cm ≡ ok opts → AgreesWith cm opts

-- The config map of a mount carries its own filesystem and token.
abbrev Carries : Mount → Bool → Text → OcufsConfigmap → Type 0
Carries m read_only url cm =
    (some cm.filesystem_id ≡ m.filesystem_id)
    × (cm.auth_token ≡ m.auth_token)
    × (cm.service_url ≡ url)
    × (cm.read_only ≡ read_only)

ok_injective : {x y : OcufsConfigmap} → ok x ≡ ok y → x ≡ y
ok_injective e = cc

build_ocufs_configmap-Carries :
    (m : Mount) (read_only : Bool) (url pem : Text) (cm : OcufsConfigmap)
    → build_ocufs_configmap m read_only url pem ≡ ok cm
    → Carries m read_only url cm
unfolding build_ocufs_configmap
build_ocufs_configmap-Carries m read_only url pem cm h = elim (Option-cases m.memory_store_id) [
  | inr (id, store) ↦ (let bad = rw store at h in cc)
  | inl store ↦ elim (Option-cases m.filesystem_id) [
    | inl no_id ↦ (let bad = rw (store, no_id) at h in cc)
    | inr ([], id) ↦ (let bad = rw (store, id) at h in cc)
    | inr (c ∷ t, id) ↦
        let same = sym (ok_injective (rw (store, id) at h)) in
        (
          ap (λ (x : OcufsConfigmap). some x.filesystem_id) same ∙ sym id,
          ap (λ (x : OcufsConfigmap). x.auth_token) same,
          ap (λ (x : OcufsConfigmap). x.service_url) same,
          ap (λ (x : OcufsConfigmap). x.read_only) same,
        )
  ]
]

-- The Fs and its client are the mount's own.
abbrev pub IsOwn : MountSpec → Prepared → Type 0
IsOwn spec p =
    (some p.built.client.fs_id ≡ spec.mount.filesystem_id)
    × (p.built.client.auth_token ≡ spec.mount.auth_token)
    × (p.built.client.service_url ≡ spec.service_url)
    × (p.built.fs.read_only ≡ spec.read_only)
    × (p.built.fs.root ≡ [])
    × (p.built.name ≡ codes "ocufs-" ++ spec.mount.destination)

with_encoding-AgreesWith :
    (cm : OcufsConfigmap) (enc : Encoder) (has_key : Bool) (opts : Options)
    → AgreesWith cm opts
    → AgreesWith cm (with_encoding enc has_key opts)
with_encoding-AgreesWith cm enc true opts h = h
with_encoding-AgreesWith cm enc false opts h = h

Gives-AgreesWith :
    {Pool : Type 0} (b : Backing Pool) (set : OcufsConfigmap → Result Options)
    → (has_encoding : OcufsConfigmap → Bool) (cm : OcufsConfigmap) (opts : Options) → Reads set
    → Gives b set has_encoding cm opts
    → AgreesWith cm opts
Gives-AgreesWith b set has_encoding cm opts reads (parsed, given, choice) =
    let same = (Gives-with_encoding (has_encoding cm) b.default_encoding parsed opts).0 choice in
    subst (AgreesWith cm) (sym same) (
      with_encoding-AgreesWith cm b.default_encoding (has_encoding cm) parsed
        (reads cm parsed given))

-- When the backend of the seam is built by NewFs, and the options are read from their keys, then a
-- mount that is prepared, and so each one that is started, has an Fs with an empty root, the
-- posture of its spec and a name of its own destination, over a client for the mount's own
-- filesystem, with the mount's own token, at the URL of the spec.
pub prepare-IsOwn :
    {Pool : Type 0} (env : SeamEnv) (b : Backing Pool) (set : OcufsConfigmap → Result Options)
    → (has_encoding : OcufsConfigmap → Bool) (spec : MountSpec) (p : Prepared)
    → ((name root : Text) (cm : OcufsConfigmap)
        → env.new_fs name root cm ≡ new_fs b set has_encoding name root cm)
    → Reads set
    → prepare env spec ≡ ok p
    → IsOwn spec p
prepare-IsOwn env b set has_encoding spec p same reads h =
    let q = prepare_ok env spec p h in
    let (fs, auth, url, posture) =
      build_ocufs_configmap-Carries spec.mount spec.read_only spec.service_url spec.ca_cert_pem
        p.configmap q.configmap in
    let name = codes "ocufs-" ++ spec.mount.destination in
    let (opts, gives, is_for) =
      (new_fs_iff b set has_encoding name [] p.configmap).1 p.built
        (sym (same name [] p.configmap) ∙ q.built) in
    let (named, rooted, posed, of_url, of_fs, of_auth, _) = is_for in
    let (r_url, r_fs, r_auth, r_posture) =
      Gives-AgreesWith b set has_encoding p.configmap opts reads gives in
    (
      ap some (of_fs ∙ r_fs) ∙ fs,
      of_auth ∙ r_auth ∙ auth,
      of_url ∙ r_url ∙ url,
      posed ∙ r_posture ∙ posture,
      rooted,
      named,
    )
