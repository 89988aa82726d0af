-- ===== src/Mounter/Specs/Configured.antt =====
-- From an accepted config over the specs to the config map that the backend is built from.
use ocu_rclone_filestore.Base.{
  ℕ, Text, Bool, ◌≡◌, ◌≢◌, refl, sym, subst, Option, none, some, ok, List, [], ◌∷◌, map, All,
}
use ocu_rclone_filestore.Mountcfg.Validate.{Mount, Config, validate}
use ocu_rclone_filestore.Mountcfg.Accepts.{
  HasScope, IsPresent, IsValidMount, HasValidMounts, validate_iff,
}
use ocu_rclone_filestore.Mounter.Specs.{
  MountSpec, spec_of, build_specs, OcufsConfigmap, build_ocufs_configmap,
}
use ocu_rclone_filestore.Mounter.Specs.Disjoint.{specs_made}

-- A spec whose config map is built, with every option that the backend requires: the URL and the
-- trust anchor given, and the token, the filesystem and the readonly key of the mount.
abbrev pub IsConfigured : Text → Text → Mount → MountSpec → Type 0
IsConfigured url pem m s =
    (cm : OcufsConfigmap) × (build_ocufs_configmap s.mount s.read_only s.service_url s.ca_cert_pem
      ≡ ok cm)
    × (cm.auth_token ≡ m.auth_token)
    × (cm.auth_token ≢ [])
    × (some cm.filesystem_id ≡ m.filesystem_id)
    × (cm.filesystem_id ≢ [])
    × (cm.service_url ≡ url)
    × (cm.ca_cert_pem ≡ pem)
    × (some cm.read_only ≡ m.readonly)

-- One spec for each mount, in order, each configured for its mount.
abbrev pub AreConfigured : Text → Text → List Mount → List MountSpec → Type 0
AreConfigured url pem [] [] = Unit
AreConfigured url pem (m ∷ ms) (s ∷ specs) =
    IsConfigured url pem m s × AreConfigured url pem ms specs
AreConfigured url pem [] (s ∷ specs) = ⊥
AreConfigured url pem (m ∷ ms) [] = ⊥

present_readonly : (o : Option Bool) → IsPresent o → (b : Bool) × (o ≡ some b)
present_readonly none h = absurd h
present_readonly (some b) h = (b, refl)

nonempty_scope :
    (fs mem : Option Text)
    → HasScope fs mem
    → mem ≡ none
    → (c : ℕ) × (id : Text) × (fs ≡ some (c ∷ id))
nonempty_scope none none h e = absurd h
nonempty_scope none (some mem) h e = absurd (some-ne-none e)
  where
    some-ne-none : some mem ≡ none → ⊥
    some-ne-none e' = cc
nonempty_scope (some []) none h e = absurd (h refl)
nonempty_scope (some (c ∷ id)) none h e = (c, id, refl)
nonempty_scope (some fs) (some mem) h e = absurd h

spec_of-IsConfigured :
    (url pem : Text) (m : Mount)
    → IsValidMount m
    → m.memory_store_id ≡ none
    → IsConfigured url pem m (spec_of url pem m)
unfolding build_ocufs_configmap
spec_of-IsConfigured url pem m valid no_store =
    let (c, id, e) = nonempty_scope m.filesystem_id m.memory_store_id valid.scope no_store in
    let (b, posture) = present_readonly m.readonly valid.readonly in
    (
      record {
        service_url = url;
        auth_token = m.auth_token;
        ca_cert_pem = pem;
        filesystem_id = c ∷ id;
        read_only = b;
      },
      rw (no_store, e, posture) refl,
      refl,
      valid.auth_token,
      sym e,
      (λ bad. cc),
      refl,
      refl,
      sym posture,
    )

specs-IsConfigured :
    (url pem : Text) (ms : List Mount)
    → All IsValidMount ms
    → All (λ (m : Mount). m.memory_store_id ≡ none) ms
    → AreConfigured url pem ms (map (spec_of url pem) ms)
specs-IsConfigured url pem [] valid stores = tt
specs-IsConfigured url pem (m ∷ ms) (v, valid) (n, stores) =
    (spec_of-IsConfigured url pem m v n, specs-IsConfigured url pem ms valid stores)

-- When the loader accepts a config and its specs are built, the config map of each mount is built
-- too, with the URL and the trust anchor of the config, the posture of the mount's own readonly key,
-- and the mount's own token and filesystem, of which neither is empty.
pub validated-IsConfigured :
    (is_uri : Text → Bool) (cfg : Config) (ms : List Mount) (specs : List MountSpec)
    → validate is_uri cfg ≡ none
    → cfg.mounts ≡ some ms
    → build_specs cfg.service_url cfg.ca_cert_pem ms ≡ ok specs
    → AreConfigured cfg.service_url cfg.ca_cert_pem ms specs
validated-IsConfigured is_uri cfg ms specs accepted listed built =
    let valid = (validate_iff is_uri cfg).0 accepted in
    let mounts_valid : All IsValidMount ms = subst HasValidMounts listed valid.mounts in
    let (same, apart, stores) = specs_made cfg.service_url cfg.ca_cert_pem ms specs built in
    subst (AreConfigured cfg.service_url cfg.ca_cert_pem ms) (sym same)
      (specs-IsConfigured cfg.service_url cfg.ca_cert_pem ms mounts_valid stores)
