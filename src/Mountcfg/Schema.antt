-- ===== src/Mountcfg/Schema.antt =====
-- The schema of internal/contract/testdata/mount-config.schema.json, rule by rule, beside the loader of
-- internal/mountcfg/mountcfg.go. A text that is absent from a mount is the empty one here, as Go decodes
-- it; the schema has no key for the write-back delay.
use ocu_rclone_filestore.Base.{
  ◌≤◌, Text, codes, Bool, true, ◌≡◌, ◌≢◌, List, [], ◌++◌, length, Option, none, some, All,
}
use ocu_rclone_filestore.Base.Int.{ℤ}
use ocu_rclone_filestore.Mountcfg.Validate.{Mount, Config}
use ocu_rclone_filestore.Mountcfg.Accepts.{HasScope, IsPresent, IsNatural}
use ocu_rclone_filestore.Mountcfg.Texts.{IsDestination, IsOctal, IsByteSize, IsVersion, IsCacheMode}

-- An id of 256 characters at most, if there is one; for a text of ASCII its bytes are its characters.
abbrev pub IsShort : Option Text → Type 0
IsShort none = Unit
IsShort (some id) = length id ≤ 256

-- The rules of the schema for one mount.
pub record IsSchemaMount (m : Mount) : Type 0 where
  pub destination : IsDestination m.destination
  pub auth_token : m.auth_token ≢ []
  pub scope : HasScope m.filesystem_id m.memory_store_id
  pub short_filesystem_id : IsShort m.filesystem_id
  pub short_memory_store_id : IsShort m.memory_store_id
  pub readonly : IsPresent m.readonly
  pub cache_duration : IsNatural m.cache_duration_s
  pub dir_perms : IsOctal m.dir_perms
  pub file_perms : IsOctal m.file_perms
  pub max_size : IsByteSize m.vfs_cache_max_size
  pub cache_mode : IsCacheMode m.vfs_cache_mode
  pub no_write_back : m.vfs_write_back ≡ []

abbrev AreSchemaMounts : Option (List Mount) → Type 0
AreSchemaMounts none = ⊥
AreSchemaMounts (some ms) = All IsSchemaMount ms

-- The time to live is absent, or not negative.
abbrev pub IsLifetime : Option ℤ → Type 0
IsLifetime none = Unit
IsLifetime (some t) = IsNatural (some t)

-- The text holds the line that begins a certificate.
abbrev pub HasMarker : Text → Type 0
HasMarker pem =
    (before : Text) × (after : Text) × (pem
      ≡ before ++ codes "-----BEGIN CERTIFICATE-----" ++ after)

-- The rules of the schema for a config.
pub record IsSchemaConfig (is_uri : Text → Bool) (cfg : Config) : Type 0 where
  pub schema_version : IsVersion cfg.schema_version
  pub https : (rest : Text) × (cfg.service_url ≡ codes "https://" ++ rest)
  pub uri : is_uri cfg.service_url ≡ true
  pub ca_cert_pem : HasMarker cfg.ca_cert_pem
  pub mounts : AreSchemaMounts cfg.mounts
  pub backend_cache_ttl : IsLifetime cfg.backend_cache_ttl

-- What the schema asks of a mount and the loader does not.
abbrev pub IsTighterMount : Mount → Type 0
IsTighterMount m = IsShort m.filesystem_id × IsShort m.memory_store_id × (m.vfs_write_back ≡ [])

abbrev AreTighterMounts : Option (List Mount) → Type 0
AreTighterMounts none = Unit
AreTighterMounts (some ms) = All IsTighterMount ms

-- What the schema asks of a config and the loader does not.
abbrev pub IsTighter : Config → Type 0
IsTighter cfg =
    HasMarker cfg.ca_cert_pem × AreTighterMounts cfg.mounts × IsLifetime cfg.backend_cache_ttl
