-- ===== src/Mountcfg/Validate.antt =====
-- internal/mountcfg/mountcfg.go and errors.go: the config and its validation, which stops at the
-- first rule broken. `nil` pointers and slices are `none`.
use Prim.Native.String.{String}
use ocu_rclone_filestore.Base.{
  ℕ, ◌+◌, Text, codes, Bool, true, false, not, is_empty, has_prefix, if◌then◌else◌, [], ◌∷◌, List,
  Option, none, some,
}
use ocu_rclone_filestore.Base.Int.{ℤ, pos, negsuc}
use ocu_rclone_filestore.Mountcfg.Patterns.{
  matches_schema_version, matches_destination, matches_octal, matches_byte_size, is_cache_mode,
}

pub record Mount : Type 0 where
  pub destination : Text
  pub auth_token : Text
  pub filesystem_id : Option Text
  pub memory_store_id : Option Text
  pub readonly : Option Bool
  pub vfs_cache_mode : Text
  pub cache_duration_s : Option ℤ
  pub vfs_cache_max_size : Text
  pub dir_perms : Text
  pub file_perms : Text
  pub vfs_write_back : Text

pub record Config : Type 0 where
  pub schema_version : Text
  pub service_url : Text
  pub ca_cert_pem : Text
  pub mounts : Option (List Mount)
  pub backend_cache_ttl : Option ℤ

pub data ConfigError : Type 0 where
  err_schema_version : Text → ConfigError
  err_service_url : Text → String → ConfigError
  err_destination : ℕ → Text → ConfigError
  err_mount_scope : ℕ → Bool → Bool → ConfigError
  err_scope_id : ℕ → String → ConfigError
  err_perms : ℕ → String → Text → ConfigError
  err_byte_size : ℕ → Text → ConfigError
  err_cache_mode : ℕ → Text → ConfigError
  err_auth_token : ℕ → ConfigError
  err_readonly_missing : ℕ → ConfigError
  err_cache_duration_missing : ℕ → ConfigError
  err_cache_duration : ℕ → ℤ → ConfigError
  err_missing_field : String → ConfigError

-- The scope rules, on the presence of the two ids: exactly one, and not empty.
unfoldable pub validate_scope : ℕ → Option Text → Option Text → Option ConfigError
validate_scope i none none = some (err_mount_scope i false false)
validate_scope i (some fs) (some mem) = some (err_mount_scope i true true)
validate_scope i (some fs) none =
    if is_empty fs then some (err_scope_id i "filesystem_id") else none
validate_scope i none (some mem) =
    if is_empty mem then some (err_scope_id i "memory_store_id") else none

unfoldable pub validate_readonly : ℕ → Option Bool → Option ConfigError
validate_readonly i none = some (err_readonly_missing i)
validate_readonly i (some b) = none

unfoldable pub validate_cache_duration : ℕ → Option ℤ → Option ConfigError
validate_cache_duration i none = some (err_cache_duration_missing i)
validate_cache_duration i (some (pos n)) = none
validate_cache_duration i (some (negsuc n)) = some (err_cache_duration i (negsuc n))

-- A rule that holds when the test passes.
abbrev pub check : Bool → ConfigError → Option ConfigError
check true e = none
check false e = some e

-- The first error of two rules in a row.
infixr 30 ◌<|>◌
abbrev pub ◌<|>◌ : Option ConfigError → Option ConfigError → Option ConfigError
none <|> next = next
some e <|> next = some e

unfoldable pub validate_mount : ℕ → Mount → Option ConfigError
unfolding validate_scope validate_readonly validate_cache_duration
validate_mount i m =
    check (matches_destination m.destination) (err_destination i m.destination)
    <|> check (not (is_empty m.auth_token)) (err_auth_token i)
    <|> validate_scope i m.filesystem_id m.memory_store_id
    <|> validate_readonly i m.readonly
    <|> validate_cache_duration i m.cache_duration_s
    <|> check (matches_octal m.dir_perms) (err_perms i "dir_perms" m.dir_perms)
    <|> check (matches_octal m.file_perms) (err_perms i "file_perms" m.file_perms)
    <|> check (matches_byte_size m.vfs_cache_max_size) (err_byte_size i m.vfs_cache_max_size)
    <|> check (is_cache_mode m.vfs_cache_mode) (err_cache_mode i m.vfs_cache_mode)

-- The loop over the mounts, from the index of the first.
unfoldable pub validate_mounts : ℕ → List Mount → Option ConfigError
unfolding validate_mount
validate_mounts i [] = none
validate_mounts i (m ∷ ms) = validate_mount i m <|> validate_mounts (i + 1) ms

-- `is_uri` is whether url.ParseRequestURI accepts.
unfoldable pub validate_service_url : (Text → Bool) → Text → Option ConfigError
unfolding has_prefix
validate_service_url is_uri raw =
    check (has_prefix (codes "https://") raw) (err_service_url raw "must begin https://")
    <|> check (is_uri raw) (err_service_url raw "is not a parseable URI")

unfoldable pub validate_list : Option (List Mount) → Option ConfigError
unfolding validate_mounts
validate_list none = some (err_missing_field "mounts")
validate_list (some ms) = validate_mounts 0 ms

unfoldable pub validate : (Text → Bool) → Config → Option ConfigError
unfolding validate_service_url validate_list
validate is_uri cfg =
    check (matches_schema_version cfg.schema_version) (err_schema_version cfg.schema_version)
    <|> validate_service_url is_uri cfg.service_url
    <|> check (not (is_empty cfg.ca_cert_pem)) (err_missing_field "ca_cert_pem")
    <|> validate_list cfg.mounts
