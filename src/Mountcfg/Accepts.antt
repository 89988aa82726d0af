-- ===== src/Mountcfg/Accepts.antt =====
-- The rules that the loader of internal/mountcfg checks, as a record, and the validation that tests them.
use ocu_rclone_filestore.Base.{
  ℕ, ◌+◌, Text, codes, Bool, true, false, not, is_empty, has_prefix, ◌≡◌, ◌≢◌, ◌↔◌, arith, List, [],
  ◌∷◌, Option, none, some, All,
}
use ocu_rclone_filestore.Base.Int.{ℤ, pos, negsuc}
use ocu_rclone_filestore.Mountcfg.Patterns.{
  matches_schema_version, matches_destination, matches_octal, matches_byte_size, is_cache_mode,
}
use ocu_rclone_filestore.Mountcfg.Validate.{
  Mount, Config, ConfigError, check, ◌<|>◌, validate_scope, validate_readonly,
  validate_cache_duration, validate_mount, validate_mounts, validate_service_url, validate_list,
  validate,
}

-- Exactly one scope id is present, and it is not empty.
abbrev pub HasScope : Option Text → Option Text → Type 0
HasScope (some fs) none = fs ≢ []
HasScope none (some mem) = mem ≢ []
HasScope none none = ⊥
HasScope (some fs) (some mem) = ⊥

abbrev pub IsPresent {ℓ} : {A : Type ℓ} → Option A → Type 0
IsPresent none = ⊥
IsPresent (some a) = Unit

abbrev pub IsNatural : Option ℤ → Type 0
IsNatural none = ⊥
IsNatural (some (pos n)) = Unit
IsNatural (some (negsuc n)) = ⊥

-- The loader's rules for one mount.
pub record IsValidMount (m : Mount) : Type 0 where
  pub destination : matches_destination m.destination ≡ true
  pub auth_token : m.auth_token ≢ []
  pub scope : HasScope m.filesystem_id m.memory_store_id
  pub readonly : IsPresent m.readonly
  pub cache_duration : IsNatural m.cache_duration_s
  pub dir_perms : matches_octal m.dir_perms ≡ true
  pub file_perms : matches_octal m.file_perms ≡ true
  pub max_size : matches_byte_size m.vfs_cache_max_size ≡ true
  pub cache_mode : is_cache_mode m.vfs_cache_mode ≡ true

abbrev pub HasValidMounts : Option (List Mount) → Type 0
HasValidMounts none = ⊥
HasValidMounts (some ms) = All IsValidMount ms

pub record IsValidConfig (is_uri : Text → Bool) (cfg : Config) : Type 0 where
  pub schema_version : matches_schema_version cfg.schema_version ≡ true
  pub https : has_prefix (codes "https://") cfg.service_url ≡ true
  pub uri : is_uri cfg.service_url ≡ true
  pub ca_cert_pem : cfg.ca_cert_pem ≢ []
  pub mounts : HasValidMounts cfg.mounts

-- The rules in a row hold exactly when each holds.
seq_iff : (a b : Option ConfigError) → ((a <|> b) ≡ none) ↔ ((a ≡ none) × (b ≡ none))
seq_iff none b = ground arith
seq_iff (some e) b = ground arith

check_iff : (b : Bool) (e : ConfigError) → (check b e ≡ none) ↔ (b ≡ true)
check_iff true e = ground arith
check_iff false e = ground arith

nonempty_iff : (t : Text) (e : ConfigError) → (check (not (is_empty t)) e ≡ none) ↔ (t ≢ [])
nonempty_iff [] e = ground arith
nonempty_iff (c ∷ t) e = ground arith

scope_iff : (i : ℕ) (fs mem : Option Text) → (validate_scope i fs mem ≡ none) ↔ HasScope fs mem
unfolding validate_scope
scope_iff i none none = ground arith
scope_iff i (some fs) (some mem) = ground arith
scope_iff i (some []) none = ground arith
scope_iff i (some (c ∷ fs)) none = ground arith
scope_iff i none (some []) = ground arith
scope_iff i none (some (c ∷ mem)) = ground arith

readonly_iff : (i : ℕ) (r : Option Bool) → (validate_readonly i r ≡ none) ↔ IsPresent r
unfolding validate_readonly
readonly_iff i none = ground arith
readonly_iff i (some b) = ground arith

duration_iff : (i : ℕ) (d : Option ℤ) → (validate_cache_duration i d ≡ none) ↔ IsNatural d
unfolding validate_cache_duration
duration_iff i none = ground arith
duration_iff i (some (pos n)) = ground arith
duration_iff i (some (negsuc n)) = ground arith

-- Two equivalences for two rules in a row.
both_iff {ℓ κ} :
    {P : Type ℓ} {Q : Type κ} (a b : Option ConfigError)
    → (a ≡ none) ↔ P
    → (b ≡ none) ↔ Q
    → ((a <|> b) ≡ none) ↔ (P × Q)
both_iff a b p q = (
  (λ h. let (ea, eb) = (seq_iff a b).0 h in (p.0 ea, q.0 eb)),
  (λ t. (seq_iff a b).1 (p.1 t.0, q.1 t.1)),
)

mount_chain_iff :
    (i : ℕ) (m : Mount)
    → (validate_mount i m ≡ none) ↔ (
        (matches_destination m.destination ≡ true)
        × ((m.auth_token ≢ [])
            × (HasScope m.filesystem_id m.memory_store_id
                × (IsPresent m.readonly
                    × (IsNatural m.cache_duration_s
                        × ((matches_octal m.dir_perms ≡ true)
                            × ((matches_octal m.file_perms ≡ true)
                                × ((matches_byte_size m.vfs_cache_max_size ≡ true)
                                    × (is_cache_mode m.vfs_cache_mode ≡ true)))))))))
unfolding validate_mount
mount_chain_iff i m = both_iff _ _ (check_iff _ _) (
    both_iff _ _ (nonempty_iff m.auth_token _) (
      both_iff _ _ (scope_iff i m.filesystem_id m.memory_store_id) (
        both_iff _ _ (readonly_iff i m.readonly) (
          both_iff _ _ (duration_iff i m.cache_duration_s) (
            both_iff _ _ (check_iff _ _)
              (both_iff _ _ (check_iff _ _) (both_iff _ _ (check_iff _ _) (check_iff _ _))))))))

pub validate_mount_iff : (i : ℕ) (m : Mount) → (validate_mount i m ≡ none) ↔ IsValidMount m
validate_mount_iff i m = (
  (λ h.
      let (d, (a, (s, (r, (c, (p, (q, (z, k)))))))) = (mount_chain_iff i m).0 h in
      record {
        destination = d;
        auth_token = a;
        scope = s;
        readonly = r;
        cache_duration = c;
        dir_perms = p;
        file_perms = q;
        max_size = z;
        cache_mode = k;
      }),
  (λ v. (mount_chain_iff i m).1 (
    v.destination,
    (
      v.auth_token,
      (
        v.scope,
        (v.readonly, (v.cache_duration, (v.dir_perms, (v.file_perms, (v.max_size, v.cache_mode))))),
      ),
    ),
  )),
)

mounts_iff : (i : ℕ) (ms : List Mount) → (validate_mounts i ms ≡ none) ↔ All IsValidMount ms
unfolding validate_mounts
mounts_iff i [] = ground arith
mounts_iff i (m ∷ ms) = both_iff _ _ (validate_mount_iff i m) (mounts_iff (i + 1) ms)

list_iff : (l : Option (List Mount)) → (validate_list l ≡ none) ↔ HasValidMounts l
unfolding validate_list
list_iff none = ground arith
list_iff (some ms) = mounts_iff 0 ms

-- The loader accepts a decoded config exactly when it keeps every rule that it checks: the version
-- pattern, an https URI, a trust anchor, the mounts key, and for each mount its destination, token,
-- single scope id, posture, cache duration, permissions, size and cache mode.
pub validate_iff :
    (is_uri : Text → Bool) (cfg : Config) → (validate is_uri cfg ≡ none) ↔ IsValidConfig is_uri cfg
unfolding validate validate_service_url
validate_iff is_uri cfg =
    let chain = both_iff _ _ (check_iff _ (ConfigError.err_schema_version cfg.schema_version)) (
      both_iff _ _
        (both_iff _ _
          (check_iff _ (ConfigError.err_service_url cfg.service_url "must begin https://"))
          (check_iff _ (ConfigError.err_service_url cfg.service_url "is not a parseable URI")))
        (both_iff _ _ (nonempty_iff cfg.ca_cert_pem (ConfigError.err_missing_field "ca_cert_pem"))
          (list_iff cfg.mounts))) in
    (
      (λ h.
          let (v, ((p, u), (c, m))) = chain.0 h in
          record { schema_version = v; https = p; uri = u; ca_cert_pem = c; mounts = m }),
      (λ v. chain.1 (v.schema_version, ((v.https, v.uri), (v.ca_cert_pem, v.mounts)))),
    )
