-- ===== src/Mounter/Specs.antt =====
-- internal/mounter/orchestrator.go, buildSpecs, and buildOcufsConfigmap of options.go.
pub mod Disjoint
pub mod Configured
use ocu_rclone_filestore.Base.{
  ℕ, Text, Bool, true, false, ◌||◌, Option, none, some, GoError, message, str, Result, ok, err,
  List, [], ◌∷◌, ◌++◌, any_of, text_eq, has_prefix, if◌then◌else◌, is_empty, codes,
}
use ocu_rclone_filestore.Base.Paths.{slash, clean}
use ocu_rclone_filestore.Mountcfg.Validate.{Mount}

pub record MountSpec : Type 0 where
  pub mount : Mount
  pub read_only : Bool
  pub service_url : Text
  pub ca_cert_pem : Text

abbrev pub read_only_of : Option Bool → Bool
read_only_of none = false
read_only_of (some b) = b

-- One of two cleaned destinations lies below the other, at a separator.
abbrev pub is_nested : Text → Text → Bool
is_nested cleaned prior =
    has_prefix (prior ++ slash ∷ []) cleaned || has_prefix (cleaned ++ slash ∷ []) prior

-- The destination that the refusal names: the map may yield any of those that are nested, and here it
-- is the last one added.
abbrev nested_prior : Text → List Text → Text
nested_prior cleaned [] = []
nested_prior cleaned (prior ∷ seen) =
    if is_nested cleaned prior then prior else nested_prior cleaned seen

-- A mount that buildSpecs refuses, given the cleaned destinations before it.
unfoldable pub refuse_mount : List Text → Mount → Option GoError
unfolding any_of text_eq has_prefix clean
refuse_mount seen m =
    let cleaned = clean m.destination in
    elim m.memory_store_id [
      | some id ↦ some (
          message "mount %q: memory-store mounts are not yet supported (no memory scope axis)"
            (str m.destination ∷ []))
      | none ↦
          if any_of (text_eq cleaned) seen
          then some (
              message
                "mount %q: duplicate destination across mounts (a second mount would silently shadow the first)"
                (str m.destination ∷ []))
          else if any_of (is_nested cleaned) seen
          then some (
              message
                "mount %q: destination is nested with %q (the later mount's pre-mount inspection would traverse the earlier live mount)"
                (str m.destination ∷ str (nested_prior cleaned seen) ∷ []))
          else none
    ]

abbrev pub spec_of : Text → Text → Mount → MountSpec
spec_of service_url ca_cert_pem m = record {
  mount = m;
  read_only = read_only_of m.readonly;
  service_url = service_url;
  ca_cert_pem = ca_cert_pem;
}

abbrev pub cons_spec : MountSpec → Result (List MountSpec) → Result (List MountSpec)
cons_spec s (ok specs) = ok (s ∷ specs)
cons_spec s (err e) = err e

abbrev pub unless_refused : Option GoError → Result (List MountSpec) → Result (List MountSpec)
unless_refused none rest = rest
unless_refused (some e) rest = err e

-- The loop over the mounts; `seen` holds the cleaned destinations before, the last one first.
unfoldable pub build_from : Text → Text → List Text → List Mount → Result (List MountSpec)
unfolding refuse_mount clean
build_from service_url ca_cert_pem seen [] = ok []
build_from service_url ca_cert_pem seen (m ∷ ms) = unless_refused (refuse_mount seen m) (
    cons_spec (spec_of service_url ca_cert_pem m)
      (build_from service_url ca_cert_pem (clean m.destination ∷ seen) ms))

unfoldable pub build_specs : Text → Text → List Mount → Result (List MountSpec)
unfolding build_from
build_specs service_url ca_cert_pem mounts = build_from service_url ca_cert_pem [] mounts

-- The keys that the backend's options are read from.
pub record OcufsConfigmap : Type 0 where
  pub service_url : Text
  pub auth_token : Text
  pub ca_cert_pem : Text
  pub filesystem_id : Text
  pub read_only : Bool

unfoldable pub build_ocufs_configmap : Mount → Bool → Text → Text → Result OcufsConfigmap
build_ocufs_configmap m read_only service_url ca_cert_pem = elim m.memory_store_id [
  | some id ↦ err (
      message "mount %q: memory-store mounts are not yet supported (no memory scope axis)"
        (str m.destination ∷ []))
  | none ↦ elim m.filesystem_id [
    | none ↦ err (message "mount %q: filesystem_id is required" (str m.destination ∷ []))
    | some [] ↦ err (message "mount %q: filesystem_id is required" (str m.destination ∷ []))
    | some (c ∷ id) ↦ ok (record {
      service_url = service_url;
      auth_token = m.auth_token;
      ca_cert_pem = ca_cert_pem;
      filesystem_id = c ∷ id;
      read_only = read_only;
    })
  ]
]
