-- ===== src/Mounter/Direct/Served.antt =====
-- The server of the direct mount in internal/mounter/directmount.go.
use ocu_rclone_filestore.Base.{
  ℕ, Text, Bool, ◌≡◌, ◌≢◌, ◌⊎◌, inl, inr, ◌↔◌, refl, arith, Option, none, some, GoError, Result, ok,
  err, List, [], ◌∷◌, Option-cases, Result-cases,
}
use ocu_rclone_filestore.Mounter.Direct.{
  MountOptions, FuseMountOptions, linux, build_fuse_mount_options, apply_read_only, NodeOptions,
  FuseAction, new_server, serve, shutdown_vfs, unmount_kernel, DirectEnv, direct_mount, assemble,
  serve_options, unless_error, base_options, with_strings, build_node_fs_options,
}
use ocu_rclone_filestore.Mounter.Direct.Strict.{IsSupported, built_options, build_options}

-- The attempt ended with every step of it, on options that the frontend takes.
abbrev pub Clear : DirectEnv → MountOptions → Type 0
Clear env opt =
    (env.overlap_error ≡ none)
    × (env.non_empty_error ≡ none)
    × (env.root_error ≡ none)
    × (env.server_error ≡ none)
    × (env.wait_error ≡ none)
    × IsSupported opt

-- What an attempt may come to: an error before the server, an error after which the VFS was shut
-- down and then the kernel mount detached, or a server that serves.
abbrev pub Outcome : NodeOptions → List FuseAction × Option GoError → Type 0
Outcome node (actions, error) =
    ((actions ≡ []) × (error ≢ none))
    ⊎ ((actions ≡ new_server node ∷ serve ∷ shutdown_vfs ∷ unmount_kernel ∷ []) × (error ≢ none))
    ⊎ ((actions ≡ new_server node ∷ serve ∷ []) × (error ≡ none))

unless_error-Outcome :
    (node : NodeOptions) (e : Option GoError) (r : List FuseAction × Option GoError)
    → Outcome node r
    → Outcome node (unless_error e r)
unless_error-Outcome node none r h = h
unless_error-Outcome node (some e) r h = inl (refl, ground arith)

serve_options-Outcome :
    (env : DirectEnv) (mountpoint : Text) (node : NodeOptions)
    → Outcome node (serve_options env mountpoint node)
serve_options-Outcome env mountpoint node = elim (Option-cases env.server_error) [
  | inr (e, h) ↦ rw h (inl (refl, ground arith))
  | inl h ↦ rw h (elim (Option-cases env.wait_error) [
    | inr (e, h') ↦ rw h' (inr (inl (refl, ground arith)))
    | inl h' ↦ rw h' (inr (inr (refl, refl)))
  ])
]

-- The node options that a mount on Linux gets, where it gets any.
abbrev pub node_for : Bool → ℕ → ℕ → MountOptions → NodeOptions
node_for read_only uid gid opt =
    build_node_fs_options uid gid opt
      (with_strings linux opt (apply_read_only linux (base_options opt) read_only))

refused-or-built :
    (read_only : Bool) (opt : MountOptions)
    → ((e : GoError) × (build_fuse_mount_options linux read_only opt ≡ err e)) ⊎ IsSupported opt
refused-or-built read_only opt =
    elim (Result-cases (build_fuse_mount_options linux read_only opt)) [
      | inl (mo, h) ↦ inr (built_options read_only opt mo h)
      | inr (e, h) ↦ inl (e, h)
    ]

assemble-Outcome :
    (env : DirectEnv) (mountpoint : Text) (read_only : Bool) (uid gid : ℕ) (opt : MountOptions)
    → Outcome
        (node_for read_only uid gid opt)
        (assemble env mountpoint uid gid opt (build_fuse_mount_options linux read_only opt))
assemble-Outcome env mountpoint read_only uid gid opt = elim (refused-or-built read_only opt) [
  | inl (e, h) ↦ rw h (inl (refl, ground arith))
  | inr clear ↦
      rw (build_options read_only opt clear)
        (serve_options-Outcome env mountpoint (node_for read_only uid gid opt))
]

serve_options-none :
    (env : DirectEnv) (mountpoint : Text) (node : NodeOptions)
    → (serve_options env mountpoint node).1 ≡ none
    → (env.server_error ≡ none) × (env.wait_error ≡ none)
serve_options-none env mountpoint node h = ground arith

assemble-none :
    (env : DirectEnv) (mountpoint : Text) (uid gid : ℕ) (opt : MountOptions)
    → (r : Result FuseMountOptions) → (assemble env mountpoint uid gid opt r).1 ≡ none
    → ((mo : FuseMountOptions) × (r ≡ ok mo)) × (env.server_error ≡ none) × (env.wait_error ≡ none)
assemble-none env mountpoint uid gid opt (err e) h = absurd (ground arith)
assemble-none env mountpoint uid gid opt (ok mo) h =
    let (served, waited) =
      serve_options-none env mountpoint (build_node_fs_options uid gid opt mo) h in
    ((mo, refl), served, waited)

unless_error-none :
    (e : Option GoError) (r : List FuseAction × Option GoError)
    → ((unless_error e r).1 ≡ none) ↔ ((e ≡ none) × (r.1 ≡ none))
unless_error-none none r = (λ h. (refl, h), λ (_, h). h)
unless_error-none (some e) r = (λ h. absurd (ground arith), λ (h, _). absurd (ground arith))

assemble_clear :
    (env : DirectEnv) (mountpoint : Text) (read_only : Bool) (uid gid : ℕ) (opt : MountOptions)
    → ((assemble env mountpoint uid gid opt (build_fuse_mount_options linux read_only opt)).1
        ≡ none)
      ↔ ((env.server_error ≡ none) × (env.wait_error ≡ none) × IsSupported opt)
assemble_clear env mountpoint read_only uid gid opt = (
  λ h.
      let ((mo, built), served, waited) = assemble-none env mountpoint uid gid opt _ h in
      (served, waited, built_options read_only opt mo built),
  λ (served, waited, clear). rw (build_options read_only opt clear, served, waited) refl,
)

-- A mount on Linux serves exactly when every step of it ends well on options that the frontend
-- takes. Otherwise it returns an error, and either no server was made, or the VFS was shut down and
-- then the detach of the kernel mount called for, the error of which the code drops.
pub direct_mount-Outcome :
    (env : DirectEnv) (mountpoint : Text) (read_only : Bool) (uid gid : ℕ) (opt : MountOptions)
    → Outcome
        (node_for read_only uid gid opt)
        (direct_mount env linux mountpoint read_only uid gid opt)
      × (((direct_mount env linux mountpoint read_only uid gid opt).1 ≡ none) ↔ Clear env opt)
unfolding direct_mount
direct_mount-Outcome env mountpoint read_only uid gid opt =
    let r = assemble env mountpoint uid gid opt (build_fuse_mount_options linux read_only opt) in
    let outcome : Outcome (node_for read_only uid gid opt)
        (direct_mount env linux mountpoint read_only uid gid opt) =
      unless_error-Outcome _ env.overlap_error _ (
        unless_error-Outcome _ env.non_empty_error _ (
          unless_error-Outcome _ env.root_error _
            (assemble-Outcome env mountpoint read_only uid gid opt))) in
    (
      outcome,
      (
        λ h.
            let (e1, h1) = (unless_error-none env.overlap_error _).0 h in
            let (e2, h2) = (unless_error-none env.non_empty_error _).0 h1 in
            let (e3, h3) = (unless_error-none env.root_error _).0 h2 in
            let (e4, e5, clear) = (assemble_clear env mountpoint read_only uid gid opt).0 h3 in
            (e1, e2, e3, e4, e5, clear),
        λ (e1, e2, e3, e4, e5, clear).
            rw (e1, e2, e3)
              ((assemble_clear env mountpoint read_only uid gid opt).1 (e4, e5, clear)),
      ),
    )
