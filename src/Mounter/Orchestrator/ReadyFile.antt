-- ===== src/Mounter/Orchestrator/ReadyFile.antt =====
-- The ready-file over a run of internal/mounter/orchestrator.go.
use ocu_rclone_filestore.Base.{
  ℕ, ◌+◌, Text, Bool, true, false, ◌≡◌, ◌⊎◌, inl, inr, refl, ap, none, GoError, wrap, str, ok, List,
  [], ◌∷◌, ◌++◌, map, any_of, all_of, Bool-cases, Option-cases,
}
use ocu_rclone_filestore.Mountcfg.Validate.{Mount}
use ocu_rclone_filestore.Mounter.Specs.{MountSpec, build_specs}
use ocu_rclone_filestore.Mounter.Orchestrator.{
  Action, remove_stale, create_ready, retract_ready, log_ready, mounted, failed_mount, unmount,
  saw_exit, Wake, signalled, exited, Env, Run, tear_down, without, block_until_teardown,
  after_ready, fan_out, run_specs, run, behind,
}
use ocu_rclone_filestore.Mounter.Orchestrator.Teardown.{is_ready, ready_none}

-- The specs from the index on come up, in their order.
abbrev pub all_mounted : ℕ → List MountSpec → List Action
all_mounted k [] = []
all_mounted k (s ∷ specs) = mounted k ∷ all_mounted (k + 1) specs

-- A point goes down, or is seen to have exited.
abbrev pub is_down : Action → Bool
is_down (unmount p) = true
is_down (saw_exit p) = true
is_down (mounted k) = false
is_down (failed_mount k) = false
is_down remove_stale = false
is_down create_ready = false
is_down retract_ready = false
is_down log_ready = false

-- The file is not made; or it is made behind all the mounts, with nothing but teardown after it.
abbrev pub IsMadeOnce : ℕ → List MountSpec → List Action → Type 0
IsMadeOnce k specs actions =
    (any_of is_ready actions ≡ false)
    ⊎ (rest : List Action) × (actions ≡ all_mounted k specs ++ create_ready ∷ rest)
      × (all_of is_down rest ≡ true)

all_unmounts : (ps : List ℕ) → all_of is_down (map unmount ps) ≡ true
unfolding all_of
all_unmounts [] = refl
all_unmounts (p ∷ ps) = all_unmounts ps

module _ (env : Env) where
  block-is_down :
      (w : Wake) (started : List ℕ)
      → all_of is_down (block_until_teardown env w started).actions ≡ true
  unfolding block_until_teardown tear_down all_of
  block-is_down signalled started = all_unmounts started
  block-is_down (exited p e) started = all_unmounts (without p started)

  tear_down-IsMadeOnce :
      (k : ℕ) (specs : List MountSpec) (started : List ℕ) (es : List GoError)
      → IsMadeOnce k specs (tear_down env started es).actions
  unfolding tear_down
  tear_down-IsMadeOnce k specs started es = inl (ready_none started)

  tear_down-is_down :
      (started : List ℕ) (es : List GoError)
      → all_of is_down (tear_down env started es).actions ≡ true
  unfolding tear_down
  tear_down-is_down started es = all_unmounts started

  after_ready-IsMadeOnce :
      (k : ℕ) (c : ℕ) (path : Text) (started : List ℕ)
      → IsMadeOnce k [] (after_ready env (c ∷ path) started).actions
  unfolding after_ready
  after_ready-IsMadeOnce k c path started = elim (Option-cases env.open_error) [
    | inl e ↦ elim (Option-cases env.close_error) [
      | inl f ↦ rw (e, f) (inr (_, refl, block-is_down env.wake started))
      | inr (d, f) ↦ rw (e, f) (inr (_, refl, tear_down-is_down started (d ∷ [])))
    ]
    | inr (d, e) ↦ rw e (
        tear_down-IsMadeOnce k [] started
          (wrap "create ready-file %q: %w" (str (c ∷ path) ∷ []) d ∷ []))
  ]

  mounted-IsMadeOnce :
      (k : ℕ) (s : MountSpec) (specs : List MountSpec) (r : Run)
      → IsMadeOnce (k + 1) specs r.actions
      → IsMadeOnce k (s ∷ specs) (behind (mounted k) r).actions
  unfolding any_of
  mounted-IsMadeOnce k s specs r (inl quiet) = inl quiet
  mounted-IsMadeOnce k s specs r (inr (rest, e, down)) = inr (rest, ap (◌∷◌ (mounted k)) e, down)

  failed_mount-IsMadeOnce :
      (k : ℕ) (specs : List MountSpec) (started : List ℕ) (es : List GoError)
      → IsMadeOnce k specs (behind (failed_mount k) (tear_down env started es)).actions
  unfolding tear_down any_of
  failed_mount-IsMadeOnce k specs started es = inl (ready_none started)

  fan_out-IsMadeOnce :
      (c : ℕ) (path : Text) (k : ℕ) (specs : List MountSpec) (started : List ℕ)
      → IsMadeOnce k specs (fan_out env (c ∷ path) k specs started).actions
  unfolding fan_out any_of
  fan_out-IsMadeOnce c path k [] started = elim (Bool-cases (env.signal_pending k)) [
    | inl e ↦ rw e (tear_down-IsMadeOnce k [] started [])
    | inr e ↦ rw e (after_ready-IsMadeOnce k c path started)
  ]
  fan_out-IsMadeOnce c path k (s ∷ specs) started = elim (Bool-cases (env.signal_pending k)) [
    | inl e ↦ rw e (tear_down-IsMadeOnce k (s ∷ specs) started [])
    | inr e ↦ elim (Option-cases (env.mount_error k)) [
      | inl up ↦
          rw (e, up)
            (mounted-IsMadeOnce k s specs (fan_out env (c ∷ path) (k + 1) specs (started ++ k ∷ []))
              (fan_out-IsMadeOnce c path (k + 1) specs (started ++ k ∷ [])))
      | inr (d, failed) ↦
          rw (e, failed)
            (failed_mount-IsMadeOnce k (s ∷ specs) started
              (wrap "mount %q: %w" (str s.mount.destination ∷ []) d ∷ []))
    ]
  ]

  -- With a ready-file configured, and the stale one of an earlier run removed, a run over at least one
  -- spec removes the file last; in between it makes the file at most once, and only behind the mounts
  -- of all the specs, in their order, with nothing but exits and unmounts after it: the file is still
  -- there while the points go down.
  pub run-RetractsLast :
      (c : ℕ) (path url pem : Text) (mounts : List Mount) (s : MountSpec) (specs : List MountSpec)
      → build_specs url pem mounts ≡ ok (s ∷ specs)
      → env.remove_error ≡ none
      → (actions : List Action) × ((run env (c ∷ path) url pem mounts).actions
          ≡ remove_stale ∷ actions ++ retract_ready ∷ [])
        × IsMadeOnce 0 (s ∷ specs) actions
  unfolding run run_specs
  run-RetractsLast c path url pem mounts s specs built removed = (
    (fan_out env (c ∷ path) 0 (s ∷ specs) []).actions,
    rw (removed, built) refl,
    fan_out-IsMadeOnce c path 0 (s ∷ specs) [],
  )
