-- ===== src/Mounter/Orchestrator/Shutdown.antt =====
-- A run of internal/mounter/orchestrator.go that a signal ends, over the points of realpoint.go.
use ocu_rclone_filestore.Base.{
  ℕ, ◌+◌, Text, false, ◌≡◌, inl, inr, refl, ◌∙◌, Option, none, GoError, ok, List, [], ◌∷◌, ◌++◌,
  Bool-cases,
}
use ocu_rclone_filestore.Mountcfg.Validate.{Mount}
use ocu_rclone_filestore.Mounter.Specs.{MountSpec, build_specs}
use ocu_rclone_filestore.Mounter.Point.{RealPoint, unmount, real}
use ocu_rclone_filestore.Mounter.Point.Once.{IsClean, unmount_verdict-IsClean, unmount_fresh}
use ocu_rclone_filestore.Mounter.Orchestrator.{
  signalled, Env, join_errors, unmount_errors, tear_down, block_until_teardown, after_ready,
  fan_out, run_specs, run,
}

-- The unmounts of the orchestrator are those of fresh points, whose detaches end like this.
abbrev pub IsOver : Env → (ℕ → RealPoint) → (ℕ → Option (Option GoError)) → Type 0
IsOver env points detached =
    (p : ℕ)
    → ((points p).done ≡ false) × (env.unmount_error p ≡ (unmount (detached p) (real (points p))).2)

-- Nothing else goes wrong, and what the blocking select finds is a signal.
pub record GoesWell (env : Env) : Type 0 where
  pub removed : env.remove_error ≡ none
  pub mounts : (k : ℕ) → env.mount_error k ≡ none
  pub opened : env.open_error ≡ none
  pub closed : env.close_error ≡ none
  pub woken : env.wake ≡ signalled

unmounts_well :
    (env : Env) (points : ℕ → RealPoint) (detached : ℕ → Option (Option GoError))
    → IsOver env points detached
    → ((p : ℕ) → IsClean (detached p))
    → (p : ℕ) → env.unmount_error p ≡ none
unmounts_well env points detached over clean p =
    let (fresh, same) = over p in
    same
    ∙ unmount_fresh (detached p) (points p) fresh
    ∙ (unmount_verdict-IsClean (detached p)).1 (clean p)

module _ (env : Env) (well : GoesWell env) (quiet : (p : ℕ) → env.unmount_error p ≡ none) where
  unmount_errors-none : (ps : List ℕ) → unmount_errors env ps ≡ []
  unfolding unmount_errors
  unmount_errors-none [] = refl
  unmount_errors-none (p ∷ ps) = rw (quiet p) (unmount_errors-none ps)

  tear_down-none : (ps : List ℕ) → (tear_down env ps []).result ≡ none
  unfolding tear_down join_errors
  tear_down-none ps = rw (unmount_errors-none ps) refl

  block_none : (started : List ℕ) → (block_until_teardown env env.wake started).result ≡ none
  unfolding block_until_teardown
  block_none started = rw well.woken (tear_down-none started)

  after_ready-none : (path : Text) (started : List ℕ) → (after_ready env path started).result ≡ none
  unfolding after_ready
  after_ready-none [] started = block_none started
  after_ready-none (c ∷ path) started = rw (well.opened, well.closed) (block_none started)

  fan_out-none :
      (path : Text) (k : ℕ) (specs : List MountSpec) (started : List ℕ)
      → (fan_out env path k specs started).result ≡ none
  unfolding fan_out
  fan_out-none path k [] started = elim (Bool-cases (env.signal_pending k)) [
    | inl e ↦ rw e (tear_down-none started)
    | inr e ↦ rw e (after_ready-none path started)
  ]
  fan_out-none path k (s ∷ specs) started = elim (Bool-cases (env.signal_pending k)) [
    | inl e ↦ rw e (tear_down-none started)
    | inr e ↦ rw (e, well.mounts k) (fan_out-none path (k + 1) specs (started ++ k ∷ []))
  ]

  run_specs-none :
      (path : Text) (specs : List MountSpec) → (run_specs env path (ok specs)).result ≡ none
  unfolding run_specs
  run_specs-none path [] = refl
  run_specs-none path (s ∷ specs) = fan_out-none path 0 (s ∷ specs) []

-- When the specs are built, every mount comes up, the ready-file can be seen to, and no point exits
-- by itself, the run ends with no error whenever the signal comes, during the startup or after it, as
-- long as each detach reports no error, or the error of a detach that did not return, or does not
-- return in time.
pub run-ShutsDown :
    (env : Env) (points : ℕ → RealPoint) (detached : ℕ → Option (Option GoError))
    (path url pem : Text) (mounts : List Mount) (specs : List MountSpec)
    → build_specs url pem mounts ≡ ok specs
    → GoesWell env
    → IsOver env points detached
    → ((p : ℕ) → IsClean (detached p))
    → (run env path url pem mounts).result ≡ none
unfolding run
run-ShutsDown env points detached [] url pem mounts specs built well over clean =
    rw built (run_specs-none env well (unmounts_well env points detached over clean) [] specs)
run-ShutsDown env points detached (c ∷ path) url pem mounts specs built well over clean =
    rw (well.removed, built)
      (run_specs-none env well (unmounts_well env points detached over clean) (c ∷ path) specs)
