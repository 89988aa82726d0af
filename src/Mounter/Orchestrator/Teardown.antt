-- ===== src/Mounter/Orchestrator/Teardown.antt =====
-- The mounts and the teardown of a run of internal/mounter/orchestrator.go.
use ocu_rclone_filestore.Base.{
  ℕ, ◌+◌, Text, Bool, true, false, ◌||◌, ◌≡◌, inl, inr, refl, arith, GoError, wrap, str, Result, ok,
  err, List, [], ◌∷◌, ◌++◌, map, any_of, ◌==◌, Bool-cases, Option-cases,
}
use ocu_rclone_filestore.Mountcfg.Validate.{Mount}
use ocu_rclone_filestore.Mounter.Specs.{MountSpec, build_specs}
use ocu_rclone_filestore.Mounter.Orchestrator.{
  Action, remove_stale, create_ready, retract_ready, log_ready, mounted, failed_mount, unmount,
  saw_exit, Wake, signalled, exited, Env, Run, tear_down, without, block_until_teardown,
  after_ready, fan_out, run_specs, run, retracted,
}

abbrev pub is_mounted : ℕ → Action → Bool
is_mounted p (mounted q) = q == p
is_mounted p (unmount q) = false
is_mounted p (failed_mount q) = false
is_mounted p remove_stale = false
is_mounted p create_ready = false
is_mounted p retract_ready = false
is_mounted p log_ready = false
is_mounted p (saw_exit q) = false

-- The point is taken down, or found to have exited.
abbrev pub goes_down : ℕ → Action → Bool
goes_down p (unmount q) = q == p
goes_down p (mounted q) = false
goes_down p (failed_mount q) = false
goes_down p remove_stale = false
goes_down p create_ready = false
goes_down p retract_ready = false
goes_down p log_ready = false
goes_down p (saw_exit q) = q == p

abbrev pub is_ready : Action → Bool
is_ready create_ready = true
is_ready log_ready = true
is_ready (unmount q) = false
is_ready (mounted q) = false
is_ready (failed_mount q) = false
is_ready remove_stale = false
is_ready retract_ready = false
is_ready (saw_exit q) = false

-- The run came up with the point, or the point was up before.
abbrev was_up : ℕ → List ℕ → Run → Bool
was_up p started r = any_of (λ q. q == p) started || any_of (is_mounted p) r.actions

-- The run took the point down, or found that it had exited by itself.
abbrev pub is_gone : ℕ → Run → Bool
is_gone p r = any_of (goes_down p) r.actions

pub any_of-append {ℓ} :
    {A : Type ℓ} (f : A → Bool) (xs ys : List A)
    → any_of f (xs ++ ys) ≡ (any_of f xs || any_of f ys)
unfolding any_of
any_of-append f [] ys = refl
any_of-append f (x ∷ xs) ys = ground (arith, any_of-append f xs ys)

unmounts : (p : ℕ) (ps : List ℕ) → any_of (goes_down p) (map unmount ps) ≡ any_of (λ q. q == p) ps
unfolding any_of
unmounts p [] = refl
unmounts p (q ∷ ps) = ground (arith, unmounts p ps)

mounts_none : (p : ℕ) (ps : List ℕ) → any_of (is_mounted p) (map unmount ps) ≡ false
unfolding any_of
mounts_none p [] = refl
mounts_none p (q ∷ ps) = mounts_none p ps

pub ready_none : (ps : List ℕ) → any_of is_ready (map unmount ps) ≡ false
unfolding any_of
ready_none [] = refl
ready_none (q ∷ ps) = ready_none ps

without_or :
    (p q : ℕ) (ps : List ℕ)
    → any_of (λ r. r == p) ps ≡ true
    → (any_of (λ r. r == p) (without q ps) || q == p) ≡ true
unfolding any_of without
without_or p q [] h = cc
without_or p q (r ∷ ps) h = ground (arith, without_or p q ps)

module _ (env : Env) (p : ℕ) where
  tear_down-gone :
      (started : List ℕ) (errors : List GoError)
      → was_up p started (tear_down env started errors) ≡ true
      → is_gone p (tear_down env started errors) ≡ true
  unfolding tear_down
  tear_down-gone started errors h = ground (arith, unmounts p started, mounts_none p started)

  block-gone :
      (w : Wake) (started : List ℕ)
      → was_up p started (block_until_teardown env w started) ≡ true
      → is_gone p (block_until_teardown env w started) ≡ true
  unfolding block_until_teardown tear_down any_of
  block-gone signalled started h = ground (arith, unmounts p started, mounts_none p started)
  block-gone (exited q e) started h = ground (
    arith,
    unmounts p (without q started),
    mounts_none p (without q started),
    without_or p q started,
  )

  after_ready-gone :
      (ready : Text) (started : List ℕ)
      → was_up p started (after_ready env ready started) ≡ true
      → is_gone p (after_ready env ready started) ≡ true
  unfolding after_ready any_of
  after_ready-gone [] started h = block-gone env.wake started h
  after_ready-gone (c ∷ path) started h = elim (Option-cases env.open_error) [
    | inl e ↦ elim (Option-cases env.close_error) [
      | inl f ↦ rw (e, f) (block-gone env.wake started (rw (e, f) at h))
      | inr (d, f) ↦ rw (e, f) (tear_down-gone started (d ∷ []) (rw (e, f) at h))
    ]
    | inr (d, e) ↦ rw e (
        tear_down-gone started (wrap "create ready-file %q: %w" (str (c ∷ path) ∷ []) d ∷ [])
          (rw e at h))
  ]

  regroup :
      (started : List ℕ) (k : ℕ) (later : Bool)
      → (any_of (λ q. q == p) started || (k == p || later)) ≡ true
      → (any_of (λ q. q == p) (started ++ k ∷ []) || later) ≡ true
  unfolding any_of
  regroup started k later h = ground (arith, any_of-append (λ q. q == p) started (k ∷ []))

  fan_out-gone :
      (ready : Text) (k : ℕ) (specs : List MountSpec) (started : List ℕ)
      → was_up p started (fan_out env ready k specs started) ≡ true
      → is_gone p (fan_out env ready k specs started) ≡ true
  unfolding fan_out any_of
  fan_out-gone ready k [] started h = elim (Bool-cases (env.signal_pending k)) [
    | inl e ↦ rw e (tear_down-gone started [] (rw e at h))
    | inr e ↦ rw e (after_ready-gone ready started (rw e at h))
  ]
  fan_out-gone ready k (s ∷ specs) started h = elim (Bool-cases (env.signal_pending k)) [
    | inl e ↦ rw e (tear_down-gone started [] (rw e at h))
    | inr e ↦ elim (Option-cases (env.mount_error k)) [
      | inr (d, m) ↦
          rw (e, m)
            (tear_down-gone started (wrap "mount %q: %w" (str s.mount.destination ∷ []) d ∷ [])
              (rw (e, m) at h))
      | inl m ↦
          rw (e, m)
            (fan_out-gone ready (k + 1) specs (started ++ k ∷ []) (
              regroup started k
                (any_of (is_mounted p)
                  (fan_out env ready (k + 1) specs (started ++ k ∷ [])).actions)
                (rw (e, m) at h)))
    ]
  ]

  run_specs-gone :
      (ready : Text) (specs : Result (List MountSpec))
      → any_of (is_mounted p) (run_specs env ready specs).actions ≡ true
      → is_gone p (run_specs env ready specs) ≡ true
  unfolding run_specs any_of
  run_specs-gone ready (err e) h = cc
  run_specs-gone ready (ok []) h = cc
  run_specs-gone ready (ok (s ∷ specs)) h = fan_out-gone ready 0 (s ∷ specs) [] h

  retracted-gone :
      (r : Run)
      → (any_of (is_mounted p) r.actions ≡ true → is_gone p r ≡ true)
      → any_of (is_mounted p) (retracted r).actions ≡ true
      → is_gone p (retracted r) ≡ true
  unfolding any_of
  retracted-gone r k h =
      let up = any_of-append (is_mounted p) r.actions (retract_ready ∷ []) in
      let down = any_of-append (goes_down p) r.actions (retract_ready ∷ []) in
      ground (arith, up, down, k)

  no_points : (d : GoError) → any_of (is_mounted p) (remove_stale ∷ []) ≡ true → ⊥
  unfolding any_of
  no_points d h = cc

  -- However a run ends (a refused config, a mount that fails, a signal during or after the startup, a
  -- ready-file that cannot be created, or a point that exits), each point that came up is unmounted,
  -- or is the one that the blocking select found to have exited by itself.
  pub run-unmounts_all :
      (ready : Text) (url pem : Text) (mounts : List Mount)
      → any_of (is_mounted p) (run env ready url pem mounts).actions ≡ true
      → is_gone p (run env ready url pem mounts) ≡ true
  unfolding run
  run-unmounts_all [] url pem mounts h = run_specs-gone [] (build_specs url pem mounts) h
  run-unmounts_all (c ∷ path) url pem mounts h = elim (Option-cases env.remove_error) [
    | inl e ↦ rw e (
        retracted-gone (run_specs env (c ∷ path) (build_specs url pem mounts))
          (run_specs-gone (c ∷ path) (build_specs url pem mounts)) (rw e at h))
    | inr (d, e) ↦ absurd (no_points d (rw e at h))
  ]
