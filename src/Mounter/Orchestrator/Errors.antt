-- ===== src/Mounter/Orchestrator/Errors.antt =====
-- The error of a run of internal/mounter/orchestrator.go.
use ocu_rclone_filestore.Base.{
  ℕ, ◌+◌, Text, Bool, true, false, ◌||◌, ◌≡◌, inl, inr, refl, ap, sym, ◌∙◌, arith, Option, none,
  some, GoError, wrap, str, is, Sentinel, Result, ok, err, List, [], ◌∷◌, ◌++◌, map, any_of,
  Bool-cases, Option-cases,
}
use ocu_rclone_filestore.Mountcfg.Validate.{Mount}
use ocu_rclone_filestore.Mounter.Specs.{MountSpec, build_specs}
use ocu_rclone_filestore.Mounter.Orchestrator.{
  Action, remove_stale, create_ready, retract_ready, log_ready, mounted, failed_mount, unmount,
  saw_exit, Wake, signalled, exited, Env, Run, join_errors, unmount_errors, tear_down, without,
  exit_errors, block_until_teardown, after_ready, fan_out, run_specs, run, retracted,
}
use ocu_rclone_filestore.Mounter.Orchestrator.Teardown.{any_of-append}

-- errors.Is on an error that may be nil.
abbrev pub finds : Sentinel → Option GoError → Bool
finds s none = false
finds s (some e) = is e s

abbrev pub exit_of : Wake → Option GoError
exit_of signalled = none
exit_of (exited p e) = e

-- The error with which an action has ended.
abbrev pub error_of : Env → Action → Option GoError
error_of env (unmount p) = env.unmount_error p
error_of env (failed_mount k) = env.mount_error k
error_of env (saw_exit p) = exit_of env.wake
error_of env (mounted k) = none
error_of env remove_stale = none
error_of env create_ready = none
error_of env retract_ready = none
error_of env log_ready = none

join_errors-finds :
    (s : Sentinel) (es : List GoError) → finds s (join_errors es) ≡ any_of (λ e. is e s) es
unfolding join_errors any_of
join_errors-finds s [] = refl
join_errors-finds s (e ∷ []) = ground arith
join_errors-finds s (e ∷ d ∷ ds) = elim (Option-cases (join_errors (d ∷ ds))) [
  | inl h ↦ (let ih = join_errors-finds s (d ∷ ds) in rw h (ground (arith, rw h at ih)))
  | inr (r, h) ↦ (let ih = join_errors-finds s (d ∷ ds) in rw h (ground (arith, rw h at ih)))
]

module _ (env : Env) (s : Sentinel) where
  -- Some action of the run has ended with such an error.
  abbrev pub has_met : Run → Bool
  has_met r = any_of (λ a. finds s (error_of env a)) r.actions

  unmounts_find :
      (ps : List ℕ)
      → any_of (λ a. finds s (error_of env a)) (map unmount ps)
        ≡ any_of (λ e. is e s) (unmount_errors env ps)
  unfolding any_of unmount_errors
  unmounts_find [] = refl
  unmounts_find (p ∷ ps) = elim (Option-cases (env.unmount_error p)) [
    | inl h ↦ rw h (unmounts_find ps)
    | inr (e, h) ↦ rw h (ap (λ b. is e s || b) (unmounts_find ps))
  ]

  tear_down-finds :
      (ps : List ℕ) (es : List GoError)
      → finds s (tear_down env ps es).result
        ≡ (any_of (λ e. is e s) es || has_met (tear_down env ps es))
  unfolding tear_down
  tear_down-finds ps es =
      join_errors-finds s (es ++ unmount_errors env ps)
      ∙ any_of-append (λ e. is e s) es (unmount_errors env ps)
      ∙ ap (λ b. any_of (λ e. is e s) es || b) (sym (unmounts_find ps))

  -- The error of the run has every such error in it.
  abbrev pub Keeps : Run → Type 0
  Keeps r = has_met r ≡ true → finds s r.result ≡ true

  tear_down-Keeps : (ps : List ℕ) (es : List GoError) → Keeps (tear_down env ps es)
  tear_down-Keeps ps es h = ground (arith, tear_down-finds ps es)

  exit_errors-finds :
      (dest : Text) (e : Option GoError) → any_of (λ d. is d s) (exit_errors dest e) ≡ finds s e
  unfolding any_of
  exit_errors-finds dest none = refl
  exit_errors-finds dest (some e) = ground arith

  block-Keeps :
      (w : Wake) (started : List ℕ) → env.wake ≡ w → Keeps (block_until_teardown env w started)
  unfolding block_until_teardown any_of
  block-Keeps signalled started woken h = tear_down-Keeps started [] h
  block-Keeps (exited p e) started woken h =
      let found = tear_down-finds (without p started) (exit_errors (env.destination p) e) in
      ground (arith, found, exit_errors-finds (env.destination p) e, rw woken at h)

  after_ready-Keeps : (path : Text) (started : List ℕ) → Keeps (after_ready env path started)
  unfolding after_ready any_of
  after_ready-Keeps [] started h = block-Keeps env.wake started refl h
  after_ready-Keeps (c ∷ path) started h = elim (Option-cases env.open_error) [
    | inl e ↦ elim (Option-cases env.close_error) [
      | inl f ↦ rw (e, f) (block-Keeps env.wake started refl (rw (e, f) at h))
      | inr (d, f) ↦ rw (e, f) (tear_down-Keeps started (d ∷ []) (rw (e, f) at h))
    ]
    | inr (d, e) ↦ rw e (
        tear_down-Keeps started (wrap "create ready-file %q: %w" (str (c ∷ path) ∷ []) d ∷ [])
          (rw e at h))
  ]

  fan_out-Keeps :
      (path : Text) (k : ℕ) (specs : List MountSpec) (started : List ℕ)
      → Keeps (fan_out env path k specs started)
  unfolding fan_out any_of
  fan_out-Keeps path k [] started h = elim (Bool-cases (env.signal_pending k)) [
    | inl e ↦ rw e (tear_down-Keeps started [] (rw e at h))
    | inr e ↦ rw e (after_ready-Keeps path started (rw e at h))
  ]
  fan_out-Keeps path k (m ∷ specs) started h = elim (Bool-cases (env.signal_pending k)) [
    | inl e ↦ rw e (tear_down-Keeps started [] (rw e at h))
    | inr e ↦ elim (Option-cases (env.mount_error k)) [
      | inl up ↦ rw (e, up) (fan_out-Keeps path (k + 1) specs (started ++ k ∷ []) (rw (e, up) at h))
      | inr (d, failed) ↦
          let found =
            tear_down-finds started (wrap "mount %q: %w" (str m.mount.destination ∷ []) d ∷ []) in
          rw (e, failed) (ground (arith, found, rw (e, failed) at h))
    ]
  ]

  run_specs-Keeps :
      (path : Text) (specs : Result (List MountSpec)) → Keeps (run_specs env path specs)
  unfolding run_specs any_of
  run_specs-Keeps path (err e) h = cc
  run_specs-Keeps path (ok []) h = cc
  run_specs-Keeps path (ok (m ∷ specs)) h = fan_out-Keeps path 0 (m ∷ specs) [] h

  retracted-has_met : (r : Run) → has_met (retracted r) ≡ has_met r
  unfolding any_of
  retracted-has_met r =
      ground (arith, any_of-append (λ a. finds s (error_of env a)) r.actions (retract_ready ∷ []))

  no_errors_yet :
      (e : GoError) → has_met (record { actions = remove_stale ∷ []; result = some e }) ≡ true → ⊥
  unfolding any_of
  no_errors_yet e h = cc

  -- However a run ends, no error that it has met is lost: what errors.Is finds in the error of a mount
  -- that failed, of the point that exited by itself, or of an unmount, it finds in the error of the
  -- run too.
  pub run-KeepsErrors :
      (path url pem : Text) (mounts : List Mount)
      → has_met (run env path url pem mounts) ≡ true
      → finds s (run env path url pem mounts).result ≡ true
  unfolding run
  run-KeepsErrors [] url pem mounts h = run_specs-Keeps [] (build_specs url pem mounts) h
  run-KeepsErrors (c ∷ path) url pem mounts h = elim (Option-cases env.remove_error) [
    | inl e ↦
        let specs = run_specs env (c ∷ path) (build_specs url pem mounts) in
        rw e (
          run_specs-Keeps (c ∷ path) (build_specs url pem mounts)
            (sym (retracted-has_met specs) ∙ rw e at h))
    | inr (d, e) ↦ absurd (no_errors_yet d (rw e at h))
  ]
