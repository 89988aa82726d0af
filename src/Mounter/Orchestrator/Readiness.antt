-- ===== src/Mounter/Orchestrator/Readiness.antt =====
-- The readiness signal of a run of internal/mounter/orchestrator.go.
use ocu_rclone_filestore.Base.{
  ℕ, ◌+◌, Text, Bool, true, false, ◌≡◌, ◌↔◌, inl, inr, refl, arith, none, GoError, wrap, str, ok,
  List, [], ◌∷◌, ◌++◌, any_of, Option-cases, sym, ◌∙◌,
}
use ocu_rclone_filestore.Mountcfg.Validate.{Mount}
use ocu_rclone_filestore.Mounter.Specs.{MountSpec, build_specs}
use ocu_rclone_filestore.Mounter.Orchestrator.{
  retract_ready, Env, Run, tear_down, after_ready, fan_out, run_specs, run, retracted,
}
use ocu_rclone_filestore.Mounter.Orchestrator.Teardown.{is_ready, any_of-append, ready_none}

-- Every spec from the index on comes up, and no poll up to the last finds a signal.
abbrev pub AllUp : Env → ℕ → List MountSpec → Type 0
AllUp env k [] = env.signal_pending k ≡ false
AllUp env k (s ∷ specs) =
    (env.signal_pending k ≡ false) × (env.mount_error k ≡ none) × AllUp env (k + 1) specs

-- The signal itself works: a log line always does, a ready-file when it can be opened.
abbrev pub CanSignal : Env → Text → Type 0
CanSignal env [] = Unit
CanSignal env (c ∷ path) = env.open_error ≡ none

abbrev cannot_create : Text → GoError → GoError
cannot_create path e = wrap "create ready-file %q: %w" (str path ∷ []) e

abbrev signals : Run → Bool
signals r = any_of is_ready r.actions

module _ (env : Env) where
  tear_down-quiet : (ps : List ℕ) (es : List GoError) → signals (tear_down env ps es) ≡ false
  unfolding tear_down
  tear_down-quiet ps es = ready_none ps

  after_ready-signals :
      (ready : Text) (started : List ℕ)
      → (signals (after_ready env ready started) ≡ true) ↔ CanSignal env ready
  unfolding after_ready any_of
  after_ready-signals [] started = ((λ h. tt), (λ h. refl))
  after_ready-signals (c ∷ path) started = elim (Option-cases env.open_error) [
    | inl e ↦ rw e ((λ h. refl), (λ h. refl))
    | inr (d, e) ↦ rw e (
      (λ h.
          absurd
            (false_true (sym (tear_down-quiet started (cannot_create (c ∷ path) d ∷ [])) ∙ h))),
      (λ h. cc),
    )
  ]
    where
      false_true : false ≡ true → ⊥
      false_true e = cc

  fan_out-signals :
      (ready : Text) (k : ℕ) (specs : List MountSpec) (started : List ℕ)
      → (signals (fan_out env ready k specs started) ≡ true)
        ↔ (AllUp env k specs × CanSignal env ready)
  unfolding fan_out any_of
  fan_out-signals ready k [] started =
      ground (arith, tear_down-quiet started [], after_ready-signals ready started)
  fan_out-signals ready k (s ∷ specs) started = elim (Option-cases (env.mount_error k)) [
    | inl m ↦ rw m (
        ground (
          arith,
          tear_down-quiet started [],
          fan_out-signals ready (k + 1) specs (started ++ k ∷ []),
        ))
    | inr (d, m) ↦ rw m (
        ground (
          arith,
          tear_down-quiet started [],
          tear_down-quiet started (wrap "mount %q: %w" (str s.mount.destination ∷ []) d ∷ []),
        ))
  ]

  retracted-signals : (r : Run) → signals (retracted r) ≡ signals r
  unfolding any_of
  retracted-signals r = ground (arith, any_of-append is_ready r.actions (retract_ready ∷ []))

  -- A run over at least one spec, whose stale ready-file could be removed, signals readiness exactly
  -- when every mount came up, no poll of the signal channel (before each mount and after the last)
  -- found a signal, and the ready-file, if one is configured, could be created.
  pub run-signals :
      (ready : Text) (url pem : Text) (mounts : List Mount) (s : MountSpec) (specs : List MountSpec)
      → build_specs url pem mounts ≡ ok (s ∷ specs)
      → env.remove_error ≡ none
      → (any_of is_ready (run env ready url pem mounts).actions ≡ true)
        ↔ (AllUp env 0 (s ∷ specs) × CanSignal env ready)
  unfolding run run_specs
  run-signals [] url pem mounts s specs built removed =
      rw built (fan_out-signals [] 0 (s ∷ specs) [])
  run-signals (c ∷ path) url pem mounts s specs built removed =
      rw (removed, run)
        (rw (built, retracted-signals (fan_out env (c ∷ path) 0 (s ∷ specs) []))
          (fan_out-signals (c ∷ path) 0 (s ∷ specs) []))
