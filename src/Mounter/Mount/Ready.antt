-- ===== src/Mounter/Mount/Ready.antt =====
-- The readiness signal of Mount in internal/mounter/mounter.go, over the seam of realpoint.go.
use ocu_rclone_filestore.Base.{
  ℕ, suc, ◌+◌, ◌≤◌, true, false, ◌≡◌, ◌↔◌, refl, sym, ap, ◌∙◌, arith, Option, none, some, GoError,
  Result, ok, err, List, [], ◌∷◌, any_of,
}
use ocu_rclone_filestore.Mountcfg.Validate.{Config}
use ocu_rclone_filestore.Mounter.Specs.{MountSpec, build_specs}
use ocu_rclone_filestore.Mounter.Point.{RealPoint}
use ocu_rclone_filestore.Mounter.Ready.{poll_interval}
use ocu_rclone_filestore.Mounter.Bringup.{
  SeamEnv, RealPointMounter, BringupAction, Attempt, mount_and_wait_ready,
}
use ocu_rclone_filestore.Mounter.Bringup.Seam.{ComesUp, mount_and_wait_ready-Ends}
use ocu_rclone_filestore.Mounter.Orchestrator.{Env}
use ocu_rclone_filestore.Mounter.Orchestrator.Teardown.{is_ready}
use ocu_rclone_filestore.Mounter.Orchestrator.Readiness.{AllUp, CanSignal, run-signals}
use ocu_rclone_filestore.Mounter.Mount.{OrchestratorMounter, elements, mount}

-- The error that an attempt ended with; `none` for one that did not end.
abbrev pub error_of : Attempt → Option (Option GoError)
error_of none = none
error_of (some (actions, ok point)) = some none
error_of (some (actions, err e)) = some (some e)

-- The orchestrator meets, for each spec, the error of the seam's attempt on it.
abbrev pub Realises :
    {F : Type 0} → Env → (ℕ → SeamEnv) → RealPointMounter F → ℕ → List MountSpec → Type 0
Realises env seams r k [] = Unit
Realises env seams r k (s ∷ specs) =
    (error_of (mount_and_wait_ready (seams k) r s) ≡ some (env.mount_error k))
    × Realises env seams r (k + 1) specs

-- The poll's clock does not start late, and each wait takes the poll interval or longer.
abbrev pub Ticks : SeamEnv → Type 0
Ticks e =
    (e.start ≤ (e.polls 0).now)
    × ((j : ℕ) → (e.polls j).now + poll_interval ≤ (e.polls (suc j)).now)

-- Every spec comes up, and no poll of the signal channel, before each and after the last, finds a
-- signal.
abbrev pub AllComeUp : Env → (ℕ → SeamEnv) → ℕ → ℕ → List MountSpec → Type 0
AllComeUp env seams timeout k [] = env.signal_pending k ≡ false
AllComeUp env seams timeout k (s ∷ specs) =
    (env.signal_pending k ≡ false)
    × ComesUp (seams k) timeout s
    × AllComeUp env seams timeout (k + 1) specs

error_of_ended :
    (d : Option GoError) (C : Type 0) (actions : List BringupAction) (result : Result RealPoint)
    → ((point : RealPoint) × (result ≡ ok point)) ↔ C
    → error_of (some (actions, result)) ≡ some d
    → (d ≡ none) ↔ C
error_of_ended d C actions (ok point) (down, up) h = (λ e. down (point, refl), λ c. cc)
error_of_ended d C actions (err f) (down, up) h =
    (λ e. absurd (ground arith), λ c. (let (point, bad) = up c in cc))

error_of-none :
    {F : Type 0} (e : SeamEnv) (r : RealPointMounter F) (s : MountSpec) (d : Option GoError)
    → Ticks e
    → error_of (mount_and_wait_ready e r s) ≡ some d
    → (d ≡ none) ↔ ComesUp e r.ready_timeout s
error_of-none e r s d (starts, advances) h =
    let ((actions, result), ended, _, up) = mount_and_wait_ready-Ends e r s starts advances in
    error_of_ended d _ actions result up (sym (ap error_of ended) ∙ h)

AllUp-iff :
    {F : Type 0} (env : Env) (seams : ℕ → SeamEnv) (r : RealPointMounter F)
    → ((k : ℕ) → Ticks (seams k))
    → (k : ℕ) (specs : List MountSpec) → Realises env seams r k specs
    → AllUp env k specs ↔ AllComeUp env seams r.ready_timeout k specs
AllUp-iff env seams r ticks k [] realised = (λ h. h, λ h. h)
AllUp-iff env seams r ticks k (s ∷ specs) (first, rest) =
    let (down, up) = error_of-none (seams k) r s (env.mount_error k) (ticks k) first in
    let (fwd, back) = AllUp-iff env seams r ticks (k + 1) specs rest in
    (
      λ (quiet, e, later). (quiet, down e, fwd later),
      λ (quiet, c, later). (quiet, up c, back later),
    )

-- Given that the seam can be made, that the specs are built and there is one, that no stale
-- ready-file is in the way, that each attempt of the seam ended with the error that the orchestrator
-- met, and that the clocks of the polls tick, Mount signals readiness exactly when every spec came
-- up (its steps before the mount ended well, the mount was started and the poll found it ready), no
-- poll of the signal channel found a signal, and the ready-file, if one is configured, could be
-- created.
pub mount-ready :
    {F C : Type 0} (outside : RealPointMounter F → Env) (seams : ℕ → SeamEnv)
    → (m : OrchestratorMounter F C) (cfg : Config) (r : RealPointMounter F)
    → (s : MountSpec) (specs : List MountSpec) → m.new_seam ≡ ok r
    → build_specs cfg.service_url cfg.ca_cert_pem (elements cfg.mounts) ≡ ok (s ∷ specs)
    → (outside r).remove_error ≡ none
    → Realises (outside r) seams r 0 (s ∷ specs)
    → ((k : ℕ) → Ticks (seams k))
    → (any_of is_ready (mount outside m cfg).actions ≡ true) ↔ (
        AllComeUp (outside r) seams r.ready_timeout 0 (s ∷ specs)
        × CanSignal (outside r) m.readiness)
unfolding mount
mount-ready outside seams m cfg r s specs seam built removed realised ticks =
    let (down, up) =
      run-signals (outside r) m.readiness cfg.service_url cfg.ca_cert_pem (elements cfg.mounts) s
        specs built removed in
    let (fwd, back) = AllUp-iff (outside r) seams r ticks 0 (s ∷ specs) realised in
    rw (mount, seam)
      (
        λ h. (let (all, signal) = down h in (fwd all, signal)),
        λ (all, signal). up (back all, signal),
      )
