-- ===== src/Mounter/Mount.antt =====
-- internal/mounter/mounter.go, and the construction of the seam at the start of the orchestrator's
-- run: the mounter, its options and Mount. `F` is the type of the mount functions, and `C` that of
-- the signal channels.
pub mod Ready
use ocu_rclone_filestore.Base.{
  Text, Bool, not, Option, none, some, Result, ok, err, List, [], ◌∷◌, is_empty,
}
use ocu_rclone_filestore.Mountcfg.Validate.{Mount, Config}
use ocu_rclone_filestore.Mounter.Bringup.{RealPointMounter, default_real_seam}
use ocu_rclone_filestore.Mounter.Orchestrator.{Env, Run, run}

-- What newSeam gives, the path of the ready-file, and the signal channel, where nil is `none`.
pub record OrchestratorMounter (F C : Type 0) : Type 0 where
  pub new_seam : Result (RealPointMounter F)
  pub readiness : Text
  pub signals : Option C

unfoldable pub with_readiness :
    {F C : Type 0} → Text → OrchestratorMounter F C → OrchestratorMounter F C
with_readiness path m = record m { readiness = path }

unfoldable pub with_signals : {F C : Type 0} → C → OrchestratorMounter F C → OrchestratorMounter F C
with_signals sig m = record m { signals = some sig }

abbrev pub apply_options :
    {F C : Type 0}
    → List (OrchestratorMounter F C → OrchestratorMounter F C)
    → OrchestratorMounter F C
    → OrchestratorMounter F C
apply_options [] m = m
apply_options (opt ∷ opts) m = apply_options opts (opt m)

-- New, on a platform that the mount method supports or not, with the direct-mount function.
unfoldable pub new :
    {F C : Type 0}
    → Bool
    → F
    → List (OrchestratorMounter F C → OrchestratorMounter F C)
    → OrchestratorMounter F C
unfolding default_real_seam
new supported direct_mount_fn opts = apply_options opts (record {
  new_seam = default_real_seam supported direct_mount_fn;
  readiness = [];
  signals = none;
})

-- A nil slice has no elements.
abbrev pub elements : Option (List Mount) → List Mount
elements none = []
elements (some ms) = ms

-- Mount: the environment of the orchestrator is what the seam meets.
unfoldable pub mount :
    {F C : Type 0} → (RealPointMounter F → Env) → OrchestratorMounter F C → Config → Run
unfolding run
mount outside m cfg = elim m.new_seam [
  | err e ↦ record { actions = []; result = some e }
  | ok seam ↦ run (outside seam) m.readiness cfg.service_url cfg.ca_cert_pem (elements cfg.mounts)
]
