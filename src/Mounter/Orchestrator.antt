-- ===== src/Mounter/Orchestrator.antt =====
-- internal/mounter/orchestrator.go: the run of the orchestrator as the sequence of what it does to
-- the outside. What the outside answers is an environment. A point is the index of its spec. The
-- concurrent unmounts are listed in the points' order, in which their errors are collected too;
-- Fanout has them as the goroutines that they are.
pub mod Teardown
pub mod Readiness
pub mod Fanout
pub mod Errors
pub mod ReadyFile
pub mod Shutdown
use ocu_rclone_filestore.Base.{
  ℕ, ◌+◌, Text, Bool, true, false, not, Option, none, some, GoError, message, wrap, str, num, join,
  Result, ok, err, List, [], ◌∷◌, ◌++◌, map, ◌==◌, if◌then◌else◌,
}
use ocu_rclone_filestore.Mountcfg.Validate.{Mount}
use ocu_rclone_filestore.Mounter.Specs.{MountSpec, build_specs}

pub data Action : Type 0 where
  -- os.Remove of the ready-file, at the start and at the end, and its creation
  remove_stale create_ready retract_ready : Action
  -- the log line that stands in for the ready-file
  log_ready : Action
  -- mountAndWaitReady of a spec that came up, and of one that failed
  mounted failed_mount : ℕ → Action
  unmount : ℕ → Action
  -- the blocking select finds that a point has exited by itself
  saw_exit : ℕ → Action

-- What ends the blocking select: a termination signal, or a point with its terminal error.
pub data Wake : Type 0 where
  signalled : Wake
  exited : ℕ → Option GoError → Wake

pub record Env : Type 0 where
  -- a poll of the signal channel finds a signal, before the spec of that index
  pub signal_pending : ℕ → Bool
  pub mount_error : ℕ → Option GoError
  pub unmount_error : ℕ → Option GoError
  -- what a point names as its destination
  pub destination : ℕ → Text
  -- an error of os.Remove other than a missing file, of opening the ready-file and of closing it
  pub remove_error : Option GoError
  pub open_error : Option GoError
  pub close_error : Option GoError
  pub wake : Wake

pub record Run : Type 0 where
  pub actions : List Action
  pub result : Option GoError

-- errors.Join
unfoldable pub join_errors : List GoError → Option GoError
join_errors [] = none
join_errors (e ∷ []) = some e
join_errors (e ∷ d ∷ ds) = elim (join_errors (d ∷ ds)) [ none ↦ some e | some r ↦ some (join e r) ]

abbrev pub cons_error : Text → Option GoError → List GoError → List GoError
cons_error dest none es = es
cons_error dest (some e) es = wrap "unmount %q: %w" (str dest ∷ []) e ∷ es

-- unmountAll: the errors of the points, in their order.
unfoldable pub unmount_errors : Env → List ℕ → List GoError
unmount_errors env [] = []
unmount_errors env (p ∷ ps) =
    cons_error (env.destination p) (env.unmount_error p) (unmount_errors env ps)

-- A teardown of these points, behind the errors that led to it.
unfoldable pub tear_down : Env → List ℕ → List GoError → Run
unfolding join_errors unmount_errors
tear_down env points errors = record {
  actions = map unmount points;
  result = join_errors (errors ++ unmount_errors env points);
}

-- The points but the one that exited.
unfoldable pub without : ℕ → List ℕ → List ℕ
without p [] = []
without p (q ∷ qs) = if q == p then without p qs else q ∷ without p qs

abbrev exit_errors : Text → Option GoError → List GoError
exit_errors dest none = []
exit_errors dest (some e) = wrap "mount %q exited: %w" (str dest ∷ []) e ∷ []

abbrev pub behind : Action → Run → Run
behind a r = record r { actions = a ∷ r.actions }

unfoldable pub block_until_teardown : Env → Wake → List ℕ → Run
unfolding tear_down without
block_until_teardown env signalled started = tear_down env started []
block_until_teardown env (exited p e) started =
    behind (saw_exit p) (tear_down env (without p started) (exit_errors (env.destination p) e))

-- signalReady and what follows: with no ready-file path, a log line. A file that is open is there,
-- also when it cannot be closed.
unfoldable pub after_ready : Env → Text → List ℕ → Run
unfolding block_until_teardown tear_down
after_ready env [] started = behind log_ready (block_until_teardown env env.wake started)
after_ready env (c ∷ path) started = elim env.open_error [
  | some e ↦ tear_down env started (wrap "create ready-file %q: %w" (str (c ∷ path) ∷ []) e ∷ [])
  | none ↦ behind create_ready (elim env.close_error [
    | some e ↦ tear_down env started (e ∷ [])
    | none ↦ block_until_teardown env env.wake started
  ])
]

-- The fan-out over the specs, from the index of the first; `started` holds the points that are up.
unfoldable pub fan_out : Env → Text → ℕ → List MountSpec → List ℕ → Run
unfolding after_ready tear_down
fan_out env ready k [] started =
    if env.signal_pending k then tear_down env started [] else after_ready env ready started
fan_out env ready k (s ∷ specs) started =
    let rest = fan_out env ready (k + 1) specs (started ++ k ∷ []) in
    if env.signal_pending k then tear_down env started [] else elim (env.mount_error k) [
      | some e ↦
          behind (failed_mount k)
            (tear_down env started (wrap "mount %q: %w" (str s.mount.destination ∷ []) e ∷ []))
      | none ↦ behind (mounted k) rest
    ]

-- The part of `run` between the two ready-file removals.
unfoldable pub run_specs : Env → Text → Result (List MountSpec) → Run
unfolding fan_out
run_specs env ready (err e) = record { actions = []; result = some e }
run_specs env ready (ok []) = record { actions = []; result = none }
run_specs env ready (ok (s ∷ specs)) = fan_out env ready 0 (s ∷ specs) []

abbrev retracted : Run → Run
retracted r = record r { actions = remove_stale ∷ r.actions ++ retract_ready ∷ [] }

-- run, behind the construction of the seam: the path of the ready-file, which is empty for none, the
-- transport and the mounts of the config.
unfoldable pub run : Env → Text → Text → Text → List Mount → Run
unfolding run_specs build_specs
run env [] url pem mounts = run_specs env [] (build_specs url pem mounts)
run env (c ∷ path) url pem mounts = elim env.remove_error [
  | some e ↦ record {
    actions = remove_stale ∷ [];
    result = some (wrap "remove stale ready-file %q: %w" (str (c ∷ path) ∷ []) e);
  }
  | none ↦ retracted (run_specs env (c ∷ path) (build_specs url pem mounts))
]
