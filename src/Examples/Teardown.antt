-- ===== src/Examples/Teardown.antt =====
-- Goroutines of a teardown, in interleavings that differ from the points' order.
use mathlib.Core.List.{Perm}
use ocu_rclone_filestore.Base.{
  ℕ, ◌≤◌, ◌≡◌, ◌⊎◌, refl, codes, str, true, false, none, some, GoError, message, wrap, List, [],
  ◌∷◌, All, if◌then◌else◌, ◌==◌,
}
use ocu_rclone_filestore.Mounter.Orchestrator.{signalled, Env, unmount_errors}
use ocu_rclone_filestore.Mounter.Orchestrator.Fanout.{
  Fan, Step, call, leave, store, other, here, there, finished, starting, start_next, await, work,
  go_on, compact, unmount_all, Reach, begin, later,
}
use ocu_rclone_filestore.Mounter.Orchestrator.Fanout
use ocu_rclone_filestore.Mounter.Orchestrator.Fanout.Workers.{HasLeft}
use ocu_rclone_filestore.Mounter.Orchestrator.Fanout.Collects.{errors_in_order}
use ocu_rclone_filestore.Mounter.Orchestrator.Fanout.Progress.{unmount_all-Ends}
use ocu_rclone_filestore.Mounter.Point.{
  RealPoint, wait_for_writers, flush_dir_cache, detach, new_real_point,
}
use ocu_rclone_filestore.Mounter.Point.Callers
use ocu_rclone_filestore.Mounter.Point.Callers.{
  Stage, Shared, enter, pass, drain, flush, detached, give_back, Turn, callers,
}
use ocu_rclone_filestore.Mounter.Point.Callers.OneRunner.{running}
use ocu_rclone_filestore.Mounter.Point.Callers.OneDetach.{IsBegun, HasResult, callers_detach_once}
use ocu_rclone_filestore.Mounter.Point.Callers.Progress.{HasReturned, callers_return}

abbrev busy : GoError
busy = message "device or resource busy" []

-- Two points, of which the second cannot be unmounted.
abbrev teardown : Env
teardown = record {
  signal_pending = λ k. false;
  mount_error = λ k. none;
  unmount_error = λ p. if p == 1 then some busy else none;
  remove_error = none;
  open_error = none;
  close_error = none;
  destination = λ p. codes "/mnt/a";
  wake = signalled;
}

-- The second goroutine calls its unmount last, and has left before the first has returned.
abbrev second_first : (s : Fan) × Reach teardown (0 ∷ 1 ∷ []) 12 s
second_first = (
  _,
  later
      (later
        (later
          (later
            (later
              (later
                (later
                  (later
                    (later
                      (later
                        (later (later begin (start_next refl here)) (start_next refl (there here)))
                        (await refl))
                      (work call))
                    (work (other call)))
                  (work (other Fanout.return)))
                (work (other store)))
              (work (other leave)))
            (work Fanout.return))
          (work store))
        (work leave))
      (go_on refl refl),
)

abbrev second_fails : GoError
second_fails = wrap "unmount %q: %w" (str (codes "/mnt/a") ∷ []) busy

errors_in_order_example :
    (second_fails ∷ [] ≡ unmount_errors teardown (0 ∷ 1 ∷ []))
    × Perm {A = ℕ} (1 ∷ 0 ∷ []) (0 ∷ 1 ∷ [])
    × All HasLeft second_first.0.workers
unfolding compact
errors_in_order_example =
    errors_in_order teardown (0 ∷ 1 ∷ []) 12 second_first.0 (second_fails ∷ []) second_first.1 refl

unmount_all-Ends_example :
    ((t : Fan) × Step teardown second_first.0 t × (13 ≤ 12))
    ⊎ (errors : List GoError) × (second_first.0.caller ≡ finished errors) × ◌≡◌ {A = ℕ} 12 12
unmount_all-Ends_example = unmount_all-Ends teardown (0 ∷ 1 ∷ []) 12 second_first.0 second_first.1

abbrev a_point : RealPoint
a_point = new_real_point (codes "/mnt/a") true

-- The second caller runs the Once, whose detach does not return; the first comes behind it.
abbrev blocked_then_passed : (s : Shared) × (sts : List Stage) × Callers.Reach a_point 2 8 s sts
blocked_then_passed = (
  _,
  _,
  Callers.later
      (Callers.later
        (Callers.later
          (Callers.later
            (Callers.later
              (Callers.later
                (Callers.later
                  (Callers.later Callers.begin (Callers.other (Callers.here (enter refl refl))))
                  (Callers.other (Callers.here (drain refl))))
                (Callers.other (Callers.here flush)))
              (Callers.other (Callers.here (detached none))))
            (Callers.other (Callers.here give_back)))
          (Callers.here (pass refl)))
        (Callers.here Callers.return))
      (Callers.other (Callers.here Callers.return)),
)

callers_detach_once_example :
    (running blocked_then_passed.1 ≤ 1)
    × IsBegun (wait_for_writers 120000 ∷ flush_dir_cache ∷ detach 3000 ∷ []) a_point
    × All (HasResult a_point blocked_then_passed.0) blocked_then_passed.1
callers_detach_once_example =
    callers_detach_once a_point 2 8 blocked_then_passed.0 blocked_then_passed.1 refl
      blocked_then_passed.2

callers_return_example :
    (8 ≤ 12)
    × (All HasReturned blocked_then_passed.1
        ⊎ (s : Shared) × (sts : List Stage) × Turn blocked_then_passed.0 blocked_then_passed.1 s
            sts)
callers_return_example =
    callers_return a_point 2 8 blocked_then_passed.0 blocked_then_passed.1 refl
      blocked_then_passed.2
