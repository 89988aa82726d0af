-- ===== src/Mounter/Point/Callers.antt =====
-- Concurrent callers of doUnmount in internal/mounter/realpoint.go, in any interleaving. What the
-- code relies on in sync.Once is written out: its mutex, and the flag that it sets before it gives
-- the mutex back.
pub mod OneRunner
pub mod OneDetach
pub mod Progress
use ocu_rclone_filestore.Base.{
  ℕ, zero, suc, ◌≡◌, Bool, true, false, Option, GoError, List, [], ◌∷◌, ◌++◌,
}
use ocu_rclone_filestore.Mounter.Point.{
  PointAction, wait_for_writers, flush_dir_cache, detach, writeback_drain_timeout, RealPoint,
  grace_of, detach_result,
}

-- Where a caller stands. From `draining` to `settled` it is inside the function that it passed to
-- unmountOnce.Do, and holds the mutex.
pub data Stage : Type 0 where
  -- before the call of Do, or blocked in it
  outside : Stage
  -- before the test for a VFS; before FlushDirCache; before the detach; at the function's end
  draining flushing detaching settled : Stage
  -- Do has returned; doUnmount has returned the error kept
  released : Stage
  returned : Option GoError → Stage

-- The point, whose `done` is the flag of the Once, with the mutex, what has been done so far, and how
-- each detach has ended, the last one first: with its error, or not at all.
pub record Shared : Type 0 where
  pub point : RealPoint
  pub busy : Bool
  pub log : List PointAction
  pub ends : List (Option (Option GoError))

abbrev pub logged : Shared → PointAction → Shared
logged s a = record s { log = s.log ++ a ∷ [] }

abbrev pub kept : Shared → Option GoError → Shared
kept s e = record s { point = record s.point { unmount_err = e } }

abbrev pub ended : Shared → Option (Option GoError) → Shared
ended s d = record s { ends = d ∷ s.ends }

abbrev pub given_back : Shared → Shared
given_back s = record s { point = record s.point { done = true }; busy = false }

-- One step of one caller. How the detach ends is left open.
pub data Move (s : Shared) : Stage → Shared → Stage → Type 0 where
  enter : s.point.done ≡ false → s.busy ≡ false → Move s outside (record s { busy = true }) draining
  pass : s.point.done ≡ true → Move s outside s released
  drain :
      s.point.has_vfs ≡ true
      → Move s draining (logged s (wait_for_writers writeback_drain_timeout)) flushing
  no_vfs : s.point.has_vfs ≡ false → Move s draining s detaching
  flush : Move s flushing (logged s flush_dir_cache) detaching
  detached :
      (d : Option (Option GoError))
      → Move s detaching
          (kept (ended (logged s (detach (grace_of s.point))) d) (detach_result d))
          settled
  give_back : Move s settled (given_back s) released
  return : Move s released s (returned s.point.unmount_err)

pub data Turn (s : Shared) : List Stage → Shared → List Stage → Type 0 where
  here :
      {st st' : Stage} {s' : Shared} {rest : List Stage}
      → Move s st s' st'
      → Turn s (st ∷ rest) s' (st' ∷ rest)
  other :
      {st : Stage} {s' : Shared} {rest rest' : List Stage}
      → Turn s rest s' rest'
      → Turn s (st ∷ rest) s' (st ∷ rest')

abbrev pub callers : ℕ → List Stage
callers zero = []
callers (suc n) = outside ∷ callers n

-- What so many callers of a point can have come to after so many steps.
pub data Reach (p : RealPoint) (n : ℕ) : ℕ → Shared → List Stage → Type 0 where
  begin : Reach p n 0 (record { point = p; busy = false; log = []; ends = [] }) (callers n)
  later :
      {k : ℕ} {s s' : Shared} {sts sts' : List Stage}
      → Reach p n k s sts
      → Turn s sts s' sts'
      → Reach p n (suc k) s' sts'
