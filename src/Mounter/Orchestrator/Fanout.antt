-- ===== src/Mounter/Orchestrator/Fanout.antt =====
-- unmountAll of internal/mounter/orchestrator.go as goroutines: the loop that starts one for each
-- point, the wait for all of them, and the compaction, with the goroutines in any interleaving.
pub mod Workers
mod Begins
pub mod Collects
pub mod Progress
use ocu_rclone_filestore.Base.{
  ℕ, Text, str, suc, ◌+◌, ◌-◌, ◌≡◌, Option, none, some, GoError, wrap, num, List, [], ◌∷◌, map,
  length,
}
use ocu_rclone_filestore.Mounter.Orchestrator.{Env}

-- Where the goroutine of a point stands.
pub data Phase : Type 0 where
  -- the loop has not come to it; it has been started; it is inside the seam's unmount
  unborn born unmounting : Phase
  -- the unmount has returned
  returned : Option GoError → Phase
  -- before the deferred wg.Done, and after it
  leaving left : Phase

-- A point, its goroutine, and its slot of `collected`.
pub data Worker : Type 0 where
  worker : ℕ → Phase → Option GoError → Worker

-- `if err != nil { collected[i] = ... }`
abbrev pub keep : Text → Option GoError → Option GoError → Option GoError
keep dest none slot = slot
keep dest (some e) slot = some (wrap "unmount %q: %w" (str dest ∷ []) e)

-- What a step of a goroutine does besides: call the seam's unmount of a point, or wg.Done.
pub data Effect : Type 0 where
  nothing : Effect
  calls : ℕ → Effect
  is_done : Effect

abbrev pub wg_after : Effect → ℕ → ℕ
wg_after nothing n = n
wg_after (calls p) n = n
wg_after is_done n = n - 1

abbrev pub log_after : Effect → List ℕ → List ℕ
log_after nothing log = log
log_after (calls p) log = p ∷ log
log_after is_done log = log

-- One step of one goroutine, whichever.
pub data Turn (env : Env) : Effect → List Worker → List Worker → Type 0 where
  call :
      {p : ℕ} {slot : Option GoError} {ws : List Worker}
      → Turn env (calls p) (worker p born slot ∷ ws) (worker p unmounting slot ∷ ws)
  return :
      {p : ℕ} {slot : Option GoError} {ws : List Worker}
      → Turn env nothing
          (worker p unmounting slot ∷ ws)
          (worker p (returned (env.unmount_error p)) slot ∷ ws)
  store :
      {p : ℕ} {e slot : Option GoError} {ws : List Worker}
      → Turn env nothing
          (worker p (returned e) slot ∷ ws)
          (worker p leaving (keep (env.destination p) e slot) ∷ ws)
  leave :
      {p : ℕ} {slot : Option GoError} {ws : List Worker}
      → Turn env is_done (worker p leaving slot ∷ ws) (worker p left slot ∷ ws)
  other :
      {eff : Effect} {w : Worker} {ws ws' : List Worker}
      → Turn env eff ws ws'
      → Turn env eff (w ∷ ws) (w ∷ ws')

-- `go func()` of the goroutine at an index.
pub data Start : ℕ → List Worker → List Worker → Type 0 where
  here :
      {p : ℕ} {slot : Option GoError} {ws : List Worker}
      → Start 0 (worker p unborn slot ∷ ws) (worker p born slot ∷ ws)
  there :
      {i : ℕ} {w : Worker} {ws ws' : List Worker}
      → Start i ws ws'
      → Start (suc i) (w ∷ ws) (w ∷ ws')

-- Where unmountAll itself stands: at an index of the loop, in wg.Wait, or back with its errors.
pub data Caller : Type 0 where
  starting : ℕ → Caller
  waiting : Caller
  finished : List GoError → Caller

abbrev pub cons_slot : Option GoError → List GoError → List GoError
cons_slot none es = es
cons_slot (some e) es = e ∷ es

-- The loop over `collected`.
unfoldable pub compact : List Worker → List GoError
compact [] = []
compact (worker p ph slot ∷ ws) = cons_slot slot (compact ws)

-- `wg` is the counter of the wait group; `log` has the points whose unmount has been called, the
-- last first.
pub record Fan : Type 0 where
  pub caller : Caller
  pub wg : ℕ
  pub workers : List Worker
  pub log : List ℕ

pub data Step (env : Env) (s : Fan) : Fan → Type 0 where
  start_next :
      {i : ℕ} {ws : List Worker}
      → s.caller ≡ starting i
      → Start i s.workers ws
      → Step env s (record s { caller = starting (suc i); wg = s.wg + 1; workers = ws })
  await : s.caller ≡ starting (length s.workers) → Step env s (record s { caller = waiting })
  work :
      {eff : Effect} {ws : List Worker}
      → Turn env eff s.workers ws
      → Step env s (record s { wg = wg_after eff s.wg; workers = ws; log = log_after eff s.log })
  go_on :
      s.caller ≡ waiting
      → s.wg ≡ 0
      → Step env s (record s { caller = finished (compact s.workers) })

abbrev pub unmount_all : List ℕ → Fan
unmount_all points = record {
  caller = starting 0;
  wg = 0;
  workers = map (λ p. worker p unborn none) points;
  log = [];
}

-- What unmountAll can have come to after so many steps.
pub data Reach (env : Env) (points : List ℕ) : ℕ → Fan → Type 0 where
  begin : Reach env points 0 (unmount_all points)
  later : {k : ℕ} {s t : Fan} → Reach env points k s → Step env s t → Reach env points (suc k) t
