-- ===== src/Mounter/Orchestrator/Fanout/Collects.antt =====
-- What unmountAll of internal/mounter/orchestrator.go has done when it returns.
use mathlib.Core.List.{Perm}
use mathlib.Core.List.Perm
use ocu_rclone_filestore.Base.{
  ℕ, ◌≡◌, refl, sym, subst, ap, ◌∙◌, arith, GoError, List, [], map, All,
}
use ocu_rclone_filestore.Mounter.Orchestrator.Fanout.Workers.{
  point_of, live, called, IsSettled, HasLeft, StartedUpTo, Knows, wg_after-done_by, log_after-Perm,
  Turn-point_of, Turn-IsSettled, Turn-live, Turn-called, Turn-Knows,
}
use ocu_rclone_filestore.Mounter.Orchestrator.Fanout.Begins.{
  Start-point_of, Start-IsSettled, Start-live, Start-called, Start-StartedUpTo, settled_left,
  live-HasLeft, fresh-point_of, fresh-IsSettled, fresh-IsUnborn, fresh-live, fresh-called,
}
use ocu_rclone_filestore.Mounter.Orchestrator.{Env, unmount_errors}
use ocu_rclone_filestore.Mounter.Orchestrator.Fanout.{
  wg_after, finished, compact, Fan, Step, start_next, await, work, go_on, unmount_all, Reach, begin,
  later,
}

pub record Inv (env : Env) (points : List ℕ) (s : Fan) : Type 0 where
  pub same : map point_of s.workers ≡ points
  pub settled : All (IsSettled env) s.workers
  pub counted : s.wg ≡ live s.workers
  pub known : Knows s.caller s.workers
  pub logged : Perm s.log (called s.workers)

unmount_all-Inv : (env : Env) (points : List ℕ) → Inv env points (unmount_all points)
unfolding Knows StartedUpTo
unmount_all-Inv env points = record {
  same = fresh-point_of env points;
  settled = fresh-IsSettled env points;
  counted = sym (fresh-live env points);
  known = fresh-IsUnborn env points;
  logged = rw (fresh-called env points) (Perm.refl []);
}

-- Every step keeps the invariant.
Step-Inv :
    {env : Env} {points : List ℕ} {s t : Fan} → Step env s t → Inv env points s → Inv env points t
unfolding Knows
Step-Inv {env} (start_next e t) inv = record {
  same = Start-point_of t ∙ inv.same;
  settled = Start-IsSettled env t inv.settled;
  counted = omega (arith, inv.counted, Start-live t);
  known = Start-StartedUpTo t (rw e at inv.known);
  logged = rw (Start-called t) inv.logged;
}
Step-Inv (await e) inv = record {
  same = inv.same;
  settled = inv.settled;
  counted = inv.counted;
  known = rw e at inv.known;
  logged = inv.logged;
}
Step-Inv {s} (work {eff} {ws} t) inv = record {
  same = Turn-point_of t ∙ inv.same;
  settled = Turn-IsSettled t inv.settled;
  counted = ap (wg_after eff) (inv.counted ∙ Turn-live t) ∙ wg_after-done_by eff (live ws);
  known = Turn-Knows s.caller t inv.known;
  logged = Perm.trans (log_after-Perm eff inv.logged) (Turn-called t);
}
Step-Inv {s} (go_on e none_left) inv = record {
  same = inv.same;
  settled = inv.settled;
  counted = inv.counted;
  known = (live-HasLeft s.workers (rw e at inv.known) (sym inv.counted ∙ none_left), refl);
  logged = inv.logged;
}

pub Reach-Inv :
    {env : Env} {points : List ℕ} {k : ℕ} {s : Fan} → Reach env points k s → Inv env points s
Reach-Inv {env} {points} begin = unmount_all-Inv env points
Reach-Inv (later r st) = Step-Inv st (Reach-Inv r)

-- In whatever order the goroutines run, unmountAll returns the errors of the points in the points'
-- order, as the walk over them one by one does; by then it has called the unmount of each point
-- exactly once, and no goroutine is still at work.
pub errors_in_order :
    (env : Env) (points : List ℕ) (k : ℕ) (s : Fan) (errors : List GoError)
    → Reach env points k s
    → s.caller ≡ finished errors
    → (errors ≡ unmount_errors env points) × Perm s.log points × All HasLeft s.workers
unfolding Knows
errors_in_order env points k s errors r e =
    let inv = Reach-Inv r in
    let (gone, compacted) : All HasLeft s.workers × (errors ≡ compact s.workers) =
      rw e at inv.known in
    let (slots, all_called) = settled_left env s.workers inv.settled gone in
    (
      compacted ∙ slots ∙ ap (unmount_errors env) inv.same,
      subst (Perm s.log) (all_called ∙ inv.same) inv.logged,
      gone,
    )
