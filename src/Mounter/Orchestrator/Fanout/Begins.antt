-- ===== src/Mounter/Orchestrator/Fanout/Begins.antt =====
-- The goroutines of unmountAll in internal/mounter/orchestrator.go as the loop starts them, before it has
-- begun, and when all of them are gone.
use ocu_rclone_filestore.Base.{
  ℕ, Text, suc, ◌+◌, ◌≡◌, refl, ap, arith, Option, none, some, GoError, if◌then◌else◌, List, [],
  ◌∷◌, map, length, All,
}
use ocu_rclone_filestore.Mounter.Orchestrator.{Env, cons_error, unmount_errors}
use ocu_rclone_filestore.Mounter.Orchestrator.Fanout.{
  Phase, unborn, born, unmounting, returned, leaving, left, Worker, worker, keep, Start, here,
  there, cons_slot, compact,
}
use ocu_rclone_filestore.Mounter.Orchestrator.Fanout.Workers.{
  point_of, is_live, live, was_called, called, IsSettled, IsUnborn, IsBorn, HasLeft, StartedUpTo,
}

pub Start-point_of :
    {i : ℕ} {ws ws' : List Worker} → Start i ws ws' → map point_of ws' ≡ map point_of ws
Start-point_of here = refl
Start-point_of (there {w} t) = ap (◌∷◌ (point_of w)) (Start-point_of t)

pub Start-IsSettled :
    (env : Env) {i : ℕ} {ws ws' : List Worker}
    → Start i ws ws'
    → All (IsSettled env) ws
    → All (IsSettled env) ws'
Start-IsSettled env here (h, hs) = (h, hs)
Start-IsSettled env (there t) (h, hs) = (h, Start-IsSettled env t hs)

pub Start-live : {i : ℕ} {ws ws' : List Worker} → Start i ws ws' → live ws' ≡ live ws + 1
unfolding live
Start-live here = omega arith
Start-live (there {w = worker p ph slot} t) = omega (arith, Start-live t)

pub Start-called : {i : ℕ} {ws ws' : List Worker} → Start i ws ws' → called ws' ≡ called ws
unfolding called
Start-called here = refl
Start-called (there {w = worker p ph slot} t) =
    ap (λ ps. if was_called ph then p ∷ ps else ps) (Start-called t)

pub Start-StartedUpTo :
    {i : ℕ} {ws ws' : List Worker} → Start i ws ws' → StartedUpTo i ws → StartedUpTo (suc i) ws'
unfolding StartedUpTo
Start-StartedUpTo here (h, hs) = (tt, hs)
Start-StartedUpTo (there {w = worker p ph slot} t) (h, hs) = (h, Start-StartedUpTo t hs)

cons_slot-keep :
    (dest : Text) (e : Option GoError) (es : List GoError)
    → cons_slot (keep dest e none) es ≡ cons_error dest e es
cons_slot-keep dest none es = refl
cons_slot-keep dest (some e) es = refl

-- With every goroutine gone, the slots hold the errors of the points in their order.
pub settled_left :
    (env : Env) (ws : List Worker)
    → All (IsSettled env) ws
    → All HasLeft ws
    → (compact ws ≡ unmount_errors env (map point_of ws)) × (called ws ≡ map point_of ws)
unfolding called compact unmount_errors
settled_left env [] hs gone = (refl, refl)
settled_left env (worker p ph slot ∷ ws) (h, hs) (g, gone) =
    let (errors, all_called) = settled_left env ws hs gone in
    let slot_is : slot ≡ keep (env.destination p) (env.unmount_error p) none = rw g at h in
    rw (g, slot_is, errors)
      (cons_slot-keep (env.destination p) (env.unmount_error p) _, ap (◌∷◌ p) all_called)

-- An empty wait group, with every goroutine started.
pub live-HasLeft : (ws : List Worker) → StartedUpTo (length ws) ws → live ws ≡ 0 → All HasLeft ws
unfolding live StartedUpTo
live-HasLeft [] started none_live = tt
live-HasLeft (worker p ph slot ∷ ws) (b, started) none_live =
    (not_live ph b (omega arith), live-HasLeft ws started (omega arith))
  where
    not_live : (ph : Phase) → IsBorn ph → is_live ph ≡ 0 → ph ≡ left
    not_live unborn b h = absurd b
    not_live born b h = absurd (omega arith)
    not_live unmounting b h = absurd (omega arith)
    not_live (returned e) b h = absurd (omega arith)
    not_live leaving b h = absurd (omega arith)
    not_live left b h = refl

-- Before the loop has begun.
module _ (env : Env) where
  abbrev fresh : ℕ → Worker
  fresh p = worker p unborn none

  pub fresh-point_of : (points : List ℕ) → map point_of (map fresh points) ≡ points
  fresh-point_of [] = refl
  fresh-point_of (p ∷ points) = ap (◌∷◌ p) (fresh-point_of points)

  pub fresh-IsSettled : (points : List ℕ) → All (IsSettled env) (map fresh points)
  fresh-IsSettled [] = tt
  fresh-IsSettled (p ∷ points) = (refl, fresh-IsSettled points)

  pub fresh-IsUnborn : (points : List ℕ) → All IsUnborn (map fresh points)
  fresh-IsUnborn [] = tt
  fresh-IsUnborn (p ∷ points) = (refl, fresh-IsUnborn points)

  pub fresh-live : (points : List ℕ) → live (map fresh points) ≡ 0
  unfolding live
  fresh-live [] = refl
  fresh-live (p ∷ points) = omega (arith, fresh-live points)

  pub fresh-called : (points : List ℕ) → called (map fresh points) ≡ []
  unfolding called
  fresh-called [] = refl
  fresh-called (p ∷ points) = fresh-called points
