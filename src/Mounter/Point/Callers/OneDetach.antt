-- ===== src/Mounter/Point/Callers/OneDetach.antt =====
-- What concurrent callers of doUnmount in internal/mounter/realpoint.go get, in any interleaving.
use ocu_rclone_filestore.Base.{
  ℕ, zero, suc, ◌+◌, ◌≤◌, ◌≡◌, refl, ap, ◌∙◌, arith, false, Option, some, GoError, sentinel,
  Sentinel, List, [], ◌∷◌, ◌++◌, append-nil, All, All-map, none, ◌↔◌, Bool-cases, inl, inr,
}
use ocu_rclone_filestore.Mounter.Point.{
  PointAction, flush_dir_cache, detach, RealPoint, grace_of, detach_result,
}
use ocu_rclone_filestore.Mounter.Point.Callers.{
  Stage, outside, draining, flushing, detaching, settled, released, returned, Shared, Move, enter,
  pass, drain, no_vfs, flush, detached, give_back, return, Turn, here, other, callers, Reach, begin,
  later,
}
use ocu_rclone_filestore.Mounter.Point.{unmount_verdict}
use ocu_rclone_filestore.Mounter.Point.Once.{IsClean, unmount_verdict-IsClean}
use ocu_rclone_filestore.Mounter.Point.Callers.OneRunner.{
  whole, inside, running, held, held_one, fresh_Rests, Knows, Rests, Move-inside, Move-Knows,
  Move-Rests, Move-others,
}

-- At most one caller is inside, exactly when the mutex is held, and each knows where things stand.
pub record Inv (s : Shared) (sts : List Stage) : Type 0 where
  pub rests : Rests s
  pub known : All (Knows s) sts
  pub one : running sts ≡ held s.busy

Turn-others :
    {s s' : Shared} {sts sts' : List Stage} (o : Stage)
    → Turn s sts s' sts'
    → Rests s
    → inside o + running sts ≤ held s.busy
    → Knows s o
    → Knows s' o
unfolding running
Turn-others o (here mv) r h k = Move-others o mv r (omega arith) k
Turn-others o (other t) r h k = Turn-others o t r (omega arith) k

Move-rest :
    {s s' : Shared} {st st' : Stage} (sts : List Stage)
    → Move s st s' st'
    → Rests s
    → inside st + running sts ≤ held s.busy
    → All (Knows s) sts
    → All (Knows s') sts
unfolding running
Move-rest [] mv r h ks = tt
Move-rest (o ∷ sts) mv r h (k, ks) =
    (Move-others o mv r (omega arith) k, Move-rest sts mv r (omega arith) ks)

Turn-keeps :
    {s s' : Shared} {sts sts' : List Stage}
    → Turn s sts s' sts'
    → Rests s
    → All (Knows s) sts
    → running sts ≤ held s.busy
    → Rests s' × All (Knows s') sts' × (running sts' + held s.busy ≡ running sts + held s'.busy)
unfolding running
Turn-keeps (here {rest} mv) r (k, ks) h = (
  Move-Rests mv k r (omega arith),
  (Move-Knows mv k r, Move-rest rest mv r h ks),
  omega (arith, Move-inside mv k r (omega arith)),
)
Turn-keeps (other {st} t) r (k, ks) h =
    let (r', ks', e) = Turn-keeps t r ks (omega arith) in
    (r', (Turn-others st t r h k, ks'), omega (arith, e))

-- Every step of a caller keeps the invariant.
pub Turn-Inv :
    {s s' : Shared} {sts sts' : List Stage} → Turn s sts s' sts' → Inv s sts → Inv s' sts'
Turn-Inv t inv =
    let (r, ks, e) = Turn-keeps t inv.rests inv.known (omega (arith, inv.one)) in
    record { rests = r; known = ks; one = omega (arith, e, inv.one) }

callers-Inv :
    (p : RealPoint) (n : ℕ)
    → p.done ≡ false
    → Inv (record { point = p; busy = false; log = []; ends = [] }) (callers n)
unfolding running
callers-Inv p zero fresh = record { rests = fresh_Rests p fresh; known = tt; one = refl }
callers-Inv p (suc n) fresh =
    let inv = callers-Inv p n fresh in
    record { rests = inv.rests; known = (tt, inv.known); one = omega (arith, inv.one) }

pub Reach-Inv :
    {p : RealPoint} {n k : ℕ} {s : Shared} {sts : List Stage}
    → p.done ≡ false
    → Reach p n k s sts
    → Inv s sts
Reach-Inv {p} {n} fresh begin = callers-Inv p n fresh
Reach-Inv fresh (later r t) = Turn-Inv t (Reach-Inv fresh r)

Move-whole : {s s' : Shared} {st st' : Stage} → Move s st s' st' → whole s'.point ≡ whole s.point
Move-whole (enter d b) = refl
Move-whole (pass d) = refl
Move-whole (drain v) = refl
Move-whole (no_vfs v) = refl
Move-whole flush = refl
Move-whole (detached d) = refl
Move-whole give_back = refl
Move-whole return = refl

Turn-whole :
    {s s' : Shared} {sts sts' : List Stage} → Turn s sts s' sts' → whole s'.point ≡ whole s.point
Turn-whole (here mv) = Move-whole mv
Turn-whole (other t) = Turn-whole t

Reach-whole :
    {p : RealPoint} {n k : ℕ} {s : Shared} {sts : List Stage}
    → Reach p n k s sts
    → whole s.point ≡ whole p
Reach-whole begin = refl
Reach-whole (later r t) = Turn-whole t ∙ Reach-whole r

-- What has been done is the beginning of what an unmount does.
abbrev pub IsBegun : List PointAction → RealPoint → Type 0
IsBegun log p = (rest : List PointAction) × (log ++ rest ≡ whole p)

known-IsBegun :
    (s : Shared) (sts : List Stage) → All (Knows s) sts → 1 ≤ running sts → IsBegun s.log s.point
unfolding running
known-IsBegun s [] ks h = absurd (omega arith)
known-IsBegun s (outside ∷ sts) (k, ks) h = known-IsBegun s sts ks (omega arith)
known-IsBegun s (draining ∷ sts) ((k, e), ks) h = (whole s.point, rw k refl)
known-IsBegun s (flushing ∷ sts) (((v, k), e), ks) h =
    (flush_dir_cache ∷ detach (grace_of s.point) ∷ [], rw (k, v) refl)
known-IsBegun s (detaching ∷ sts) ((k, e), ks) h = (detach (grace_of s.point) ∷ [], rw k refl)
known-IsBegun s (settled ∷ sts) ((k, d), ks) h = ([], rw k (append-nil (whole s.point)))
known-IsBegun s (released ∷ sts) (k, ks) h = known-IsBegun s sts ks (omega arith)
known-IsBegun s (returned e ∷ sts) (k, ks) h = known-IsBegun s sts ks (omega arith)

Inv-IsBegun : (s : Shared) (sts : List Stage) → Inv s sts → IsBegun s.log s.point
Inv-IsBegun s sts inv = elim (Bool-cases s.busy) [
  | inl b ↦ known-IsBegun s sts inv.known (omega (arith, inv.one, ap held b))
  | inr free ↦ elim (Bool-cases s.point.done) [
    | inl d ↦ let (_, log, _) = inv.rests.1 d in ([], rw log (append-nil (whole s.point)))
    | inr f ↦ let (log, _) = inv.rests.0 f free in (whole s.point, rw log refl)
  ]
]

-- The error for a detach that ended so: its own, or the typed one when it did not return in time.
abbrev pub IsResultOf : Option (Option GoError) → Option GoError → Type 0
IsResultOf (some own) e = e ≡ own
IsResultOf none e = e ≡ some (sentinel Sentinel.detach_did_not_return)

detach_result-IsResultOf : (d : Option (Option GoError)) → IsResultOf d (detach_result d)
detach_result-IsResultOf (some own) = refl
detach_result-IsResultOf none = refl

-- A caller that has returned finds everything done, one detach ended, and has the error of that one.
abbrev pub HasResult : RealPoint → Shared → Stage → Type 0
HasResult p s outside = Unit
HasResult p s draining = Unit
HasResult p s flushing = Unit
HasResult p s detaching = Unit
HasResult p s settled = Unit
HasResult p s released = Unit
HasResult p s (returned e) =
    (s.log ≡ whole p)
    × (d : Option (Option GoError)) × (s.ends ≡ d ∷ [])
    × IsResultOf d e
    × ((unmount_verdict e ≡ none) ↔ IsClean d)

known-HasResult :
    (p : RealPoint) (s : Shared) (st : Stage)
    → whole s.point ≡ whole p
    → Rests s
    → Knows s st
    → HasResult p s st
known-HasResult p s outside w r k = tt
known-HasResult p s draining w r k = tt
known-HasResult p s flushing w r k = tt
known-HasResult p s detaching w r k = tt
known-HasResult p s settled w r k = tt
known-HasResult p s released w r k = tt
known-HasResult p s (returned e) w r (done, same) =
    let (_, log, (d, one, result)) = r.1 done in
    (
      log ∙ w,
      d,
      one,
      rw (same ∙ result) (detach_result-IsResultOf d),
      rw (same ∙ result) (unmount_verdict-IsClean d),
    )

-- However the callers of doUnmount on a fresh point interleave, at most one is inside the Once; what
-- has been done is the beginning of the drain and the flush, if there is a VFS, and the detach, each
-- once and in that order; and a caller that has returned finds all of it done, and just one detach
-- ended, and has the error of that one, or the typed error when it did not return; the seam makes no error of it exactly
-- when the detach reported none, or the error of a detach that did not return, or did not return in
-- time.
pub callers_detach_once :
    (p : RealPoint) (n k : ℕ) (s : Shared) (sts : List Stage)
    → p.done ≡ false
    → Reach p n k s sts
    → (running sts ≤ 1) × IsBegun s.log p × All (HasResult p s) sts
callers_detach_once p n k s sts fresh r =
    let inv = Reach-Inv fresh r in
    let w = Reach-whole r in
    let (rest, begun) = Inv-IsBegun s sts inv in
    (
      omega (arith, held_one s.busy, inv.one),
      (rest, begun ∙ w),
      All-map (λ st h. known-HasResult p s st w inv.rests h) sts inv.known,
    )
