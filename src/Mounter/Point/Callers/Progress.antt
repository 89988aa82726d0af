-- ===== src/Mounter/Point/Callers/Progress.antt =====
-- That concurrent callers of doUnmount in internal/mounter/realpoint.go all return.
use ocu_rclone_filestore.Base.{
  ℕ, zero, suc, ◌+◌, ◌*◌, ◌≤◌, ◌≡◌, refl, ap, arith, false, none, ◌⊎◌, inl, inr, GoError, Option,
  List, [], ◌∷◌, All, Bool-cases,
}
use ocu_rclone_filestore.Mounter.Point.{RealPoint}
use ocu_rclone_filestore.Mounter.Point.Callers.{
  Stage, outside, draining, flushing, detaching, settled, released, returned, Shared, Move, enter,
  pass, drain, no_vfs, flush, detached, give_back, return, Turn, here, other, callers, Reach, begin,
  later,
}
use ocu_rclone_filestore.Mounter.Point.Callers.OneRunner.{inside, running, held}
use ocu_rclone_filestore.Mounter.Point.Callers.OneDetach.{Reach-Inv}

-- The steps that a caller has still to take, at most.
abbrev steps_left : Stage → ℕ
steps_left outside = 6
steps_left draining = 5
steps_left flushing = 4
steps_left detaching = 3
steps_left settled = 2
steps_left released = 1
steps_left (returned e) = 0

unfoldable all_left : List Stage → ℕ
all_left [] = 0
all_left (st ∷ sts) = steps_left st + all_left sts

abbrev pub HasReturned : Stage → Type 0
HasReturned st = (e : Option GoError) × (st ≡ returned e)

Move-steps_left :
    {s s' : Shared} {st st' : Stage} → Move s st s' st' → suc (steps_left st') ≤ steps_left st
Move-steps_left (enter d b) = omega arith
Move-steps_left (pass d) = omega arith
Move-steps_left (drain v) = omega arith
Move-steps_left (no_vfs v) = omega arith
Move-steps_left flush = omega arith
Move-steps_left (detached d) = omega arith
Move-steps_left give_back = omega arith
Move-steps_left return = omega arith

Turn-all_left :
    {s s' : Shared} {sts sts' : List Stage}
    → Turn s sts s' sts'
    → suc (all_left sts') ≤ all_left sts
unfolding all_left
Turn-all_left (here mv) = omega (arith, Move-steps_left mv)
Turn-all_left (other t) = omega (arith, Turn-all_left t)

all_left-callers : (n : ℕ) → all_left (callers n) ≡ 6 * n
unfolding all_left
all_left-callers zero = omega arith
all_left-callers (suc n) = omega (arith, all_left-callers n)

Reach-steps :
    {p : RealPoint} {n k : ℕ} {s : Shared} {sts : List Stage}
    → Reach p n k s sts
    → k + all_left sts ≤ 6 * n
Reach-steps {n} begin = omega (arith, all_left-callers n)
Reach-steps (later r t) = omega (arith, Reach-steps r, Turn-all_left t)

abbrev CanMove : Shared → Stage → Type 0
CanMove s st = (s' : Shared) × (st' : Stage) × Move s st s' st'

abbrev CanTurn : Shared → List Stage → Type 0
CanTurn s sts = (s' : Shared) × (sts' : List Stage) × Turn s sts s' sts'

first_moves : (s : Shared) (st : Stage) (sts : List Stage) → CanMove s st → CanTurn s (st ∷ sts)
first_moves s st sts (s', st', mv) = (s', st' ∷ sts, here mv)

other_turns : (s : Shared) (st : Stage) (sts : List Stage) → CanTurn s sts → CanTurn s (st ∷ sts)
other_turns s st sts (s', sts', t) = (s', st ∷ sts', other t)

-- The caller that holds the mutex is never blocked.
inside_moves : (s : Shared) (st : Stage) → (inside st ≡ 0) ⊎ CanMove s st
inside_moves s outside = inl refl
inside_moves s draining = elim (Bool-cases s.point.has_vfs) [
  | inl v ↦ inr (_, _, drain v)
  | inr v ↦ inr (_, _, no_vfs v)
]
inside_moves s flushing = inr (_, _, flush)
inside_moves s detaching = inr (_, _, detached none)
inside_moves s settled = inr (_, _, give_back)
inside_moves s released = inl refl
inside_moves s (returned e) = inl refl

runner_turns : (s : Shared) (sts : List Stage) → 1 ≤ running sts → CanTurn s sts
unfolding running
runner_turns s [] h = absurd (omega arith)
runner_turns s (st ∷ sts) h = elim (inside_moves s st) [
  | inr mv ↦ first_moves s st sts mv
  | inl out ↦ other_turns s st sts (runner_turns s sts (omega arith))
]

-- With the mutex free, a caller that has not returned can go on.
free_moves :
    (s : Shared) (st : Stage) → s.busy ≡ false → inside st ≡ 0 → HasReturned st ⊎ CanMove s st
free_moves s outside free out = elim (Bool-cases s.point.done) [
  | inl d ↦ inr (_, _, pass d)
  | inr f ↦ inr (_, _, enter f free)
]
free_moves s draining free out = absurd (omega arith)
free_moves s flushing free out = absurd (omega arith)
free_moves s detaching free out = absurd (omega arith)
free_moves s settled free out = absurd (omega arith)
free_moves s released free out = inr (_, _, return)
free_moves s (returned e) free out = inl (e, refl)

free_turns :
    (s : Shared) (sts : List Stage)
    → s.busy ≡ false
    → running sts ≡ 0
    → All HasReturned sts ⊎ CanTurn s sts
unfolding running
free_turns s [] free quiet = inl tt
free_turns s (st ∷ sts) free quiet = elim (free_moves s st free (omega arith)) [
  | inr mv ↦ inr (first_moves s st sts mv)
  | inl back ↦ elim (free_turns s sts free (omega arith)) [
    | inl all_back ↦ inl (back, all_back)
    | inr t ↦ inr (other_turns s st sts t)
  ]
]

-- However the callers of doUnmount on a fresh point interleave, they take at most six steps each;
-- and as long as one has not returned, some caller can go on: the Once never leaves them all blocked,
-- whether or not the detach returns.
pub callers_return :
    (p : RealPoint) (n k : ℕ) (s : Shared) (sts : List Stage)
    → p.done ≡ false
    → Reach p n k s sts
    → (k ≤ 6 * n) × (All HasReturned sts ⊎ (s' : Shared) × (sts' : List Stage) × Turn s sts s' sts')
callers_return p n k s sts fresh r =
    let inv = Reach-Inv fresh r in
    (
      omega (arith, Reach-steps r),
      elim (Bool-cases s.busy) [
        | inl b ↦ inr (runner_turns s sts (omega (arith, inv.one, ap held b)))
        | inr free ↦ free_turns s sts free (omega (arith, inv.one, ap held free))
      ],
    )
