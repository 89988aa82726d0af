-- ===== src/Mounter/Point/Callers/OneRunner.antt =====
-- At most one caller of doUnmount in internal/mounter/realpoint.go is inside its Once, and what has
-- been done is what its place there says.
use ocu_rclone_filestore.Base.{
  if◌then◌else◌, ℕ, ◌+◌, ◌≤◌, ◌≡◌, refl, sym, ◌∙◌, arith, Bool, true, false, Option, GoError, List,
  [], ◌∷◌, ◌++◌, Bool-cases, inl, inr,
}
use ocu_rclone_filestore.Mounter.Point.{
  PointAction, wait_for_writers, flush_dir_cache, detach, writeback_drain_timeout, RealPoint,
  grace_of, detach_result, drain_actions,
}
use ocu_rclone_filestore.Mounter.Point.Callers.{
  Stage, outside, draining, flushing, detaching, settled, released, returned, Shared, logged, kept,
  ended, given_back, Move, enter, pass, drain, no_vfs, flush, detached, give_back, return,
}

-- Everything that an unmount of the point does.
abbrev pub whole : RealPoint → List PointAction
whole p =
    (if p.has_vfs then wait_for_writers writeback_drain_timeout ∷ flush_dir_cache ∷ [] else [])
    ++ detach (grace_of p) ∷ []

-- One detach has ended, and the error that the point keeps is that of it.
abbrev pub HasDetached : Shared → Type 0
HasDetached s =
    (d : Option (Option GoError)) × (s.ends ≡ d ∷ []) × (s.point.unmount_err ≡ detach_result d)

-- The caller is inside the function.
abbrev pub inside : Stage → ℕ
inside outside = 0
inside draining = 1
inside flushing = 1
inside detaching = 1
inside settled = 1
inside released = 0
inside (returned e) = 0

unfoldable pub running : List Stage → ℕ
running [] = 0
running (st ∷ sts) = inside st + running sts

abbrev pub held : Bool → ℕ
held false = 0
held true = 1

-- What a caller at that stage knows.
abbrev pub Knows : Shared → Stage → Type 0
Knows s outside = Unit
Knows s draining = (s.log ≡ []) × (s.ends ≡ [])
Knows s flushing =
    ((s.point.has_vfs ≡ true) × (s.log ≡ wait_for_writers writeback_drain_timeout ∷ []))
    × (s.ends ≡ [])
Knows s detaching = (s.log ≡ drain_actions s.point.has_vfs) × (s.ends ≡ [])
Knows s settled = (s.log ≡ whole s.point) × HasDetached s
Knows s released = s.point.done ≡ true
Knows s (returned e) = (s.point.done ≡ true) × (e ≡ s.point.unmount_err)

-- What holds with no caller inside: nothing has been done yet, or everything.
abbrev pub Rests : Shared → Type 0
Rests s =
    (s.point.done ≡ false → s.busy ≡ false → (s.log ≡ []) × (s.ends ≡ []))
    × (s.point.done ≡ true → (s.busy ≡ false) × (s.log ≡ whole s.point) × HasDetached s)

pub Move-inside :
    {s s' : Shared} {st st' : Stage}
    → Move s st s' st'
    → Knows s st
    → Rests s
    → inside st ≤ held s.busy
    → inside st' + held s.busy ≡ inside st + held s'.busy
Move-inside (enter d b) k r h = rw b refl
Move-inside (pass d) k r h = refl
Move-inside (drain v) k r h = refl
Move-inside (no_vfs v) k r h = refl
Move-inside flush k r h = refl
Move-inside (detached d) k r h = refl
Move-inside {s} give_back k r h = elim (Bool-cases s.busy) [
  | inl e ↦ rw e refl
  | inr e ↦ absurd (omega (arith, rw e at h))
]
Move-inside return k r h = refl

pub Move-Knows :
    {s s' : Shared} {st st' : Stage} → Move s st s' st' → Knows s st → Rests s → Knows s' st'
Move-Knows (enter d b) k r = r.0 d b
Move-Knows (pass d) k r = d
Move-Knows (drain v) (k, e) r = ((v, rw k refl), e)
Move-Knows (no_vfs v) (k, e) r = (rw (k, v) refl, e)
Move-Knows flush ((v, k), e) r = (rw (k, v) refl, e)
Move-Knows (detached d) (k, e) r = (rw k refl, (d, rw e refl, refl))
Move-Knows give_back k r = refl
Move-Knows return k r = (k, refl)

-- A caller that is inside has the mutex, and the flag is not set.
pub inside_busy :
    (s : Shared) → Rests s → 1 ≤ held s.busy → (s.busy ≡ true) × (s.point.done ≡ false)
inside_busy s r h = elim (Bool-cases s.busy) [
  | inr free ↦ absurd (omega (arith, rw free at h))
  | inl busy ↦ elim (Bool-cases s.point.done) [
    | inl done ↦ absurd (true_false (sym busy ∙ (r.1 done).0))
    | inr fresh ↦ (busy, fresh)
  ]
]
  where
    true_false : true ≡ false → ⊥
    true_false e = cc

busy_Rests : (s : Shared) → (s.busy ≡ true) × (s.point.done ≡ false) → Rests s
busy_Rests s (b, f) = ((λ e g. cc), (λ e. cc))

pub Move-Rests :
    {s s' : Shared} {st st' : Stage}
    → Move s st s' st'
    → Knows s st
    → Rests s
    → inside st ≤ held s.busy
    → Rests s'
Move-Rests {s} (enter d b) k r h = busy_Rests (record s { busy = true }) (refl, d)
Move-Rests (pass d) k r h = r
Move-Rests {s} (drain v) k r h =
    busy_Rests (logged s (wait_for_writers writeback_drain_timeout)) (inside_busy s r h)
Move-Rests (no_vfs v) k r h = r
Move-Rests {s} flush k r h = busy_Rests (logged s flush_dir_cache) (inside_busy s r h)
Move-Rests {s} (detached d) k r h =
    busy_Rests (kept (ended (logged s (detach (grace_of s.point))) d) (detach_result d))
      (inside_busy s r h)
Move-Rests give_back k r h = ((λ e. cc), (λ e. (refl, k.0, k.1)))
Move-Rests return k r h = r

-- A caller that is outside the function knows nothing that a step of the one inside can undo.
outside_Knows :
    (s s' : Shared) (o : Stage) → inside o ≡ 0 → s.point.done ≡ false → Knows s o → Knows s' o
outside_Knows s s' outside h f k = tt
outside_Knows s s' draining h f k = absurd (omega arith)
outside_Knows s s' flushing h f k = absurd (omega arith)
outside_Knows s s' detaching h f k = absurd (omega arith)
outside_Knows s s' settled h f k = absurd (omega arith)
outside_Knows s s' released h f k = cc
outside_Knows s s' (returned e) h f (d, g) = cc

pub held_one : (b : Bool) → held b ≤ 1
held_one true = omega arith
held_one false = omega arith

inside-Knows :
    (s s' : Shared) (o : Stage) → Rests s → inside o + 1 ≤ held s.busy → Knows s o → Knows s' o
inside-Knows s s' o r h k =
    let (_, fresh) = inside_busy s r (omega arith) in
    outside_Knows s s' o (omega (arith, held_one s.busy)) fresh k

-- What another caller knows stays true, when at most one of the two is inside.
pub Move-others :
    {s s' : Shared} {st st' : Stage} (o : Stage)
    → Move s st s' st'
    → Rests s
    → inside o + inside st ≤ held s.busy
    → Knows s o
    → Knows s' o
Move-others o (enter d b) r h k = k
Move-others o (pass d) r h k = k
Move-others {s} o (drain v) r h k =
    inside-Knows s (logged s (wait_for_writers writeback_drain_timeout)) o r h k
Move-others o (no_vfs v) r h k = k
Move-others {s} o flush r h k = inside-Knows s (logged s flush_dir_cache) o r h k
Move-others {s} o (detached d) r h k =
    inside-Knows s (kept (ended (logged s (detach (grace_of s.point))) d) (detach_result d)) o r h k
Move-others {s} o give_back r h k = inside-Knows s (given_back s) o r h k
Move-others o return r h k = k

pub fresh_Rests :
    (p : RealPoint)
    → p.done ≡ false
    → Rests (record { point = p; busy = false; log = []; ends = [] })
fresh_Rests p f = ((λ e g. (refl, refl)), (λ e. cc))
