-- ===== src/Mounter/Orchestrator/Fanout/Progress.antt =====
-- That unmountAll of internal/mounter/orchestrator.go ends, once each unmount has returned.
use ocu_rclone_filestore.Base.{
  ℕ, zero, suc, ◌+◌, ◌*◌, ◌≤◌, ◌≡◌, refl, ap, ◌∙◌, arith, ◌⊎◌, inl, inr, Option, none, GoError,
  List, [], ◌∷◌, map, length, All,
}
use ocu_rclone_filestore.Mounter.Orchestrator.{Env}
use ocu_rclone_filestore.Mounter.Orchestrator.Fanout.{
  Phase, unborn, born, unmounting, returned, leaving, left, Worker, worker, Effect, Turn, call,
  return, store, leave, other, Start, here, there, Caller, starting, waiting, finished, Fan, Step,
  start_next, await, work, go_on, Reach, begin, later,
}
use ocu_rclone_filestore.Mounter.Orchestrator.Fanout.Workers.{
  HasLeft, StartedUpTo, Knows, is_live, live,
}
use ocu_rclone_filestore.Mounter.Orchestrator.Fanout.Collects.{Inv, Reach-Inv, errors_in_order}

-- The steps that a goroutine has still to take, its start included.
abbrev steps_left : Phase → ℕ
steps_left unborn = 5
steps_left born = 4
steps_left unmounting = 3
steps_left (returned e) = 2
steps_left leaving = 1
steps_left left = 0

unfoldable work_left : List Worker → ℕ
work_left [] = 0
work_left (worker p ph slot ∷ ws) = steps_left ph + work_left ws

abbrev caller_left : Caller → ℕ
caller_left (starting i) = 2
caller_left waiting = 1
caller_left (finished es) = 0

Turn-work_left :
    {env : Env} {eff : Effect} {ws ws' : List Worker}
    → Turn env eff ws ws'
    → work_left ws ≡ suc (work_left ws')
unfolding work_left
Turn-work_left call = omega arith
Turn-work_left return = omega arith
Turn-work_left store = omega arith
Turn-work_left leave = omega arith
Turn-work_left (other {w = worker p ph slot} t) = omega (arith, Turn-work_left t)

Start-work_left :
    {i : ℕ} {ws ws' : List Worker} → Start i ws ws' → work_left ws ≡ suc (work_left ws')
unfolding work_left
Start-work_left here = omega arith
Start-work_left (there {w = worker p ph slot} t) = omega (arith, Start-work_left t)

-- Each step is one of those that were still to be taken.
Step-work_left :
    {env : Env} {s t : Fan}
    → Step env s t
    → caller_left s.caller + work_left s.workers ≡ suc (caller_left t.caller + work_left t.workers)
Step-work_left (start_next e t) = rw e (omega (arith, Start-work_left t))
Step-work_left (await e) = rw e (omega arith)
Step-work_left (work t) = omega (arith, Turn-work_left t)
Step-work_left (go_on e done) = rw e (omega arith)

work_left-fresh :
    (points : List ℕ) → work_left (map (λ p. worker p unborn none) points) ≡ 5 * length points
unfolding work_left
work_left-fresh [] = refl
work_left-fresh (p ∷ points) = omega (arith, work_left-fresh points)

HasLeft-work_left : (ws : List Worker) → All HasLeft ws → work_left ws ≡ 0
unfolding work_left
HasLeft-work_left [] gone = refl
HasLeft-work_left (worker p ph slot ∷ ws) (g, gone) =
    omega (arith, ap steps_left g, HasLeft-work_left ws gone)

Reach-steps :
    {env : Env} {points : List ℕ} {k : ℕ} {s : Fan}
    → Reach env points k s
    → k + (caller_left s.caller + work_left s.workers) ≡ 5 * length points + 2
Reach-steps {points} begin = omega (arith, work_left-fresh points)
Reach-steps (later r st) = omega (arith, Reach-steps r, Step-work_left st)

-- A goroutine that is counted can take its next step, whatever the others do.
module _ {env : Env} where
  phase_turn :
      (p : ℕ) (ph : Phase) (slot : Option GoError) (ws : List Worker)
      → (is_live ph ≡ 0)
        ⊎ (eff : Effect) × (ws' : List Worker) × Turn env eff (worker p ph slot ∷ ws) ws'
  phase_turn p unborn slot ws = inl refl
  phase_turn p born slot ws = inr (_, _, call)
  phase_turn p unmounting slot ws = inr (_, _, return)
  phase_turn p (returned e) slot ws = inr (_, _, store)
  phase_turn p leaving slot ws = inr (_, _, leave)
  phase_turn p left slot ws = inl refl

  live_turn :
      (ws : List Worker)
      → (live ws ≡ 0) ⊎ (eff : Effect) × (ws' : List Worker) × Turn env eff ws ws'
  unfolding live
  live_turn [] = inl refl
  live_turn (worker p ph slot ∷ ws) = elim (phase_turn p ph slot ws) [
    | inr t ↦ inr t
    | inl quiet ↦ elim (live_turn ws) [
      | inr (eff, ws', t) ↦ inr (eff, _, other t)
      | inl none_live ↦ inl (omega arith)
    ]
  ]

next_birth :
    (i : ℕ) (ws : List Worker)
    → StartedUpTo i ws
    → (i ≡ length ws) ⊎ (ws' : List Worker) × Start i ws ws'
unfolding StartedUpTo
next_birth zero [] h = inl refl
next_birth zero (worker p ph slot ∷ ws) (h, hs) = inr (worker p born slot ∷ ws, rw h here)
next_birth (suc i) [] h = absurd h
next_birth (suc i) (worker p ph slot ∷ ws) (h, hs) = elim (next_birth i ws hs) [
  | inl e ↦ inl (ap suc e)
  | inr (ws', t) ↦ inr (_, there t)
]

next_step :
    {env : Env} {points : List ℕ} {s : Fan} (c : Caller)
    → s.caller ≡ c
    → Inv env points s
    → ((t : Fan) × Step env s t) ⊎ (errors : List GoError) × (c ≡ finished errors)
unfolding Knows
next_step {s} (starting i) e inv = elim (next_birth i s.workers (rw e at inv.known)) [
  | inl last ↦ inl (_, await (e ∙ ap starting last))
  | inr (ws, t) ↦ inl (_, start_next e t)
]
next_step {env} {s} waiting e inv = elim (live_turn {env = env} s.workers) [
  | inl none_live ↦ inl (_, go_on e (inv.counted ∙ none_live))
  | inr (eff, ws, t) ↦ inl (_, work t)
]
next_step (finished errors) e inv = inr (errors, refl)

-- In whatever order the goroutines run, unmountAll can always go on until it returns, and it returns
-- after five steps for each point (its start, the call and the return of its unmount, its slot and
-- wg.Done) and two of its own: no goroutine waits for another, and wg.Wait for nothing else.
pub unmount_all-Ends :
    (env : Env) (points : List ℕ) (k : ℕ) (s : Fan)
    → Reach env points k s
    → ((t : Fan) × Step env s t × (k + 1 ≤ 5 * length points + 2))
      ⊎ (errors : List GoError) × (s.caller ≡ finished errors) × (k ≡ 5 * length points + 2)
unmount_all-Ends env points k s r = elim (next_step s.caller refl (Reach-Inv r)) [
  | inl (t, st) ↦ inl (t, st, omega (arith, Reach-steps (later r st)))
  | inr (errors, e) ↦ inr (errors, e, last_step errors e)
]
  where
    last_step : (errors : List GoError) → s.caller ≡ finished errors → k ≡ 5 * length points + 2
    last_step errors e =
        let (_, _, gone) = errors_in_order env points k s errors r e in
        omega (arith, Reach-steps r, HasLeft-work_left s.workers gone, ap caller_left e)
