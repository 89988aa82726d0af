-- ===== src/Mounter/Orchestrator/Fanout/Workers.antt =====
-- The goroutines of unmountAll in internal/mounter/orchestrator.go, and what a step of one of them
-- keeps.
use mathlib.Core.List.{Perm}
use mathlib.Core.List.Perm
use ocu_rclone_filestore.Base.{
  ℕ, zero, suc, ◌+◌, ◌≡◌, refl, ap, arith, none, Bool, true, false, if◌then◌else◌, Bool-cases, inl,
  inr, List, [], ◌∷◌, map, length, All,
}
use ocu_rclone_filestore.Mounter.Orchestrator.{Env}
use ocu_rclone_filestore.Mounter.Orchestrator.Fanout.{
  Phase, unborn, born, unmounting, returned, leaving, left, Worker, worker, keep, Effect, nothing,
  calls, is_done, wg_after, log_after, Turn, call, return, store, leave, other, Caller, starting,
  waiting, finished, compact,
}

abbrev pub point_of : Worker → ℕ
point_of (worker p ph slot) = p

-- The goroutine counts in the wait group.
abbrev pub is_live : Phase → ℕ
is_live unborn = 0
is_live born = 1
is_live unmounting = 1
is_live (returned e) = 1
is_live leaving = 1
is_live left = 0

unfoldable pub live : List Worker → ℕ
live [] = 0
live (worker p ph slot ∷ ws) = is_live ph + live ws

abbrev pub was_called : Phase → Bool
was_called unborn = false
was_called born = false
was_called unmounting = true
was_called (returned e) = true
was_called leaving = true
was_called left = true

-- The points whose unmount has been called.
unfoldable pub called : List Worker → List ℕ
called [] = []
called (worker p ph slot ∷ ws) = if was_called ph then p ∷ called ws else called ws

-- The slot is what the phase says.
abbrev pub IsSettled : Env → Worker → Type 0
IsSettled env (worker p unborn slot) = slot ≡ none
IsSettled env (worker p born slot) = slot ≡ none
IsSettled env (worker p unmounting slot) = slot ≡ none
IsSettled env (worker p (returned e) slot) = (slot ≡ none) × (e ≡ env.unmount_error p)
IsSettled env (worker p leaving slot) = slot ≡ keep (env.destination p) (env.unmount_error p) none
IsSettled env (worker p left slot) = slot ≡ keep (env.destination p) (env.unmount_error p) none

abbrev pub IsUnborn : Worker → Type 0
IsUnborn (worker p ph slot) = ph ≡ unborn

abbrev pub IsBorn : Phase → Type 0
IsBorn unborn = ⊥
IsBorn _ = Unit

abbrev pub HasLeft : Worker → Type 0
HasLeft (worker p ph slot) = ph ≡ left

-- Just the goroutines below the index have been started.
unfoldable pub StartedUpTo : ℕ → List Worker → Type 0
StartedUpTo zero ws = All IsUnborn ws
StartedUpTo (suc i) [] = ⊥
StartedUpTo (suc i) (worker p ph slot ∷ ws) = IsBorn ph × StartedUpTo i ws

-- What the caller knows of the goroutines.
unfoldable pub Knows : Caller → List Worker → Type 0
Knows (starting i) ws = StartedUpTo i ws
Knows waiting ws = StartedUpTo (length ws) ws
Knows (finished es) ws = All HasLeft ws × (es ≡ compact ws)

-- How many of the goroutines a step takes out of the wait group.
abbrev pub done_by : Effect → ℕ
done_by nothing = 0
done_by (calls p) = 0
done_by is_done = 1

pub wg_after-done_by : (eff : Effect) (n : ℕ) → wg_after eff (done_by eff + n) ≡ n
wg_after-done_by nothing n = omega arith
wg_after-done_by (calls p) n = omega arith
wg_after-done_by is_done n = omega arith

pub log_after-cons :
    (eff : Effect) (p : ℕ) (log : List ℕ) → Perm (log_after eff (p ∷ log)) (p ∷ log_after eff log)
log_after-cons nothing p log = Perm.refl _
log_after-cons (calls q) p log = Perm.swap _ _ _
log_after-cons is_done p log = Perm.refl _

pub log_after-Perm :
    (eff : Effect) {log ps : List ℕ} → Perm log ps → Perm (log_after eff log) (log_after eff ps)
log_after-Perm nothing h = h
log_after-Perm (calls q) h = Perm.cons q h
log_after-Perm is_done h = h

module _ {env : Env} where
  pub Turn-point_of :
      {eff : Effect} {ws ws' : List Worker}
      → Turn env eff ws ws'
      → map point_of ws' ≡ map point_of ws
  Turn-point_of call = refl
  Turn-point_of return = refl
  Turn-point_of store = refl
  Turn-point_of leave = refl
  Turn-point_of (other {w} t) = ap (◌∷◌ (point_of w)) (Turn-point_of t)

  pub Turn-IsSettled :
      {eff : Effect} {ws ws' : List Worker}
      → Turn env eff ws ws'
      → All (IsSettled env) ws
      → All (IsSettled env) ws'
  Turn-IsSettled call (h, hs) = (h, hs)
  Turn-IsSettled return (h, hs) = ((h, refl), hs)
  Turn-IsSettled (store {p}) ((h, e), hs) = (rw (h, e) refl, hs)
  Turn-IsSettled leave (h, hs) = (h, hs)
  Turn-IsSettled (other t) (h, hs) = (h, Turn-IsSettled t hs)

  pub Turn-live :
      {eff : Effect} {ws ws' : List Worker} → Turn env eff ws ws' → live ws ≡ done_by eff + live ws'
  unfolding live
  Turn-live call = omega arith
  Turn-live return = omega arith
  Turn-live store = omega arith
  Turn-live leave = omega arith
  Turn-live (other {w = worker p ph slot} t) = omega (arith, Turn-live t)

  pub Turn-StartedUpTo :
      {eff : Effect} {ws ws' : List Worker} (i : ℕ)
      → Turn env eff ws ws'
      → StartedUpTo i ws
      → StartedUpTo i ws'
  unfolding StartedUpTo
  Turn-StartedUpTo zero call (h, hs) = absurd cc
  Turn-StartedUpTo zero return (h, hs) = absurd cc
  Turn-StartedUpTo zero store (h, hs) = absurd cc
  Turn-StartedUpTo zero leave (h, hs) = absurd cc
  Turn-StartedUpTo zero (other t) (h, hs) = (h, Turn-StartedUpTo zero t hs)
  Turn-StartedUpTo (suc i) call (h, hs) = (tt, hs)
  Turn-StartedUpTo (suc i) return (h, hs) = (tt, hs)
  Turn-StartedUpTo (suc i) store (h, hs) = (tt, hs)
  Turn-StartedUpTo (suc i) leave (h, hs) = (tt, hs)
  Turn-StartedUpTo (suc i) (other {w = worker p ph slot} t) (h, hs) = (h, Turn-StartedUpTo i t hs)

  pub Turn-called :
      {eff : Effect} {ws ws' : List Worker}
      → Turn env eff ws ws'
      → Perm (log_after eff (called ws)) (called ws')
  unfolding called
  Turn-called call = Perm.refl _
  Turn-called return = Perm.refl _
  Turn-called store = Perm.refl _
  Turn-called leave = Perm.refl _
  Turn-called (other {eff} {w = worker p ph slot} {ws} {ws'} t) =
      elim (Bool-cases (was_called ph)) [
        | inl h ↦ rw h (Perm.trans (log_after-cons eff p (called ws)) (Perm.cons p (Turn-called t)))
        | inr h ↦ rw h (Turn-called t)
      ]

  pub Turn-length :
      {eff : Effect} {ws ws' : List Worker} → Turn env eff ws ws' → length ws' ≡ length ws
  Turn-length call = refl
  Turn-length return = refl
  Turn-length store = refl
  Turn-length leave = refl
  Turn-length (other t) = ap suc (Turn-length t)

  pub Turn-HasLeft :
      {eff : Effect} {ws ws' : List Worker} → Turn env eff ws ws' → All HasLeft ws → ⊥
  Turn-HasLeft call (h, hs) = cc
  Turn-HasLeft return (h, hs) = cc
  Turn-HasLeft store (h, hs) = cc
  Turn-HasLeft leave (h, hs) = cc
  Turn-HasLeft (other t) (h, hs) = Turn-HasLeft t hs

pub Turn-Knows :
    {env : Env} {eff : Effect} {ws ws' : List Worker} (c : Caller)
    → Turn env eff ws ws'
    → Knows c ws
    → Knows c ws'
unfolding Knows
Turn-Knows (starting i) t k = Turn-StartedUpTo i t k
Turn-Knows waiting t k = rw (Turn-length t) (Turn-StartedUpTo _ t k)
Turn-Knows (finished es) t (gone, e) = absurd (Turn-HasLeft t gone)
