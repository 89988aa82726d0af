-- ===== src/Mounter/Bringup/Seam.antt =====
-- mountAndWaitReady of internal/mounter/realpoint.go.
use ocu_rclone_filestore.Base.{
  ℕ, suc, ◌+◌, ◌≤◌, Text, Bool, true, false, ◌≡◌, ◌⊎◌, inl, inr, ◌↔◌, refl, subst, sym, arith,
  Option, none, some, GoError, Result, ok, err, List, [], ◌∷◌, ◌++◌, map,
}
use ocu_rclone_filestore.Mounter.Specs.{MountSpec}
use ocu_rclone_filestore.Mounter.Point.{
  detach, drain_actions, RealPoint, new_real_point, do_unmount, unmount_detach_grace,
}
use ocu_rclone_filestore.Mounter.Ready.{Poll, poll_interval, wait_ready}
use ocu_rclone_filestore.Mounter.Ready.Polls.{wait_ready-ReadyAfter}
use ocu_rclone_filestore.Mounter.Bringup.{
  SeamEnv, RealPointMounter, Prepared, prepare, BringupAction, started, failed_start, on_point,
  Attempt, after_poll, after_start, after_prepare, mount_and_wait_ready,
}
use ocu_rclone_filestore.Mounter.Bringup.Steps.{IsPrepared, prepare_ok, ok_prepared}

-- What an attempt may come to, with its result. Nothing is started, or a mount was that did not come
-- up, or one that came up was unmounted; else the point is fresh, and its mount is up.
abbrev pub Outcome : SeamEnv → MountSpec → List BringupAction × Result RealPoint → Type 0
Outcome env spec (actions, result) =
    ((e : GoError) × (result ≡ err e) × (actions ≡ []))
    ⊎ ((e : GoError) × (p : Prepared) × (result ≡ err e)
        × IsPrepared env spec p
        × ((actions ≡ failed_start p ∷ [])
            ⊎ (actions
                ≡ started p
                  ∷ map on_point (drain_actions env.has_vfs ++ detach unmount_detach_grace ∷ []))))
    ⊎ ((p : Prepared) × (result ≡ ok (new_real_point spec.mount.destination env.has_vfs))
        × IsPrepared env spec p
        × (actions ≡ started p ∷ []))

-- The steps ended well, the mount was started, and the poll found it ready.
abbrev pub ComesUp : SeamEnv → ℕ → MountSpec → Type 0
ComesUp env ready_timeout spec =
    ((p : Prepared) × IsPrepared env spec p)
    × (env.start_error ≡ none)
    × (wait_ready env.can_check env.polls env.start ready_timeout spec.mount.destination
        ≡ some none)

-- An attempt that ends, in one of the outcomes.
abbrev pub Ends : SeamEnv → ℕ → MountSpec → Attempt → Type 0
Ends env ready_timeout spec x =
    (a : List BringupAction × Result RealPoint) × (x ≡ some a)
    × Outcome env spec a
    × (((point : RealPoint) × (a.1 ≡ ok point)) ↔ ComesUp env ready_timeout spec)

wait_ready_total :
    (can_check : Bool) (polls : ℕ → Poll) (start timeout : ℕ) (dest : Text)
    → start ≤ (polls 0).now
    → ((k : ℕ) → (polls k).now + poll_interval ≤ (polls (suc k)).now)
    → (e : Option GoError) × (wait_ready can_check polls start timeout dest ≡ some e)
unfolding wait_ready
wait_ready_total false polls start timeout dest starts advances = (none, refl)
wait_ready_total true polls start timeout dest starts advances =
    let (e, ends, _) = wait_ready-ReadyAfter polls start timeout dest starts advances in (e, ends)

module _ (env : SeamEnv) (ready_timeout : ℕ) (spec : MountSpec) where
  after_poll-Ends :
      (p : Prepared)
      → IsPrepared env spec p
      → env.start_error ≡ none
      → (e : Option GoError)
      → wait_ready env.can_check env.polls env.start ready_timeout spec.mount.destination ≡ some e
      → Ends env ready_timeout spec (after_poll env spec.mount.destination p (some e))
  unfolding do_unmount
  after_poll-Ends p q startable none polled =
      (_, refl, inr (inr (p, refl, q, refl)), (λ h. ((p, q), startable, polled), λ h. (_, refl)))
  after_poll-Ends p q startable (some e) polled = (
    _,
    refl,
    inr (inl (e, p, refl, q, inr refl)),
    (λ (point, bad). cc, λ (_, _, ready). absurd (ground arith)),
  )

  after_start-Ends :
      (p : Prepared)
      → IsPrepared env spec p
      → (e : Option GoError)
      → wait_ready env.can_check env.polls env.start ready_timeout spec.mount.destination ≡ some e
      → (s : Option GoError) → env.start_error ≡ s
      → Ends env ready_timeout spec (after_start env ready_timeout spec.mount.destination p s)
  after_start-Ends p q e polled none startable =
      subst (λ w. Ends env ready_timeout spec (after_poll env spec.mount.destination p w))
        (sym polled) (after_poll-Ends p q startable e polled)
  after_start-Ends p q e polled (some f) failed = (
    _,
    refl,
    inr (inl (_, p, refl, q, inl refl)),
    (λ (point, bad). cc, λ (_, startable, _). absurd (ground arith)),
  )

  after_prepare-Ends :
      (e : Option GoError)
      → wait_ready env.can_check env.polls env.start ready_timeout spec.mount.destination ≡ some e
      → (r : Result Prepared) → prepare env spec ≡ r
      → Ends env ready_timeout spec (after_prepare env ready_timeout spec.mount.destination r)
  after_prepare-Ends e polled (ok p) prepared =
      after_start-Ends p (prepare_ok env spec p prepared) e polled env.start_error refl
  after_prepare-Ends e polled (err f) refused = (
    _,
    refl,
    inl (f, refl, refl),
    (
      λ (point, bad). cc,
      λ ((p, q), _, _). (let prepared = ok_prepared env spec p q in absurd (ground arith)),
    ),
  )

-- When the waits of the poll take the poll interval or longer, an attempt to bring a spec up ends.
-- It starts a mount only after every step before it has ended well; on an error, either nothing was started, or the start failed, or the mount was drained and detached. It
-- gives a point exactly when the steps ended well, the mount was started, and the poll found it
-- ready; and that point has not been unmounted.
pub mount_and_wait_ready-Ends :
    {F : Type 0} (env : SeamEnv) (r : RealPointMounter F) (spec : MountSpec)
    → env.start ≤ (env.polls 0).now
    → ((k : ℕ) → (env.polls k).now + poll_interval ≤ (env.polls (suc k)).now)
    → Ends env r.ready_timeout spec (mount_and_wait_ready env r spec)
unfolding mount_and_wait_ready
mount_and_wait_ready-Ends env r spec starts advances =
    let (e, polled) =
      wait_ready_total env.can_check env.polls env.start r.ready_timeout spec.mount.destination
        starts advances in
    after_prepare-Ends env r.ready_timeout spec e polled (prepare env spec) refl
