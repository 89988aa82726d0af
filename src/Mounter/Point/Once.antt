-- ===== src/Mounter/Point/Once.antt =====
-- The callers of doUnmount in internal/mounter/realpoint.go, and the seam's unmount.
use ocu_rclone_filestore.Base.{
  ◌↔◌, is, Sentinel, none, some, true, false, ◌≡◌, refl, ap, ◌∙◌, arith, Option, GoError, List, [],
  ◌∷◌, ◌++◌, append-nil, All,
}
use ocu_rclone_filestore.Mounter.Point.{
  detach, RealPoint, grace_of, detach_result, drain_actions, do_unmount, do_unmounts, unmount,
  unmount_verdict, real,
}

do_unmount_done :
    (d : Option (Option GoError)) (p : RealPoint)
    → p.done ≡ true
    → do_unmount d p ≡ ([], p, p.unmount_err)
unfolding do_unmount
do_unmount_done d p h = ground arith

do_unmount_fresh :
    (d : Option (Option GoError)) (p : RealPoint)
    → p.done ≡ false
    → do_unmount d p ≡ (
      drain_actions p.has_vfs ++ detach (grace_of p) ∷ [],
      record p { done = true; unmount_err = detach_result d },
      detach_result d,
    )
unfolding do_unmount
do_unmount_fresh d p h = ground arith

-- Once the point is done, callers do nothing and get the result that was kept.
done_callers :
    (ds : List (Option (Option GoError))) (p : RealPoint)
    → p.done ≡ true
    → ((do_unmounts ds p).0 ≡ []) × All (λ e. e ≡ p.unmount_err) (do_unmounts ds p).1
unfolding do_unmounts
done_callers [] p h = (refl, tt)
done_callers (d ∷ ds) p h =
    rw (do_unmount_done d p h) (let (quiet, same) = done_callers ds p h in (quiet, (refl, same)))

-- How a detach ends that is no error of the teardown: it reports none, or the error of a detach that
-- did not return, or does not return in time.
abbrev pub IsClean : Option (Option GoError) → Type 0
IsClean none = Unit
IsClean (some none) = Unit
IsClean (some (some e)) = is e Sentinel.detach_did_not_return ≡ true

pub unmount_verdict-IsClean :
    (d : Option (Option GoError)) → (unmount_verdict (detach_result d) ≡ none) ↔ IsClean d
unmount_verdict-IsClean none = (λ h. tt, λ h. refl)
unmount_verdict-IsClean (some none) = (λ h. tt, λ h. refl)
unmount_verdict-IsClean (some (some e)) = ground arith

pub unmount_fresh :
    (d : Option (Option GoError)) (p : RealPoint)
    → p.done ≡ false
    → (unmount d (real p)).2 ≡ unmount_verdict (detach_result d)
unfolding unmount
unmount_fresh d p fresh = ap (λ r. unmount_verdict r.2) (do_unmount_fresh d p fresh)

-- However many callers unmount a fresh point, the VFS is drained and flushed, if there is one, then
-- the kernel mount is detached, each exactly once and in that order; and every caller gets the
-- result of that one detach, or the typed error when it did not return. The seam's unmount of that
-- point reports no error exactly when the detach reported none, or the error of a detach that did not
-- return, or did not return in time.
pub do_unmounts_once :
    (d : Option (Option GoError)) (ds : List (Option (Option GoError))) (p : RealPoint)
    → p.done ≡ false
    → ((do_unmounts (d ∷ ds) p).0 ≡ drain_actions p.has_vfs ++ detach (grace_of p) ∷ [])
      × All (λ e. e ≡ detach_result d) (do_unmounts (d ∷ ds) p).1
      × (((unmount d (real p)).2 ≡ none) ↔ IsClean d)
unfolding do_unmounts
do_unmounts_once d ds p fresh =
    let p' : RealPoint = record p { done = true; unmount_err = detach_result d } in
    let (quiet, same) = done_callers ds p' refl in
    let clean = unmount_verdict-IsClean d in
    rw (unmount_fresh d p fresh) (
      rw (do_unmount_fresh d p fresh) (
        ap (◌++◌ (drain_actions p.has_vfs ++ detach (grace_of p) ∷ [])) quiet
            ∙ append-nil (drain_actions p.has_vfs ++ detach (grace_of p) ∷ []),
        (refl, same),
        clean,
      ))
