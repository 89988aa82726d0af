-- ===== src/Brokerrpc/Upload/Verdict.antt =====
-- The verdict of Upload in internal/brokerrpc/upload.go.
use ocu_rclone_filestore.Base.{
  ℕ, ◌≤◌, ◌⊎◌, length, ◌≡◌, arith, Text, Option, none, some, true, GoError, ok, is, Sentinel,
}
use ocu_rclone_filestore.Brokerrpc.Reader.{Reader, payload, ending}
use ocu_rclone_filestore.Brokerrpc.Status.{Seconds, max_error_body_bytes}
use ocu_rclone_filestore.Brokerrpc.Client.{HttpResponse, responded}
use ocu_rclone_filestore.Brokerrpc.Upload.{
  upload_verdict, limited_fault, is_pipe_closure, success_verdict,
}
use mathlib.Core.Logic.{◌↔◌}

-- An error that is a closed pipe, or none at all.
abbrev pub IsHarmless : Option GoError → Type 0
IsHarmless none = Unit
IsHarmless (some e) = is e Sentinel.closed_pipe ≡ true

IsHarmless-iff :
    (read_err write_err : Option GoError)
    → (success_verdict read_err write_err ≡ ok tt) ↔ ((read_err ≡ none) × IsHarmless write_err)
unfolding is_pipe_closure
IsHarmless-iff none none = ground arith
IsHarmless-iff none (some e) = ground arith
IsHarmless-iff (some d) none = ground arith
IsHarmless-iff (some d) (some e) = ground arith

limited_fault_iff :
    (limit : ℕ) (r : Reader)
    → (limited_fault limit r ≡ none) ↔ ((limit ≤ length (payload r)) ⊎ (ending r ≡ none))
unfolding limited_fault
limited_fault_iff limit r = ground arith

module _ (parse_float : Text → Option Seconds) (r : HttpResponse) where
  -- An upload that was answered succeeds exactly when the status is 2xx, the body has 64 KiB or more
  -- before its end or fault, or ends without a fault, and the writer had no error but the closing of
  -- its pipe.
  pub upload_verdict-ok :
      (write_err : Option GoError)
      → (upload_verdict parse_float (responded r) write_err ≡ ok tt) ↔ (
          ((200 ≤ r.status) × (r.status ≤ 299))
          × ((65536 ≤ length (payload r.body)) ⊎ (ending r.body ≡ none))
          × IsHarmless write_err)
  unfolding upload_verdict
  upload_verdict-ok write_err = ground (
    arith,
    IsHarmless-iff (limited_fault max_error_body_bytes r.body) write_err,
    limited_fault_iff max_error_body_bytes r.body,
  )
