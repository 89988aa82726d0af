-- ===== src/Mounter/Ready.antt =====
-- internal/mounter/realpoint.go: waitReady and mountServes. Each round of the poll finds the outside
-- in a state of its own. Times are in milliseconds.
pub mod Polls
pub mod Boundary
use ocu_rclone_filestore.Base.{
  ℕ, zero, suc, ◌+◌, ◌/◌, Text, Bool, true, false, not, Option, none, some, GoError, wrap, str, [],
  ◌∷◌, ltb, ◌==◌, if◌then◌else◌, is_empty, text_eq,
}
use ocu_rclone_filestore.Base.Paths.{slash, clean, path_dir}

-- What one round finds: ctx.Err(), CheckMountReady, the probe, the clock, and the context's error
-- when it ends during the wait.
pub record Poll : Type 0 where
  pub ctx_err : Option GoError
  pub check : Option GoError
  pub serves : Bool
  pub now : ℕ
  pub wait_err : Option GoError

abbrev pub poll_interval : ℕ
poll_interval = 100

-- What a round decides: the mount is ready, the poll ends with an error, or there is another round.
pub data Verdict : Type 0 where
  ready again : Verdict
  stopped : GoError → Verdict

abbrev pub wait_verdict : Option GoError → Verdict
wait_verdict none = again
wait_verdict (some e) = stopped e

abbrev pub check_verdict : ℕ → Poll → Option GoError → Verdict
check_verdict deadline q none = ready
check_verdict deadline q (some last) =
    if q.serves then ready else if ltb q.now deadline then wait_verdict q.wait_err else stopped last

abbrev pub ctx_verdict : ℕ → Poll → Option GoError → Verdict
ctx_verdict deadline q (some e) = stopped e
ctx_verdict deadline q none = check_verdict deadline q q.check

unfoldable pub round_verdict : ℕ → Poll → Verdict
round_verdict deadline q = ctx_verdict deadline q q.ctx_err

abbrev pub not_ready : Text → GoError → GoError
not_ready dest e = wrap "mount %q: wait for mount ready: %w" (str dest ∷ []) e

abbrev pub after_round : Text → Verdict → Option (Option GoError) → Option (Option GoError)
after_round dest ready rest = some none
after_round dest again rest = rest
after_round dest (stopped e) rest = some (some (not_ready dest e))

-- The loop from a round on; `none` means that the fuel ran out.
unfoldable pub poll_from : (ℕ → Poll) → ℕ → Text → ℕ → ℕ → Option (Option GoError)
poll_from polls deadline dest zero k = none
poll_from polls deadline dest (suc fuel) k =
    let rest = poll_from polls deadline dest fuel (suc k) in
    after_round dest (round_verdict deadline (polls k)) rest

-- The rounds that fit before the deadline, and one more on each side.
abbrev pub rounds : ℕ → ℕ
rounds timeout = suc (suc (timeout / poll_interval))

-- waitReady: where the platform cannot check, the mount is trusted.
unfoldable pub wait_ready : Bool → (ℕ → Poll) → ℕ → ℕ → Text → Option (Option GoError)
unfolding poll_from round_verdict
wait_ready can_check polls start timeout dest =
    if can_check then poll_from polls (start + timeout) dest (rounds timeout) 0 else some none

-- os.Stat of both paths: `none` for an error or a result with no device.
abbrev pub devices_differ : Option ℕ → Option ℕ → Bool
devices_differ none other = false
devices_differ (some d) none = false
devices_differ (some d) (some e) = not (d == e)

-- The boundary between a cleaned destination and its parent; a root has no parent of its own.
unfoldable pub crosses_boundary : (Text → Option ℕ) → Text → Text → Bool
unfolding text_eq
crosses_boundary stat clean_dest parent_path =
    if text_eq parent_path clean_dest
    then false
    else devices_differ (stat clean_dest) (stat parent_path)

unfoldable pub mount_serves : (Text → Option ℕ) → Text → Bool
unfolding clean path_dir crosses_boundary
mount_serves stat dest = crosses_boundary stat (clean dest) (path_dir (clean dest))
