-- ===== src/Brokerrpc/Status.antt =====
-- internal/brokerrpc/errors.go: HTTP statuses to typed errors, and the bound on the bodies of
-- error responses. A body counts as its bytes. `strconv.ParseFloat` is a parameter: `Seconds` holds
-- what the code asks of the parsed float.
pub mod Laws
use ocu_rclone_filestore.Base.{
  ℕ, ◌*◌, ◌^◌, Bool, true, false, ◌&&◌, Text, codes, Option, none, some, GoError, sentinel, message,
  wrap, join, retry, retry_after, Sentinel, str, num, [], ◌∷◌, ◌++◌, ◌==◌, leb, ltb, if◌then◌else◌,
  length, take, drop, is_empty, List,
}
use ocu_rclone_filestore.Brokerrpc.Reader.{Reader, payload, reads}

-- The answers about a parsed Retry-After: secs > 0, secs < maxRetryAfterSeconds, and the duration
-- secs * time.Second in nanoseconds.
pub record Seconds : Type 0 where
  pub is_positive : Bool
  pub is_below_limit : Bool
  pub nanos : ℕ

abbrev pub max_error_body_bytes : ℕ
max_error_body_bytes = 65536

abbrev pub error_body_truncation_marker : Text
error_body_truncation_marker = codes " ...[truncated]"

unfoldable pub bound_error_body : ℕ → Text → Text
bound_error_body cap body =
    if leb (length body) cap then body else take cap body ++ error_body_truncation_marker

-- The read of at most `cap` bytes, and the probe for one more when the cap was reached. Read errors
-- are swallowed, so only the bytes before the first fault count.
unfoldable pub capture_error_body : ℕ → Reader → Text
unfolding payload
capture_error_body cap r =
    let body = take cap (payload r) in
    if length body == cap
    then (if is_empty (drop cap (payload r)) then body else body ++ error_body_truncation_marker)
    else body

-- One branch of the status switch: fmt.Errorf("%w: status %d: %s", sentinel, status, msg).
abbrev pub mapped : Sentinel → ℕ → Text → GoError
mapped s status msg = wrap "%w: status %d: %s" (num status ∷ str msg ∷ []) (sentinel s)

abbrev pub exhausted : ℕ → Text → GoError
exhausted status msg =
    message "brokerrpc: resource exhausted: status %d: %s" (num status ∷ str msg ∷ [])

-- The 429 branch, given what the Retry-After header parsed to.
unfoldable pub too_many_requests : ℕ → Text → Option Seconds → GoError
too_many_requests status msg none = retry (exhausted status msg)
too_many_requests status msg (some secs) =
    if secs.is_positive && secs.is_below_limit
    then retry (join (exhausted status msg) (retry_after secs.nanos))
    else retry (exhausted status msg)

-- An absent header is not parsed.
abbrev pub parsed_header : (Text → Option Seconds) → Text → Option Seconds
parsed_header parse_float raw = if is_empty raw then none else parse_float raw

unfoldable pub map_http_status : (Text → Option Seconds) → ℕ → Text → Text → GoError
unfolding too_many_requests bound_error_body
map_http_status parse_float status body retry_after_raw =
    let msg = bound_error_body max_error_body_bytes body in
    if status == 401
    then mapped Sentinel.permission_denied status msg
    else if status == 403
    then mapped Sentinel.permission_denied status msg
    else if status == 404
    then mapped Sentinel.not_found status msg
    else if status == 409
    then mapped Sentinel.already_exists status msg
    else if status == 400
    then mapped Sentinel.invalid_argument status msg
    else if status == 422
    then mapped Sentinel.invalid_argument status msg
    else if status == 429
    then too_many_requests status msg (parsed_header parse_float retry_after_raw)
    else if status == 503
    then retry (message "brokerrpc: unavailable: status %d: %s" (num status ∷ str msg ∷ []))
    else mapped Sentinel.permanent_other status msg
