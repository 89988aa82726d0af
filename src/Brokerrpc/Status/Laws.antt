-- ===== src/Brokerrpc/Status/Laws.antt =====
-- The status mapping and the body bounds of internal/brokerrpc/errors.go.
use ocu_rclone_filestore.Base.{
  ℕ, ◌+◌, ◌≤◌, ◌≡◌, refl, ap, arith, Text, Option, none, some, Bool, not, ◌||◌, ◌==◌, is,
  is_retryable, Sentinel, length, length-append, length-take, take, drop, [], ◌∷◌, leb, is_empty,
  zero, suc, take_all,
}
use ocu_rclone_filestore.Brokerrpc.Reader.{Reader, payload}
use ocu_rclone_filestore.Brokerrpc.Status.{
  Seconds, bound_error_body, capture_error_body, max_error_body_bytes, error_body_truncation_marker,
  map_http_status, too_many_requests, parsed_header,
}

too_many_requests-is_retryable :
    (status : ℕ) (msg : Text) (hint : Option Seconds)
    → is_retryable (too_many_requests status msg hint) ≡ Bool.true
unfolding too_many_requests
too_many_requests-is_retryable status msg none = refl
too_many_requests-is_retryable status msg (some secs) = ground arith

too_many_requests-is :
    (status : ℕ) (msg : Text) (hint : Option Seconds) (s : Sentinel)
    → is (too_many_requests status msg hint) s ≡ Bool.false
unfolding too_many_requests
too_many_requests-is status msg none s = refl
too_many_requests-is status msg (some secs) s = ground arith

module _ (parse_float : Text → Option Seconds) where
  -- An error is marked for a retry exactly for the statuses 429 and 503, whatever the body and the
  -- Retry-After header hold.
  map_http_status-is_retryable :
      (status : ℕ) (body header : Text)
      → is_retryable (map_http_status parse_float status body header)
        ≡ (status == 429 || status == 503)
  unfolding map_http_status
  map_http_status-is_retryable status body header = ground (
    arith,
    too_many_requests-is_retryable status (bound_error_body max_error_body_bytes body)
        (parsed_header parse_float header),
  )

  -- The sentinel of an error depends on the status alone: 401 and 403 give the permission sentinel,
  -- 404 the missing object, 409 the collision, 400 and 422 the invalid argument, and every other
  -- status but 429 and 503 the permanent error.
  map_http_status-is :
      (status : ℕ) (body header : Text)
      → let e = map_http_status parse_float status body header in
        (is e Sentinel.permission_denied ≡ (status == 401 || status == 403))
        × (is e Sentinel.not_found ≡ (status == 404))
        × (is e Sentinel.already_exists ≡ (status == 409))
        × (is e Sentinel.invalid_argument ≡ (status == 400 || status == 422))
        × (is e Sentinel.permanent_other
            ≡ not (
                status == 401
                || status == 403
                || status == 404
                || status == 409
                || status == 400
                || status == 422
                || status == 429
                || status == 503))
  unfolding map_http_status
  map_http_status-is status body header =
      let msg = bound_error_body max_error_body_bytes body in
      let hint = parsed_header parse_float header in
      (
        ground (arith, too_many_requests-is status msg hint Sentinel.permission_denied),
        ground (arith, too_many_requests-is status msg hint Sentinel.not_found),
        ground (arith, too_many_requests-is status msg hint Sentinel.already_exists),
        ground (arith, too_many_requests-is status msg hint Sentinel.invalid_argument),
        ground (arith, too_many_requests-is status msg hint Sentinel.permanent_other),
      )

  -- The status alone decides: an error is marked for a retry exactly for 429 and 503, whatever the
  -- body and the Retry-After header hold; 401 and 403 give the permission sentinel, 404 the missing
  -- object, 409 the collision, 400 and 422 the invalid argument, and every other status but 429 and
  -- 503 the permanent error.
  pub map_http_status-FollowsTable :
      (status : ℕ) (body header : Text)
      → let e = map_http_status parse_float status body header in
        (is_retryable e ≡ (status == 429 || status == 503))
        × (is e Sentinel.permission_denied ≡ (status == 401 || status == 403))
        × (is e Sentinel.not_found ≡ (status == 404))
        × (is e Sentinel.already_exists ≡ (status == 409))
        × (is e Sentinel.invalid_argument ≡ (status == 400 || status == 422))
        × (is e Sentinel.permanent_other
            ≡ not (
                status == 401
                || status == 403
                || status == 404
                || status == 409
                || status == 400
                || status == 422
                || status == 429
                || status == 503))
  map_http_status-FollowsTable status body header =
      let (denied, missing, collision, invalid, permanent) =
        map_http_status-is status body header in
      (
        map_http_status-is_retryable status body header,
        denied,
        missing,
        collision,
        invalid,
        permanent,
      )

-- No error text carries more of a body than the cap and the marker.
length-bound_error_body : (cap : ℕ) (body : Text) → length (bound_error_body cap body) ≤ cap + 15
unfolding bound_error_body
length-bound_error_body cap body =
    ground (arith, length-append (take cap body) error_body_truncation_marker, length-take cap body)

is_empty-drop : (cap : ℕ) (body : Text) → is_empty (drop cap body) ≡ leb (length body) cap
is_empty-drop zero [] = refl
is_empty-drop zero (c ∷ body) = ground arith
is_empty-drop (suc cap) [] = ground arith
is_empty-drop (suc cap) (c ∷ body) = ground (arith, is_empty-drop cap body)

-- The capture from the wire and the bound on a body already read agree: both keep a body of at most
-- the cap whole, and mark a longer one as truncated at the cap.
capture_error_body-bound :
    (cap : ℕ) (r : Reader) → capture_error_body cap r ≡ bound_error_body cap (payload r)
unfolding capture_error_body bound_error_body
capture_error_body-bound cap r =
    ground
      (arith, length-take cap (payload r), is_empty-drop cap (payload r), take_all cap (payload r))

-- The capture of an error body from the wire is the bound on the body already read: a body of at
-- most the cap whole, or a longer one truncated and marked; and it is no longer than the cap and the
-- marker.
pub capture_error_body-IsBounded :
    (cap : ℕ) (r : Reader)
    → (capture_error_body cap r ≡ bound_error_body cap (payload r))
      × (length (capture_error_body cap r) ≤ cap + 15)
capture_error_body-IsBounded cap r =
    let same = capture_error_body-bound cap r in
    (same, omega (arith, ap length same, length-bound_error_body cap (payload r)))
