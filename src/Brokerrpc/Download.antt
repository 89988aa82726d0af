-- ===== src/Brokerrpc/Download.antt =====
-- internal/brokerrpc/download.go: the fileDownload transport, and the bounded reader over its body.
pub mod Bounded
pub mod Window
use ocu_rclone_filestore.Base.{
  ℕ, zero, suc, ◌-◌, Text, codes, Option, none, some, Bool, true, false, GoError, message, wrap,
  num, int, Result, ok, err, List, [], ◌∷◌, ◌++◌, ltb, leb, if◌then◌else◌, length,
}
use Prim.Native.Nat.{min}
use ocu_rclone_filestore.Base.Int.{ℤ, pos, negsuc, is_negative, is_zero, to_nat}
use ocu_rclone_filestore.Brokerrpc.Intent.{Op, AuthorizationMetadata, stamp_auth_meta}
use ocu_rclone_filestore.Brokerrpc.Messages.{Fields, Range, WireRequest}
use ocu_rclone_filestore.Brokerrpc.Reader.{
  Reader, deliver, idle, fault, Outcome, going, eof, failed, ReadResult, read, reads,
}
use ocu_rclone_filestore.Brokerrpc.Status.{Seconds}
use ocu_rclone_filestore.Brokerrpc.Client.{
  Client, Reply, HttpResponse, request, json_content, is_failure, failure, responded,
}

-- `remaining` never goes below zero: a read takes at most that many bytes.
pub record BoundedBody : Type 0 where
  pub body : Reader
  pub remaining : ℕ
  pub limit : ℕ
  pub ranged : Bool

abbrev pub new_bounded_body : Reader → Bool → ℕ → BoundedBody
new_bounded_body body ranged limit = record {
  body = body;
  remaining = limit;
  limit = limit;
  ranged = ranged;
}

unfoldable pub over_cap_err : Bool → ℕ → GoError
over_cap_err true limit =
    message
      "brokerrpc: fileDownload: broker over-delivered the requested %d-byte window (offset dishonour suspected)"
      (num limit ∷ [])
over_cap_err false limit =
    message "brokerrpc: fileDownload: response exceeds %d bytes" (num limit ∷ [])

-- The probe past the cap, which reads one byte at a time until it is decisive: a result with no
-- bytes and no error is read again.
unfoldable pub probe : GoError → Reader → ReadResult
probe over [] = record { bytes = []; outcome = eof; rest = [] }
probe over (idle ∷ r) = probe over r
probe over (fault e ∷ r) = record { bytes = []; outcome = failed e; rest = fault e ∷ r }
probe over (deliver [] ∷ r) = probe over r
probe over (deliver (c ∷ bs) ∷ r) = record {
  bytes = [];
  outcome = failed over;
  rest = deliver bs ∷ r;
}

-- The body after a read, and what the reader may still deliver.
abbrev pub read_on : BoundedBody → ReadResult → ReadResult × BoundedBody
read_on b result =
    (result, record b { body = result.rest; remaining = b.remaining - length result.bytes })

-- boundedBody.Read(p) with len(p) = n.
unfoldable pub bounded_read : ℕ → BoundedBody → ReadResult × BoundedBody
unfolding read probe over_cap_err
bounded_read n b =
    if leb b.remaining 0
    then read_on b (probe (over_cap_err b.ranged b.limit) b.body)
    else read_on b (read (min n b.remaining) b.body)

-- What a consumer does with the outcome of a read.
abbrev pub consume : Text → Outcome → Option (Result Text) → Option (Result Text)
consume got going rest = rest
consume got eof rest = some (ok got)
consume got (failed e) rest = some (err e)

-- A consumer that reads `n` bytes at a time to the end; `none` means that the fuel ran out.
unfoldable pub drain : ℕ → ℕ → BoundedBody → Text → Option (Result Text)
drain n zero b got = none
drain n (suc fuel) b got =
    let (result, b') = bounded_read n b in
    let rest = drain n fuel b' (got ++ result.bytes) in
    consume (got ++ result.bytes) result.outcome rest

-- A response that declares more than the limit.
abbrev pub declares_over : Option ℕ → ℕ → Bool
declares_over none limit = false
declares_over (some n) limit = ltb limit n

abbrev pub declared_length : Option ℕ → ℕ
declared_length none = 0
declared_length (some n) = n

-- The error of a declared over-delivery.
unfoldable pub declared_err : Option Range → ℕ → ℕ → GoError
declared_err none declared limit =
    message "brokerrpc: fileDownload: response declares %d bytes, exceeding the %d-byte cap"
      (num declared ∷ num limit ∷ [])
declared_err (some r) declared limit =
    message
      "brokerrpc: fileDownload: response declares %d bytes for the requested %d-byte window — broker did not honour the range"
      (num declared ∷ num limit ∷ [])

abbrev pub is_ranged : Option Range → Bool
is_ranged none = false
is_ranged (some r) = true

-- What a reply to the fileDownload request becomes.
unfoldable pub download_verdict :
    (Text → Option Seconds) → Option Range → ℕ → Reply → Result BoundedBody
unfolding declared_err
download_verdict parse_float rng limit (Reply.failed e) =
    err (wrap "brokerrpc: fileDownload: %w" [] e)
download_verdict parse_float rng limit (responded r) =
    if is_failure r.status
    then err (failure parse_float r)
    else if declares_over r.content_length limit
    then err (declared_err rng (declared_length r.content_length) limit)
    else ok (new_bounded_body r.body (is_ranged rng) limit)

module _ {W : Type 0} (http : WireRequest → W → W × Reply)
    (parse_float : Text → Option Seconds) where
  unfoldable pub do_download :
      Client → Text → AuthorizationMetadata → Option Range → ℕ → W → W × Result BoundedBody
  unfolding request download_verdict
  do_download c uuid am rng limit w =
      let (w', reply) =
        http (request c Op.file_download json_content am (Fields.download uuid rng)) w in
      (w', download_verdict parse_float rng limit reply)

  unfoldable pub download : Client → Text → W → W × Result BoundedBody
  unfolding do_download stamp_auth_meta
  download c uuid w = elim (stamp_auth_meta Op.file_download) [
    | err e ↦ (w, err e)
    | ok am ↦ do_download c uuid am none c.max_download_bytes w
  ]

  -- http.NoBody is the reader that is at its end.
  unfoldable pub download_range : Client → Text → ℤ → ℤ → W → W × Result BoundedBody
  unfolding do_download stamp_auth_meta
  download_range c uuid offset len w =
      if is_negative offset
      then (w, err (message "brokerrpc: DownloadRange: negative offset %d" (int offset ∷ [])))
      else if is_negative len
      then (w, err (message "brokerrpc: DownloadRange: negative length %d" (int len ∷ [])))
      else if is_zero len
      then (w, ok (new_bounded_body [] false 0))
      else elim (stamp_auth_meta Op.file_download) [
        | err e ↦ (w, err e)
        | ok am ↦
            do_download c uuid am (some (record { offset = offset; length = len })) (to_nat len) w
      ]
