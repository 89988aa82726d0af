-- ===== src/Brokerrpc/Download/Window.antt =====
-- DownloadRange and doDownload of internal/brokerrpc/download.go, from the request to the content.
use ocu_rclone_filestore.Base.{
  ℕ, ◌≡◌, refl, sym, ap, ◌∙◌, arith, Text, Option, none, some, false, GoError, ok, err, [], ltb,
  if◌then◌else◌, length, ◌<◌, ◌≤◌, suc,
}
use ocu_rclone_filestore.Base.Int.{pos, negsuc}
use ocu_rclone_filestore.Brokerrpc.Intent.{Op, AuthorizationMetadata, Intent, stamp_auth_meta}
use ocu_rclone_filestore.Brokerrpc.Messages.{Fields, Range, WireRequest}
use ocu_rclone_filestore.Brokerrpc.Reader.{Reader, reads, payload, ending, read_all}
use ocu_rclone_filestore.Brokerrpc.Status.{Seconds}
use ocu_rclone_filestore.Brokerrpc.Client.{
  Client, Reply, HttpResponse, responded, request, json_content,
}
use ocu_rclone_filestore.Brokerrpc.Download.{
  BoundedBody, do_download, download_range, download_verdict, is_ranged, new_bounded_body, drain,
  over_cap_err,
}
use ocu_rclone_filestore.Brokerrpc.Download.Bounded.{drain-content}

-- The metadata of every download: the read intent, and never a perimeter exit.
abbrev pub read_only_metadata : AuthorizationMetadata
read_only_metadata = record { intent = Intent.read; downloadable = false }

module _ {W : Type 0} (http : WireRequest → W → W × Reply) (parse_float : Text → Option Seconds)
    (c : Client) (uuid : Text) where
  -- A window with a negative end, and an empty one, are answered with no request; any other is one
  -- download of exactly that window, whose reader is bounded by the window's length.
  pub download_range_cases :
      (offset len : ℕ) (w : W)
      → ((download_range http parse_float c uuid (negsuc offset) (pos len) w).0 ≡ w)
        × ((download_range http parse_float c uuid (pos offset) (negsuc len) w).0 ≡ w)
        × (download_range http parse_float c uuid (pos offset) (pos 0) w
            ≡ (w, ok (new_bounded_body [] false 0)))
        × (download_range http parse_float c uuid (pos offset) (pos (suc len)) w
            ≡ do_download http parse_float c uuid read_only_metadata
                (some (record { offset = pos offset; length = pos (suc len) }))
                (suc len)
                w)
  unfolding download_range stamp_auth_meta
  download_range_cases offset len w = (refl, refl, refl, ground arith)

-- A body that a verdict hands out is the response's own, under the limit asked for.
download_verdict-body :
    (parse_float : Text → Option Seconds) (rng : Option Range) (limit : ℕ) (r : HttpResponse)
    (b : BoundedBody)
    → download_verdict parse_float rng limit (responded r) ≡ ok b
    → b ≡ new_bounded_body r.body (is_ranged rng) limit
unfolding download_verdict
download_verdict-body parse_float rng limit r b h = ground arith

-- A drained body that gave no error gave all of it, within the limit.
bounded_or_err :
    (limit : ℕ) (over : GoError) (r : Reader) (t : Text)
    → (if ltb limit (length (payload r)) then err over else read_all r) ≡ ok t
    → (t ≡ payload r) × (ending r ≡ none) × (length t ≤ limit)
unfolding read_all
bounded_or_err limit over r t h = ground arith

-- A consumer that reads at least a byte at a time from a body that do_download handed out, with fuel
-- for each event and byte, and that meets no error, has the whole response body: it ended without a
-- fault, and it is no longer than the limit, which is the length of a ranged window.
pub do_download-delivers :
    {W : Type 0} (http : WireRequest → W → W × Reply) (parse_float : Text → Option Seconds)
    (c : Client) (uuid : Text) (rng : Option Range) (n fuel limit : ℕ) (w w' : W) (r : HttpResponse)
    (b : BoundedBody) (t : Text)
    → http (request c Op.file_download json_content read_only_metadata (Fields.download uuid rng)) w
      ≡ (w', responded r)
    → do_download http parse_float c uuid read_only_metadata rng limit w ≡ (w', ok b)
    → 0 < n
    → reads r.body < fuel
    → drain n fuel b [] ≡ some (ok t)
    → (t ≡ payload r.body) × (ending r.body ≡ none) × (length t ≤ limit)
unfolding do_download
do_download-delivers http parse_float c uuid rng n fuel limit w w' r b t answered opened positive
      enough drained =
    let given : download_verdict parse_float rng limit (responded r) ≡ ok b =
      ap (λ p. p.1) (rw answered at opened) in
    let body = download_verdict-body parse_float rng limit r b given in
    let content = drain-content n fuel limit (is_ranged rng) r.body positive enough in
    bounded_or_err limit (over_cap_err (is_ranged rng) limit) r.body t
      (some-injective (sym content ∙ rw body at drained))
  where
    some-injective : {A : Type 0} {x y : A} → some x ≡ some y → x ≡ y
    some-injective e = cc
