-- ===== src/Examples/Transport.antt =====
-- The transport of internal/brokerrpc at concrete replies.
use ocu_rclone_filestore.Base.{
  ◌<◌, ◌⊎◌, ℕ, zero, suc, ◌+◌, Text, codes, true, Option, none, some, ◌≡◌, ◌≤◌, ◌↔◌, refl, arith,
  GoError, message, Result, ok, err, List, [], ◌∷◌, ◌++◌, is, is_retryable, Sentinel, not, ◌||◌,
  ◌==◌, if◌then◌else◌, ltb, length, All,
}
use ocu_rclone_filestore.Base.Int.{pos, negsuc}
use ocu_rclone_filestore.Brokerrpc.Messages.{
  ReadMetadataResponse, WireRequest, ListDirEntry, ListDirectoryResponse,
}
use ocu_rclone_filestore.Brokerrpc.Reader.{
  Reader, deliver, idle, fault, reads, payload, ending, read_all,
}
use ocu_rclone_filestore.Brokerrpc.Intent.{stamp_auth_meta}
use ocu_rclone_filestore.Brokerrpc.Status.{Seconds, map_http_status}
use ocu_rclone_filestore.Brokerrpc.Status.Laws.{map_http_status-FollowsTable}
use ocu_rclone_filestore.Brokerrpc.Client.New.{IsClientFor, new_with_options-IsClientFor}
use ocu_rclone_filestore.Brokerrpc.Client.{
  ParsedUrl, new_client, new_with_options, Client, Reply, HttpResponse, responded,
}
use ocu_rclone_filestore.Brokerrpc.Ops.{Codec}
use ocu_rclone_filestore.Brokerrpc.Cursor.{
  stream_from, new_page_guard, list_directory_stream, stream_pages,
}
use ocu_rclone_filestore.Brokerrpc.Cursor.Pages.{fold, Listing, list_directory_stream-Listing}
use ocu_rclone_filestore.Brokerrpc.Cursor.Termination.{stream_pages_total}
use ocu_rclone_filestore.Brokerrpc.Download.{
  bounded_read, drain, new_bounded_body, over_cap_err, do_download,
}
use ocu_rclone_filestore.Brokerrpc.Download.Bounded.{drain-content}
use ocu_rclone_filestore.Brokerrpc.Download.Window.{do_download-delivers}
use ocu_rclone_filestore.Brokerrpc.Upload.{run_writer, upload_verdict}
use ocu_rclone_filestore.Brokerrpc.Upload.Chunks.{
  run_writer-chunks, concat, source_error, FitsCeiling,
}
use ocu_rclone_filestore.Brokerrpc.Upload.Verdict.{upload_verdict-ok, IsHarmless}

abbrev pub seconds : Text → Option Seconds
seconds t = some (record { is_positive = true; is_below_limit = true; nanos = 5000000000 })

abbrev pub two_pieces : Reader
two_pieces = deliver (codes "ab") ∷ idle ∷ deliver (codes "c") ∷ []

abbrev broken : Reader
broken = deliver (codes "ab") ∷ fault (message "connection reset" []) ∷ []

abbrev pub a_client : Client
a_client = record {
  service_url = codes "https://edge/";
  fs_id = codes "fs1";
  auth_token = codes "token";
  message_ceiling = 2;
  max_download_bytes = 100;
  max_list_pages = 3;
}

abbrev response : ℕ → Reader → HttpResponse
response status body = record {
  status = status;
  retry_after = [];
  content_length = none;
  body = body;
}

-- Each reply is the request's number, and the body names the page.
abbrev pub counting_http : WireRequest → ℕ → ℕ × Reply
counting_http req n = (n + 1, responded (response 200 (deliver (n ∷ []) ∷ [])))

abbrev pub file_at : Text → ListDirEntry
file_at p = record {
  file = some (record {
    path = p;
    size = pos 1;
    mtime = [];
    mode = [];
    sha = [];
    mime = [];
    uuid = codes "u";
  });
  directory = none;
}

abbrev two_pages : Text → Result ListDirectoryResponse
two_pages [] = err (message "empty body" [])
two_pages (zero ∷ t) = ok (record { entries = file_at (codes "/a") ∷ []; cursor = codes "next" })
two_pages (suc n ∷ t) = ok (record { entries = file_at (codes "/b") ∷ []; cursor = [] })

abbrev metadata_a : ReadMetadataResponse
metadata_a = record {
  file = record {
    path = codes "/a";
    size = pos 1;
    mtime = [];
    mode = [];
    sha = [];
    mime = [];
    uuid = codes "u";
  };
  directory = record { path = []; mode = []; mtime = [] };
}

abbrev pub two_page_codec : Codec
two_page_codec = record {
  ack = λ t. ok tt;
  list_directory = two_pages;
  read_metadata = λ t. ok metadata_a;
}

abbrev pub same : Text → Text
same t = t

abbrev collect : List ListDirEntry → ListDirEntry → List ListDirEntry
collect all e = all ++ e ∷ []

abbrev both_files : List ListDirEntry
both_files = file_at (codes "/a") ∷ file_at (codes "/b") ∷ []

drain-content_example :
    drain 2 9 (new_bounded_body two_pieces true 3) []
    ≡ some (
        if ltb 3 (length (payload two_pieces))
        then err (over_cap_err true 3)
        else read_all two_pieces)
unfolding reads
drain-content_example = drain-content 2 9 3 true two_pieces (omega arith) (omega arith)

-- A body that is a byte longer than the window.
drain_over : drain 2 9 (new_bounded_body two_pieces true 2) [] ≡ some (err (over_cap_err true 2))
unfolding drain bounded_read
drain_over = refl

stream_pages_total_example :
    (r : ℕ × ℕ × Option GoError) × (stream_pages counting_http seconds two_page_codec same a_client
        []
        (λ e n. (n + 1, none))
        0
        0
      ≡ some r)
    × (0 < a_client.max_list_pages
        → (r : ℕ × ℕ × Option GoError) × (stream_from counting_http seconds two_page_codec same
              a_client []
              (λ e n. (n + 1, none))
              a_client.max_list_pages
              []
              (new_page_guard (codes "ListDirectoryStream") a_client.max_list_pages)
              0
              0
            ≡ some r))
stream_pages_total_example =
    stream_pages_total counting_http seconds two_page_codec same a_client [] (λ e n. (n + 1, none))
      0 0

list_directory_stream-Listing_example :
    (es : List ListDirEntry) × Listing counting_http seconds two_page_codec same a_client [] [] 0 es
      2
    × (both_files ≡ fold collect [] es)
unfolding list_directory_stream stamp_auth_meta payload
list_directory_stream-Listing_example =
    list_directory_stream-Listing counting_http seconds two_page_codec same a_client [] collect [] 0
      2 both_files refl

map_http_status-FollowsTable_example :
    let e = map_http_status seconds 409 (codes "exists") [] in
    (is_retryable e ≡ (409 == 429 || 409 == 503))
    × (is e Sentinel.permission_denied ≡ (409 == 401 || 409 == 403))
    × (is e Sentinel.not_found ≡ (409 == 404))
    × (is e Sentinel.already_exists ≡ (409 == 409))
    × (is e Sentinel.invalid_argument ≡ (409 == 400 || 409 == 422))
    × (is e Sentinel.permanent_other
        ≡ not (
            409 == 401
            || 409 == 403
            || 409 == 404
            || 409 == 409
            || 409 == 400
            || 409 == 422
            || 409 == 429
            || 409 == 503))
map_http_status-FollowsTable_example = map_http_status-FollowsTable seconds 409 (codes "exists") []

run_writer-chunks_example :
    (out : List Text) × (run_writer 2 broken none
      ≡ some (record { chunks = out; error = source_error (ending broken) }))
    × (concat out ≡ payload broken)
    × All (FitsCeiling 2) out
run_writer-chunks_example = run_writer-chunks 2 broken

upload_verdict-ok_example : (upload_verdict seconds (responded (response 201 [])) none ≡ ok tt) ↔ (
    ((200 ≤ 201) × (201 ≤ 299))
    × ((65536 ≤ length (payload [])) ⊎ (ending [] ≡ none))
    × IsHarmless none)
upload_verdict-ok_example = upload_verdict-ok seconds (response 201 []) none

-- A transport that answers with the three bytes in two pieces.
abbrev piece_http : WireRequest → ℕ → ℕ × Reply
piece_http req n = (n + 1, responded (response 206 two_pieces))

do_download-delivers_example :
    (codes "abc" ≡ payload two_pieces) × (ending two_pieces ≡ none) × (length (codes "abc") ≤ 3)
unfolding do_download drain bounded_read reads
do_download-delivers_example =
    do_download-delivers piece_http seconds a_client (codes "u")
      (some (record { offset = pos 4; length = pos 3 })) 2 9 3 0 1 (response 206 two_pieces)
      (new_bounded_body two_pieces true 3) (codes "abc") refl refl (omega arith) (omega arith) refl

abbrev edge_url : ParsedUrl
edge_url = record { scheme = codes "https"; host = codes "edge" }

abbrev built_client : Client
built_client = record {
  service_url = codes "https://edge";
  fs_id = codes "fs1";
  auth_token = codes "token";
  message_ceiling = 262144;
  max_download_bytes = 4096;
  max_list_pages = 65536;
}

new_with_options-IsClientFor_example :
    (u : ParsedUrl) × (ok edge_url ≡ ok u)
    × IsClientFor (codes "https://edge") (codes "fs1") (codes "token") u built_client
unfolding new_with_options new_client
new_with_options-IsClientFor_example =
    new_with_options-IsClientFor (λ t. ok edge_url) (λ t. ok tt) (codes "https://edge")
      (codes "fs1") (codes "token") (codes "pem")
      (record { message_ceiling = negsuc 0; max_download_bytes = pos 4096 }) built_client refl
