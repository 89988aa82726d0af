-- ===== src/Brokerrpc/Cursor.antt =====
-- internal/brokerrpc/cursor.go: recursive paging of a listing under an opaque cursor, with the page
-- guard that bounds it.
pub mod Termination
pub mod Pages
use ocu_rclone_filestore.Base.{
  codes, ℕ, zero, suc, ◌+◌, Text, Bool, true, false, Option, none, some, List, [], ◌∷◌, ◌++◌,
  Result, ok, err, GoError, message, wrap, num, str, is_empty, text_eq, leb, if◌then◌else◌, any_of,
}
use ocu_rclone_filestore.Brokerrpc.Messages.{WireRequest, ListDirEntry, ListDirectoryResponse}
use ocu_rclone_filestore.Brokerrpc.Status.{Seconds}
use ocu_rclone_filestore.Brokerrpc.Client.{Client, Reply}
use ocu_rclone_filestore.Brokerrpc.Ops.{Codec, list_page}

-- The digests of the cursors seen so far, the last one first.
pub record PageGuard : Type 0 where
  pub fn : Text
  pub max_pages : ℕ
  pub pages : ℕ
  pub seen : List Text

abbrev pub new_page_guard : Text → ℕ → PageGuard
new_page_guard fn max_pages = record { fn = fn; max_pages = max_pages; pages = 0; seen = [] }

-- pageGuard.admit; `digest` is SHA-256. The guard counts the page also where it refuses.
unfoldable pub admit : (Text → Text) → PageGuard → Text → PageGuard × Option GoError
unfolding any_of text_eq
admit digest g cursor =
    let counted : PageGuard = record g { pages = g.pages + 1 } in
    if leb g.max_pages counted.pages
    then (
      counted,
      some (
          message
            "brokerrpc: %s: pagination exceeded the %d-page ceiling — aborting unbounded listing"
            (str g.fn ∷ num g.max_pages ∷ [])),
    )
    else if any_of (text_eq (digest cursor)) g.seen
    then (
      counted,
      some (
          message "brokerrpc: %s: cursor did not advance (%q) — aborting pagination cycle"
            (str g.fn ∷ str cursor ∷ [])),
    )
    else (record counted { seen = digest cursor ∷ g.seen }, none)

-- The inner loop: `yield` updates what the caller's closure has captured, and may stop with an
-- error.
unfoldable pub yield_all {ℓ} :
    {S : Type ℓ}
    → (ListDirEntry → S → S × Option GoError)
    → List ListDirEntry
    → S
    → S × Option GoError
yield_all yield [] s = (s, none)
yield_all yield (e ∷ es) s =
    let (s', stop) = yield e s in elim stop [ some d ↦ (s', some d) | none ↦ yield_all yield es s' ]

-- What one page leads to: the end of the listing with nil or an error, or the next page.
pub data Turn (S : Type 0) : Type 0 where
  finished : S → Option GoError → Turn S
  next_page : S → PageGuard → Text → Turn S

-- The guard's verdict on a cursor that is not empty.
abbrev pub admitted : {S : Type 0} → Text → S → PageGuard × Option GoError → Turn S
admitted cursor s (g', some e) = finished s (some e)
admitted cursor s (g', none) = next_page s g' cursor

-- After the entries of a page: the listing ends where `yield` stopped and at an empty cursor, and
-- goes on where the guard admits the cursor.
unfoldable pub advance :
    {S : Type 0} → (Text → Text) → PageGuard → Text → S × Option GoError → Turn S
unfolding admit
advance digest g cursor (s, some e) = finished s (some e)
advance digest g cursor (s, none) =
    if is_empty cursor then finished s none else admitted cursor s (admit digest g cursor)

unfoldable pub page_turn :
    {S : Type 0}
    → (Text → Text)
    → (ListDirEntry → S → S × Option GoError)
    → PageGuard
    → S
    → Result ListDirectoryResponse
    → Turn S
unfolding advance yield_all
page_turn digest yield g s (err e) =
    finished s (some (wrap "brokerrpc: ListDirectoryStream: %w" [] e))
page_turn digest yield g s (ok resp) = advance digest g resp.cursor (yield_all yield resp.entries s)

-- The rest of the loop is `rest`, in the world after the page.
abbrev pub follow :
    {W S : Type 0}
    → W
    → (Text → PageGuard → S → W → Option (W × S × Option GoError))
    → Turn S
    → Option (W × S × Option GoError)
follow w rest (finished s e) = some (w, s, e)
follow w rest (next_page s g cursor) = rest cursor g s w

abbrev pub or_out_of_fuel :
    {W S : Type 0} → S → W → Option (W × S × Option GoError) → W × S × Option GoError
or_out_of_fuel s w (some r) = r
or_out_of_fuel s w none = (w, s, some (message "brokerrpc: ListDirectoryStream: out of fuel" []))

module _ {W : Type 0} (http : WireRequest → W → W × Reply) (parse_float : Text → Option Seconds)
    (json : Codec) (digest : Text → Text) (c : Client) (path : Text) where
  -- The loop over the pages; `none` means that the fuel ran out.
  unfoldable pub stream_from :
      {S : Type 0}
      → (ListDirEntry → S → S × Option GoError)
      → ℕ
      → Text
      → PageGuard
      → S
      → W
      → Option (W × S × Option GoError)
  unfolding page_turn list_page
  stream_from yield zero cursor g s w = none
  stream_from yield (suc fuel) cursor g s w =
      let (w', resp) = list_page http parse_float json c path cursor w in
      follow w' (λ cursor' g' s' w1. stream_from yield fuel cursor' g' s' w1)
        (page_turn digest yield g s resp)

  -- ListDirectoryStream, with one round of fuel for each page below the ceiling and one more.
  unfoldable pub stream_pages :
      {S : Type 0}
      → (ListDirEntry → S → S × Option GoError)
      → S
      → W
      → Option (W × S × Option GoError)
  unfolding stream_from
  stream_pages yield s w =
      stream_from yield (suc c.max_list_pages) []
        (new_page_guard (codes "ListDirectoryStream") c.max_list_pages) s w

  unfoldable pub list_directory_stream :
      {S : Type 0} → (ListDirEntry → S → S × Option GoError) → S → W → W × S × Option GoError
  unfolding stream_pages
  list_directory_stream yield s w = or_out_of_fuel s w (stream_pages yield s w)

  abbrev all_or_error : W × List ListDirEntry × Option GoError → W × Result (List ListDirEntry)
  all_or_error (w, entries, none) = (w, ok entries)
  all_or_error (w, entries, some e) = (w, err e)

  unfoldable pub list_directory_all : W → W × Result (List ListDirEntry)
  unfolding list_directory_stream
  list_directory_all w = all_or_error (list_directory_stream (λ e all. (all ++ e ∷ [], none)) [] w)
