-- ===== src/Brokerrpc/Cursor/Pages.antt =====
-- The chain of pages behind a listing of internal/brokerrpc/cursor.go.
use ocu_rclone_filestore.Base.{
  codes, ℕ, zero, suc, ◌≡◌, ◌≢◌, refl, arith, Text, Option, none, some, GoError, Result, ok, err,
  List, [], ap, ◌∷◌, ◌++◌, ◌∙◌, sym,
}
use ocu_rclone_filestore.Brokerrpc.Messages.{
  Fields, WireRequest, ListDirEntry, ListDirectoryResponse,
}
use ocu_rclone_filestore.Brokerrpc.Status.{Seconds}
use ocu_rclone_filestore.Brokerrpc.Client.{Client, Reply, call}
use ocu_rclone_filestore.Brokerrpc.Intent.{Op}
use ocu_rclone_filestore.Brokerrpc.Ops.{Codec, list_page}
use ocu_rclone_filestore.Brokerrpc.Cursor.{
  PageGuard, admit, admitted, yield_all, Turn, finished, next_page, advance, page_turn, follow,
  stream_from, stream_pages, list_directory_stream, new_page_guard, or_out_of_fuel,
}

-- A closure that never stops the listing, and folds the entries into its state.
abbrev pub folding : {S : Type 0} → (S → ListDirEntry → S) → ListDirEntry → S → S × Option GoError
folding f e s = (f s e, none)

abbrev pub fold : {S : Type 0} → (S → ListDirEntry → S) → S → List ListDirEntry → S
fold f s [] = s
fold f s (e ∷ es) = fold f (f s e) es

yield_all-folding :
    {S : Type 0} (f : S → ListDirEntry → S) (es : List ListDirEntry) (s : S)
    → yield_all (folding f) es s ≡ (fold f s es, none)
unfolding yield_all
yield_all-folding f [] s = refl
yield_all-folding f (e ∷ es) s = yield_all-folding f es (f s e)

fold-append :
    {S : Type 0} (f : S → ListDirEntry → S) (s : S) (es fs : List ListDirEntry)
    → fold f s (es ++ fs) ≡ fold f (fold f s es) fs
fold-append f s [] fs = refl
fold-append f s (e ∷ es) fs = fold-append f (f s e) es fs

-- How a page that is not the last leads on.
data Turned {S : Type 0} (s : S) (cursor : Text) : Turn S → Type 0 where
  stops : cursor ≡ [] → Turned s cursor (finished s none)
  refuses : (e : GoError) → Turned s cursor (finished s (some e))
  goes_on : (g : PageGuard) → cursor ≢ [] → Turned s cursor (next_page s g cursor)

admitted-Turned :
    {S : Type 0} (cursor : Text) (s : S) (v : PageGuard × Option GoError)
    → cursor ≢ []
    → Turned s cursor (admitted cursor s v)
admitted-Turned cursor s (g, some e) n = refuses e
admitted-Turned cursor s (g, none) n = goes_on g n

advance-Turned :
    {S : Type 0} (digest : Text → Text) (g : PageGuard) (cursor : Text) (s : S)
    → Turned s cursor (advance digest g cursor (s, none))
unfolding advance
advance-Turned digest g [] s = stops refl
advance-Turned digest g (c ∷ cursor) s =
    admitted-Turned (c ∷ cursor) s (admit digest g (c ∷ cursor)) (λ e. cc)

module _ {W : Type 0} (http : WireRequest → W → W × Reply) (parse_float : Text → Option Seconds)
    (json : Codec) (digest : Text → Text) (c : Client) (path : Text) where
  -- The call for the page at a cursor.
  abbrev pub request_page : Text → W → W × Result ListDirectoryResponse
  request_page cursor =
      call http parse_float c json.list_directory Op.list_directory (Fields.at_page path cursor)

  -- The pages from a cursor on: each request echoes the cursor of the page before, the last page
  -- has an empty cursor, and the entries are those of the pages in order.
  pub data Listing : Text → W → List ListDirEntry → W → Type 0 where
    last_page :
        {cursor : Text} {w w' : W} (resp : ListDirectoryResponse)
        → request_page cursor w ≡ (w', ok resp)
        → resp.cursor ≡ []
        → Listing cursor w resp.entries w'
    one_page :
        {cursor : Text} {w w1 w' : W} {es : List ListDirEntry} (resp : ListDirectoryResponse)
        → request_page cursor w ≡ (w1, ok resp)
        → resp.cursor ≢ []
        → Listing resp.cursor w1 es w'
        → Listing cursor w (resp.entries ++ es) w'

  -- The state of a listing that succeeded is the fold of the entries it read.
  abbrev Reads : {S : Type 0} → (S → ListDirEntry → S) → S → Text → W → W → S → Type 0
  Reads f s cursor w w' s' = (es : List ListDirEntry) × Listing cursor w es w' × (s' ≡ fold f s es)

  turn-Reads :
      {S : Type 0} (f : S → ListDirEntry → S) (s : S) (cursor : Text) (w w1 : W)
      (resp : ListDirectoryResponse)
      (rest : Text → PageGuard → S → W → Option (W × S × Option GoError))
      → list_page http parse_float json c path cursor w ≡ (w1, ok resp)
      → ((g : PageGuard) (w' : W) (s' : S)
          → rest resp.cursor g (fold f s resp.entries) w1 ≡ some (w', s', none)
          → Reads f (fold f s resp.entries) resp.cursor w1 w' s')
      → (t : Turn S) → Turned (fold f s resp.entries) resp.cursor t
      → (w' : W) (s' : S) → follow w1 rest t ≡ some (w', s', none)
      → Reads f s cursor w w' s'
  unfolding list_page
  turn-Reads f s cursor w w1 resp rest page more t (stops e) w' s' h =
      (resp.entries, last_page resp (ground arith) e, ground arith)
  turn-Reads f s cursor w w1 resp rest page more t (refuses e) w' s' h = cc
  turn-Reads f s cursor w w1 resp rest page more t (goes_on g n) w' s' h =
      let (es, l, e) = more g w' s' h in
      (resp.entries ++ es, one_page resp page n l, e ∙ sym (fold-append f s resp.entries es))

  turn_result-Reads :
      {S : Type 0} (f : S → ListDirEntry → S) (s : S) (cursor : Text) (g : PageGuard) (w w1 : W)
      (result : Result ListDirectoryResponse)
      (rest : Text → PageGuard → S → W → Option (W × S × Option GoError))
      → list_page http parse_float json c path cursor w ≡ (w1, result)
      → ((cursor' : Text) (g' : PageGuard) (w' : W) (s1 s' : S)
          → rest cursor' g' s1 w1 ≡ some (w', s', none)
          → Reads f s1 cursor' w1 w' s')
      → (w' : W) (s' : S)
      → follow w1 rest (page_turn digest (folding f) g s result) ≡ some (w', s', none)
      → Reads f s cursor w w' s'
  unfolding page_turn
  turn_result-Reads f s cursor g w w1 (err e) rest page more w' s' h = cc
  turn_result-Reads f s cursor g w w1 (ok resp) rest page more w' s' h =
      turn-Reads f s cursor w w1 resp rest page
        (λ g' w'' s''. more resp.cursor g' w'' (fold f s resp.entries) s'')
        (advance digest g resp.cursor (fold f s resp.entries, none))
        (advance-Turned digest g resp.cursor (fold f s resp.entries)) w' s'
        (rw (yield_all-folding f resp.entries s) at h)

  stream_from-Reads :
      {S : Type 0} (f : S → ListDirEntry → S) (fuel : ℕ) (cursor : Text) (g : PageGuard) (s : S)
      (w w' : W) (s' : S)
      → stream_from http parse_float json digest c path (folding f) fuel cursor g s w
        ≡ some (w', s', none)
      → Reads f s cursor w w' s'
  unfolding stream_from
  stream_from-Reads f zero cursor g s w w' s' h = cc
  stream_from-Reads f (suc fuel) cursor g s w w' s' h =
      let page = list_page http parse_float json c path cursor w in
      turn_result-Reads f s cursor g w page.0 page.1
        (λ cursor' g' s1 w1.
          stream_from http parse_float json digest c path (folding f) fuel cursor' g' s1 w1)
        refl (λ cursor' g' w'' s1 s''. stream_from-Reads f fuel cursor' g' s1 page.0 w'' s'') w' s'
        h

  result-Reads :
      {S : Type 0} (f : S → ListDirEntry → S) (s : S) (w w' : W) (s' : S)
      (r : Option (W × S × Option GoError))
      → (r ≡ some (w', s', none) → Reads f s [] w w' s')
      → or_out_of_fuel s w r ≡ (w', s', none)
      → Reads f s [] w w' s'
  result-Reads f s w w' s' none k h = cc
  result-Reads f s w w' s' (some t) k h = k (ap some h)

  -- A stream that ends with no error has folded exactly the entries of a chain of pages from the
  -- first page to one with no cursor, each page asked for by the cursor of the page before.
  pub list_directory_stream-Listing :
      {S : Type 0} (f : S → ListDirEntry → S) (s : S) (w w' : W) (s' : S)
      → list_directory_stream http parse_float json digest c path (folding f) s w ≡ (w', s', none)
      → (es : List ListDirEntry) × Listing [] w es w' × (s' ≡ fold f s es)
  unfolding list_directory_stream stream_pages
  list_directory_stream-Listing f s w w' s' h =
      result-Reads f s w w' s' (stream_pages http parse_float json digest c path (folding f) s w)
        (stream_from-Reads f (suc c.max_list_pages) []
          (new_page_guard (codes "ListDirectoryStream") c.max_list_pages) s w w' s')
        h
