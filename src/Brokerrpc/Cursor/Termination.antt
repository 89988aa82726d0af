-- ===== src/Brokerrpc/Cursor/Termination.antt =====
-- The page guard of internal/brokerrpc/cursor.go and the fuel of the paging loop.
use ocu_rclone_filestore.Base.{
  codes, ℕ, zero, suc, ◌+◌, ◌≤◌, ◌<◌, ◌≡◌, refl, arith, Text, Option, none, some, GoError, Result,
  ok, err, [], ◌∷◌,
}
use ocu_rclone_filestore.Brokerrpc.Messages.{WireRequest, ListDirEntry, ListDirectoryResponse}
use ocu_rclone_filestore.Brokerrpc.Status.{Seconds}
use ocu_rclone_filestore.Brokerrpc.Client.{Client, Reply}
use ocu_rclone_filestore.Brokerrpc.Ops.{Codec, list_page}
use ocu_rclone_filestore.Brokerrpc.Cursor.{
  PageGuard, yield_all, Turn, finished, next_page, advance, page_turn, stream_from, follow,
  stream_pages, new_page_guard,
}

module _ (digest : Text → Text) where
  -- A page that leads to another is counted, and the count stays below the ceiling.
  abbrev pub Counts : {S : Type 0} → PageGuard → Turn S → Type 0
  Counts g (finished s e) = Unit
  Counts g (next_page s g' cursor) =
      (g'.pages ≡ g.pages + 1) × (g'.max_pages ≡ g.max_pages) × (g'.pages < g'.max_pages)

  advance-Counts :
      {S : Type 0} (g : PageGuard) (cursor : Text) (y : S × Option GoError)
      → Counts g (advance digest g cursor y)
  unfolding advance
  advance-Counts g cursor (s, some e) = tt
  advance-Counts g [] (s, none) = tt
  advance-Counts g (c ∷ cursor) (s, none) = ground arith

  pub page_turn-Counts :
      {S : Type 0} (yield : ListDirEntry → S → S × Option GoError) (g : PageGuard) (s : S)
      (resp : Result ListDirectoryResponse)
      → Counts g (page_turn digest yield g s resp)
  unfolding page_turn
  page_turn-Counts yield g s (err e) = tt
  page_turn-Counts yield g s (ok resp) =
      advance-Counts g resp.cursor (yield_all yield resp.entries s)

-- What a turn leads to is a result, if the rest of the loop gives one for each admitted page.
follow_total :
    (digest : Text → Text) {W S : Type 0} (w : W) (g : PageGuard)
    (rest : Text → PageGuard → S → W → Option (W × S × Option GoError))
    → ((cursor : Text) (g' : PageGuard) (s : S)
        → Counts digest g (next_page s g' cursor)
        → (r : W × S × Option GoError) × (rest cursor g' s w ≡ some r))
    → (t : Turn S) → Counts digest g t
    → (r : W × S × Option GoError) × (follow w rest t ≡ some r)
follow_total digest w g rest more (finished s e) n = ((w, s, e), refl)
follow_total digest w g rest more (next_page s g' cursor) n = more cursor g' s n

module _ {W : Type 0} (http : WireRequest → W → W × Reply) (parse_float : Text → Option Seconds)
    (json : Codec) (digest : Text → Text) (c : Client) (path : Text) where
  stream_from_total :
      {S : Type 0} (yield : ListDirEntry → S → S × Option GoError) (fuel : ℕ) (cursor : Text)
      (g : PageGuard) (s : S) (w : W)
      → 0 < fuel
      → g.max_pages ≤ fuel + g.pages
      → (r : W × S × Option GoError) × (stream_from http parse_float json digest c path yield fuel
            cursor g s w
          ≡ some r)
  unfolding stream_from
  stream_from_total yield zero cursor g s w low enough = absurd (omega arith)
  stream_from_total yield (suc fuel) cursor g s w low enough =
      let page = list_page http parse_float json c path cursor w in
      follow_total digest page.0 g
        (λ cursor' g' s' w1.
          stream_from http parse_float json digest c path yield fuel cursor' g' s' w1)
        (λ cursor' g' s' n.
          stream_from_total yield fuel cursor' g' s' page.0 (omega arith) (omega arith))
        (page_turn digest yield g s page.1) (page_turn-Counts digest yield g s page.1)

  -- The listing ends, whatever the broker answers and whatever `yield` does; and, with a page ceiling of
  -- one or more, it has asked for no more pages than the ceiling: as many rounds of the loop as the
  -- ceiling are enough.
  pub stream_pages_total :
      {S : Type 0} (yield : ListDirEntry → S → S × Option GoError) (s : S) (w : W)
      → (r : W × S × Option GoError) × (stream_pages http parse_float json digest c path yield s w
          ≡ some r)
        × (0 < c.max_list_pages
            → (r' : W × S × Option GoError) × (stream_from http parse_float json digest c path yield
                  c.max_list_pages []
                  (new_page_guard (codes "ListDirectoryStream") c.max_list_pages)
                  s
                  w
                ≡ some r'))
  unfolding stream_pages
  stream_pages_total yield s w =
      let guard = new_page_guard (codes "ListDirectoryStream") c.max_list_pages in
      let (r, ends) =
        stream_from_total yield (suc c.max_list_pages) [] guard s w (omega arith) (omega arith) in
      (r, ends, λ pos. stream_from_total yield c.max_list_pages [] guard s w pos (omega arith))
