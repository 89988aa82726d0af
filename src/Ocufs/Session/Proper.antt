-- ===== src/Ocufs/Session/Proper.antt =====
-- The requests behind each operation of the broker client.
use ocu_rclone_filestore.Base.{
  codes, ℕ, zero, suc, Text, Bool, true, false, not, Option, none, some, GoError, [], ◌≡◌, refl,
  arith, leb,
}
use ocu_rclone_filestore.Base.Int.{ℤ, pos, negsuc}
use ocu_rclone_filestore.Brokerrpc.Intent.{stamp_auth_meta}
use ocu_rclone_filestore.Brokerrpc.Messages.{WireRequest, ListDirEntry}
use ocu_rclone_filestore.Brokerrpc.Reader.{Reader}
use ocu_rclone_filestore.Brokerrpc.Status.{Seconds}
use ocu_rclone_filestore.Brokerrpc.Client.{Client, Reply, call, request}
use ocu_rclone_filestore.Brokerrpc.Ops.{
  Codec, list_page, make_directory, move_directory, remove_directory, read_metadata, copy_file,
  move_file, remove_file,
}
use ocu_rclone_filestore.Brokerrpc.Cursor.{
  PageGuard, Turn, finished, next_page, page_turn, follow, or_out_of_fuel, stream_from,
  stream_pages, list_directory_stream, new_page_guard,
}
use ocu_rclone_filestore.Brokerrpc.Download.{download, download_range, do_download}
use ocu_rclone_filestore.Brokerrpc.Upload.{upload}
use ocu_rclone_filestore.Ocufs.Session.{IsProper}

-- The world after a stream that ended, or the world that is left when the fuel ran out.
abbrev Ends : {W S : Type 0} → (W → Type 0) → Option (W × S × Option GoError) → Type 0
Ends Inv none = Unit
Ends Inv (some (w, s, e)) = Inv w

module _ {W : Type 0} (http : WireRequest → W → W × Reply)
    (send : WireRequest → Reader → W → W × Reply × Option ℕ) (parse_float : Text → Option Seconds)
    (json : Codec) (digest : Text → Text) (multipart : Text) (c : Client) (read_only : Bool)
    (Inv : W → Type 0)
    (http_keeps : (req : WireRequest) (w : W)
      → IsProper c read_only req
      → Inv w
      → Inv (http req w).0)
    (send_keeps : (req : WireRequest) (src : Reader) (w : W)
      → IsProper c read_only req
      → Inv w
      → Inv (send req src w).0) where
  list_page_keeps :
      (path cursor : Text) (w : W) → Inv w → Inv (list_page http parse_float json c path cursor w).0
  unfolding list_page call request stamp_auth_meta
  list_page_keeps path cursor w inv = http_keeps _ w (refl, refl, refl, refl, refl) inv

  pub read_metadata_keeps :
      (path : Text) (w : W) → Inv w → Inv (read_metadata http parse_float json c path w).0
  unfolding read_metadata call request stamp_auth_meta
  read_metadata_keeps path w inv = http_keeps _ w (refl, refl, refl, refl, refl) inv

  follow_keeps :
      {S : Type 0} (w : W) (rest : Text → PageGuard → S → W → Option (W × S × Option GoError))
      → Inv w
      → ((cursor : Text) (g : PageGuard) (s : S) → Ends Inv (rest cursor g s w))
      → (t : Turn S) → Ends Inv (follow w rest t)
  follow_keeps w rest inv more (finished s e) = inv
  follow_keeps w rest inv more (next_page s g cursor) = more cursor g s

  stream_from_keeps :
      {S : Type 0} (yield : ListDirEntry → S → S × Option GoError) (path : Text) (fuel : ℕ)
      (cursor : Text) (g : PageGuard) (s : S) (w : W)
      → Inv w
      → Ends Inv (stream_from http parse_float json digest c path yield fuel cursor g s w)
  unfolding stream_from
  stream_from_keeps yield path zero cursor g s w inv = tt
  stream_from_keeps yield path (suc fuel) cursor g s w inv =
      let page = list_page http parse_float json c path cursor w in
      let kept = list_page_keeps path cursor w inv in
      follow_keeps page.0
        (λ cursor' g' s' w1.
          stream_from http parse_float json digest c path yield fuel cursor' g' s' w1)
        kept (λ cursor' g' s'. stream_from_keeps yield path fuel cursor' g' s' page.0 kept)
        (page_turn digest yield g s page.1)

  out_of_fuel_keeps :
      {S : Type 0} (s : S) (w : W) (r : Option (W × S × Option GoError))
      → Inv w
      → Ends Inv r
      → Inv (or_out_of_fuel s w r).0
  out_of_fuel_keeps s w none inv h = inv
  out_of_fuel_keeps s w (some (w', s', e)) inv h = h

  pub stream_keeps :
      {S : Type 0} (yield : ListDirEntry → S → S × Option GoError) (path : Text) (s : S) (w : W)
      → Inv w
      → Inv (list_directory_stream http parse_float json digest c path yield s w).0
  unfolding list_directory_stream stream_pages
  stream_keeps yield path s w inv =
      out_of_fuel_keeps s w (stream_pages http parse_float json digest c path yield s w) inv (
        stream_from_keeps yield path (suc c.max_list_pages) []
          (new_page_guard (codes "ListDirectoryStream") c.max_list_pages) s w inv)

  pub download_keeps : (uuid : Text) (w : W) → Inv w → Inv (download http parse_float c uuid w).0
  unfolding download do_download request stamp_auth_meta
  download_keeps uuid w inv = http_keeps _ w (refl, refl, refl, refl, refl) inv

  pub download_range_keeps :
      (uuid : Text) (offset len : ℤ) (w : W)
      → Inv w
      → Inv (download_range http parse_float c uuid offset len w).0
  unfolding download_range do_download request stamp_auth_meta
  download_range_keeps uuid (negsuc offset) len w inv = inv
  download_range_keeps uuid (pos offset) (negsuc len) w inv = inv
  download_range_keeps uuid (pos offset) (pos zero) w inv = inv
  download_range_keeps uuid (pos offset) (pos (suc len)) w inv =
      let e : leb (suc len) 0 ≡ false = ground arith in
      rw e (http_keeps _ w (refl, refl, refl, refl, refl) inv)

  module _ (writable : read_only ≡ false) where
    may_write : not read_only ≡ true
    may_write = rw writable

    pub upload_keeps :
        (path : Text) (src : Reader) (n : ℤ) (overwrite : Bool) (w : W)
        → Inv w
        → Inv (upload send parse_float multipart c path src n overwrite w).0
    unfolding upload request stamp_auth_meta
    upload_keeps path src n overwrite w inv =
        send_keeps _ src w (refl, refl, refl, refl, may_write) inv

    -- The unary operations that write.
    pub writes_keep :
        (a b : Text) (w : W)
        → Inv w
        → Inv (make_directory http parse_float json c a w).0
          × Inv (remove_directory http parse_float json c a w).0
          × Inv (remove_file http parse_float json c a w).0
          × Inv (move_directory http parse_float json c a b w).0
          × Inv (copy_file http parse_float json c a b w).0
          × Inv (move_file http parse_float json c a b w).0
    unfolding make_directory remove_directory remove_file move_directory copy_file move_file call
        request stamp_auth_meta
    writes_keep a b w inv = (
      http_keeps _ w (refl, refl, refl, refl, may_write) inv,
      http_keeps _ w (refl, refl, refl, refl, may_write) inv,
      http_keeps _ w (refl, refl, refl, refl, may_write) inv,
      http_keeps _ w (refl, refl, refl, refl, may_write) inv,
      http_keeps _ w (refl, refl, refl, refl, may_write) inv,
      http_keeps _ w (refl, refl, refl, refl, may_write) inv,
    )
