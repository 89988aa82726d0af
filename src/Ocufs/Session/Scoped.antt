-- ===== src/Ocufs/Session/Scoped.antt =====
-- The requests behind each method of the backend, and behind a session of calls.
use ocu_rclone_filestore.Base.{
  ℕ, Text, true, Option, none, some, GoError, Result, ok, err, List, [], ◌∷◌, arith, All,
  Bool-cases, inl, inr, is_empty, Sentinel,
}
use ocu_rclone_filestore.Base.Int.{ℤ}
use ocu_rclone_filestore.Brokerrpc.Messages.{WireRequest}
use ocu_rclone_filestore.Brokerrpc.Reader.{Reader}
use ocu_rclone_filestore.Brokerrpc.Status.{Seconds}
use ocu_rclone_filestore.Brokerrpc.Client.{Client, Reply, Ack}
use ocu_rclone_filestore.Brokerrpc.Ops.{Codec}
use ocu_rclone_filestore.Ocufs.Interface.{BrokerClient, Encoder, TimeParser}
use ocu_rclone_filestore.Ocufs.Fs.{
  Fs, Object, list, new_object, put, mkdir, rmdir, list_step, unresolved,
}
use ocu_rclone_filestore.Ocufs.Paths.{abs_path}
use ocu_rclone_filestore.Ocufs.Object.{
  OpenOption, Window, full, part, resolve, mod_time, size, mime_type, open_object, update, remove,
  set_mod_time, fetch_ok, open_resolved, open_window,
}
use ocu_rclone_filestore.Ocufs.Transfer.{
  Source, SourceFs, copy, move, dir_move, transfer_file, transfer_bound, transferred, bound_object,
  is_same_fs,
}
use ocu_rclone_filestore.Ocufs.Wired.{broker_client}
use ocu_rclone_filestore.Ocufs.Session.{
  Call, list_of, object_at, mkdir_at, rmdir_at, put_at, time_of, size_of, mime_of, remove_of,
  set_time_of, open_at, update_of, copy_to, move_to, dir_move_to, step, steps, IsProper,
  record_http, record_send,
}
use ocu_rclone_filestore.Ocufs.Session.Proper.{
  stream_keeps, read_metadata_keeps, download_keeps, download_range_keeps, upload_keeps,
  writes_keep,
}

module _ {W : Type 0} (http : WireRequest → W → W × Reply)
    (send : WireRequest → Reader → W → W × Reply × Option ℕ) (parse_float : Text → Option Seconds)
    (json : Codec) (digest : Text → Text) (multipart : Text) (c : Client) (enc : Encoder)
    (times : TimeParser) (f : Fs) (Inv : W → Type 0)
    (http_keeps : (req : WireRequest) (w : W)
      → IsProper c f.read_only req
      → Inv w
      → Inv (http req w).0)
    (send_keeps : (req : WireRequest) (src : Reader) (w : W)
      → IsProper c f.read_only req
      → Inv w
      → Inv (send req src w).0) where
  abbrev wired : BrokerClient W
  wired = broker_client http send parse_float json digest multipart c

  resolve_keeps : (o : Object) (w : W) → Inv w → Inv (resolve wired times o w).0
  unfolding resolve
  resolve_keeps o w inv = elim (Bool-cases (is_empty o.uuid)) [
    | inl e ↦ rw e (
        read_metadata_keeps http send parse_float json digest multipart c f.read_only Inv http_keeps
          send_keeps o.path w inv)
    | inr e ↦ rw e inv
  ]

  getters_keep :
      (o : Object) (w : W)
      → Inv w
      → Inv (mod_time wired times o w).0
        × Inv (size wired times o w).0
        × Inv (mime_type wired times o w).0
  unfolding mod_time size mime_type
  getters_keep o w inv =
      let kept = resolve_keeps o w inv in (ground arith, ground arith, ground arith)

  fetch_keeps :
      (o : Object) (window : Result Window) (w : W)
      → Inv w
      → Inv (fetch_ok wired times o window w).0
  fetch_keeps o (err e) w inv = inv
  fetch_keeps o (ok full) w inv =
      download_keeps http send parse_float json digest multipart c f.read_only Inv http_keeps
        send_keeps o.uuid w inv
  fetch_keeps o (ok (part offset len)) w inv =
      download_range_keeps http send parse_float json digest multipart c f.read_only Inv http_keeps
        send_keeps o.uuid offset len w inv

  open_resolved_keeps :
      (options : List OpenOption) (t : W × Object × Option GoError)
      → Inv t.0
      → Inv (open_resolved wired times options t).0
  open_resolved_keeps options (w, o, some e) inv = inv
  open_resolved_keeps options (w, o, none) inv =
      let kept = fetch_keeps o (open_window o.size options full) w inv in ground arith

  transferred_keeps :
      (src : Object) (a b : Text) (w : W) → Inv w → Inv (transferred wired enc times f src a b w).0
  transferred_keeps src a b w inv = (getters_keep src w inv).1

  transfer_bound_keeps :
      (o : Option Object) (dst : Text) (op_name : Text) (cant : Sentinel)
      (op : Text → Text → W → W × Result Ack) (w : W)
      → ((a b : Text) → Inv (op a b w).0)
      → Inv w
      → Inv (transfer_bound wired enc times f o dst op_name cant op w).0
  transfer_bound_keeps none dst op_name cant op w more inv = inv
  transfer_bound_keeps (some src) dst op_name cant op w more inv =
      let dst_path = abs_path enc f.root dst in
      let kept = more src.path dst_path in
      let then_sized = transferred_keeps src dst dst_path (op src.path dst_path w).0 kept in
      ground arith

  -- The calls that write are guarded: what is left to show is the case of a writable Fs.
  transfers_keep :
      (src : Source) (dst : Text) (w : W)
      → Inv w
      → Inv (copy wired enc times f src dst w).0 × Inv (move wired enc times f src dst w).0
  unfolding copy move transfer_file
  transfers_keep src dst w inv = elim (Bool-cases f.read_only) [
    | inl e ↦ rw e (inv, inv)
    | inr e ↦
        let keeps : (a b : Text) → _ = λ a b.
          writes_keep http send parse_float json digest multipart c f.read_only Inv http_keeps
            send_keeps e a b w inv in
        rw e (
          transfer_bound_keeps (bound_object f src) dst _ _ wired.copy_file w (λ a b. (keeps a b).4)
              inv,
          transfer_bound_keeps (bound_object f src) dst _ _ wired.move_file w (λ a b. (keeps a b).5)
              inv,
        )
  ]

  dir_move_keeps :
      (src : SourceFs) (a b : Text) (w : W) → Inv w → Inv (dir_move wired enc times f src a b w).0
  unfolding dir_move
  dir_move_keeps src a b w inv = elim (Bool-cases f.read_only) [
    | inl e ↦ rw e inv
    | inr e ↦
        let keeps =
          writes_keep http send parse_float json digest multipart c f.read_only Inv http_keeps
            send_keeps e (abs_path enc f.root a) (abs_path enc f.root b) w inv in
        elim (Bool-cases (is_same_fs f src)) [ inl g ↦ rw (e, g) keeps.3 | inr g ↦ rw (e, g) inv ]
  ]

  directories_keep :
      (dir : Text) (w : W)
      → Inv w
      → Inv (mkdir wired enc times f dir w).0 × Inv (rmdir wired enc times f dir w).0
  unfolding mkdir rmdir
  directories_keep dir w inv = elim (Bool-cases f.read_only) [
    | inl e ↦ rw e (inv, inv)
    | inr e ↦
        let keeps =
          writes_keep http send parse_float json digest multipart c f.read_only Inv http_keeps
            send_keeps e (abs_path enc f.root dir) [] w inv in
        rw e (keeps.0, keeps.1)
  ]

  uploads_keep :
      (o : Object) (content : Reader) (remote : Text) (n : ℤ) (w : W)
      → Inv w
      → Inv (put wired enc times f content remote n w).0
        × Inv (update wired times f o content n w).0
        × Inv (remove wired times f o w).0
        × Inv (set_mod_time wired times f o w).0
  unfolding put update remove set_mod_time
  uploads_keep o content remote n w inv = elim (Bool-cases f.read_only) [
    | inl e ↦ rw e (inv, inv, inv, inv)
    | inr e ↦
        let sends : (path : Text) → _ = λ path.
          upload_keeps http send parse_float json digest multipart c f.read_only Inv http_keeps
            send_keeps e path content n true w inv in
        let keeps =
          writes_keep http send parse_float json digest multipart c f.read_only Inv http_keeps
            send_keeps e o.path [] w inv in
        let updated = sends o.path in
        rw e (sends (abs_path enc f.root remote), ground arith, keeps.2, inv)
  ]

  step_keeps : (x : Call) (w : W) → Inv w → Inv (step wired enc times f x w)
  unfolding step list new_object open_object
  step_keeps (list_of dir) w inv =
      stream_keeps http send parse_float json digest multipart c f.read_only Inv http_keeps
        send_keeps (λ e s. (list_step enc times f dir (abs_path enc f.root dir) s e, none))
        (abs_path enc f.root dir) [] w inv
  step_keeps (object_at remote) w inv =
      read_metadata_keeps http send parse_float json digest multipart c f.read_only Inv http_keeps
        send_keeps (abs_path enc f.root remote) w inv
  step_keeps (mkdir_at dir) w inv = (directories_keep dir w inv).0
  step_keeps (rmdir_at dir) w inv = (directories_keep dir w inv).1
  step_keeps (put_at content remote n) w inv =
      (uploads_keep (unresolved f remote [] n) content remote n w inv).0
  step_keeps (time_of o) w inv = (getters_keep o w inv).0
  step_keeps (size_of o) w inv = (getters_keep o w inv).1
  step_keeps (mime_of o) w inv = (getters_keep o w inv).2
  step_keeps (remove_of o) w inv = (uploads_keep o [] [] o.size w inv).2
  step_keeps (set_time_of o) w inv = (uploads_keep o [] [] o.size w inv).3
  step_keeps (open_at o options) w inv =
      open_resolved_keeps options (resolve wired times o w) (resolve_keeps o w inv)
  step_keeps (update_of o content n) w inv = (uploads_keep o content [] n w inv).1
  step_keeps (copy_to src dst) w inv = (transfers_keep src dst w inv).0
  step_keeps (move_to src dst) w inv = (transfers_keep src dst w inv).1
  step_keeps (dir_move_to src a b) w inv = dir_move_keeps src a b w inv

  pub steps_keep : (xs : List Call) (w : W) → Inv w → Inv (steps wired enc times f xs w)
  unfolding steps
  steps_keep [] w inv = inv
  steps_keep (x ∷ xs) w inv = steps_keep xs (step wired enc times f x w) (step_keeps x w inv)

-- Whatever calls rclone makes of the backend, in any order and on any objects, and whatever the
-- broker answers: each request of the session names the client's filesystem, carries its
-- credential, is stamped as its operation demands and is no perimeter exit; and if the Fs is
-- read-only, its intent is a read.
pub session_requests-IsProper :
    {V : Type 0} (http : WireRequest → V → V × Reply)
    (send : WireRequest → Reader → V → V × Reply × Option ℕ) (parse_float : Text → Option Seconds)
    (json : Codec) (digest : Text → Text) (multipart : Text) (c : Client) (enc : Encoder)
    (times : TimeParser) (f : Fs) (calls : List Call) (v : V)
    → All
        (IsProper c f.read_only)
        (steps
          (broker_client (record_http http) (record_send send) parse_float json digest multipart c)
          enc
          times
          f
          calls
          ([], v)).0
session_requests-IsProper http send parse_float json digest multipart c enc times f calls v =
    steps_keep (record_http http) (record_send send) parse_float json digest multipart c enc times f
      (λ w. All (IsProper c f.read_only) w.0) (λ req w proper sent. (proper, sent))
      (λ req src w proper sent. (proper, sent)) calls ([], v) tt
