-- ===== src/Ocufs/Object.antt =====
-- backend/ocufs/object.go: a file of the backend, its lazy metadata, and its methods. The methods
-- run one at a time here: what `mu` guards is the object passed in and returned. Shared has them as
-- concurrent callers.
use ocu_rclone_filestore.Base.{
  ℕ, zero, suc, Text, Bool, true, false, ◌&&◌, Option, none, some, GoError, sentinel, message, wrap,
  str, is, Sentinel, Result, ok, err, List, [], ◌∷◌, if◌then◌else◌, is_empty,
}
use ocu_rclone_filestore.Base.Int.{ℤ, pos, negsuc, ◌-ℤ◌, wrap64, is_zero, is_negative}
use ocu_rclone_filestore.Brokerrpc.Messages.{ReadMetadataResponse}
use ocu_rclone_filestore.Brokerrpc.Reader.{Reader}
use ocu_rclone_filestore.Brokerrpc.Client.{Ack}
use ocu_rclone_filestore.Brokerrpc.Download.{BoundedBody}
use ocu_rclone_filestore.Ocufs.Interface.{BrokerClient, TimeParser, parse_mtime}
use ocu_rclone_filestore.Ocufs.Meta.{absent, file_arm, directory_arm, classify_read_metadata}
use ocu_rclone_filestore.Ocufs.Fs.{Fs, Object, denied, acked, broker_failure}

-- The object and the error after a metadata response.
unfoldable pub resolve_verdict :
    TimeParser → Object → Result ReadMetadataResponse → Object × Option GoError
unfolding classify_read_metadata parse_mtime
resolve_verdict times o (err e) =
    if is e Sentinel.not_found
    then (o, some (sentinel Sentinel.fs_object_not_found))
    else (o, some (wrap "ocufs: resolve %q: %w" (str o.path ∷ []) e))
resolve_verdict times o (ok resp) = elim (classify_read_metadata resp) [
  | directory_arm ↦ (o, some (sentinel Sentinel.fs_is_dir))
  | absent ↦ (o, some (sentinel Sentinel.fs_object_not_found))
  | file_arm ↦ (
    record o {
      uuid = resp.file.uuid;
      size = resp.file.size;
      mtime = parse_mtime times resp.file.mtime;
      mode = resp.file.mode;
      sha = resp.file.sha;
      mime = resp.file.mime;
    },
    none,
  )
]

-- An option of Open: fs.SeekOption, fs.RangeOption with what its Decode gives for the object's size
-- (the offset, and a limit or -1), or another with its Mandatory().
pub data OpenOption : Type 0 where
  seek : ℤ → OpenOption
  range : (ℤ → ℤ × ℤ) → OpenOption
  other : Bool → OpenOption

-- The window that the options ask for: the whole object, or an offset and a length.
pub data Window : Type 0 where
  full : Window
  part : ℤ → ℤ → Window

-- size - offset on int64, and 0 where that is negative.
unfoldable pub length_to_end : ℤ → ℤ → ℤ
length_to_end size offset = let n = wrap64 (size -ℤ offset) in if is_negative n then pos 0 else n

-- The limit -1 means "to the end".
abbrev pub decoded_window : ℤ → ℤ × ℤ → Window
decoded_window size (offset, negsuc zero) = part offset (length_to_end size offset)
decoded_window size (offset, negsuc (suc n)) = part offset (negsuc (suc n))
decoded_window size (offset, pos n) = part offset (pos n)

-- The loop over the options: the last one that asks for a window decides.
unfoldable pub open_window : ℤ → List OpenOption → Window → Result Window
unfolding length_to_end
open_window size [] window = ok window
open_window size (seek offset ∷ rest) window =
    open_window size rest (part offset (length_to_end size offset))
open_window size (range decode ∷ rest) window =
    open_window size rest (decoded_window size (decode size))
open_window size (other true ∷ rest) window =
    err (message "ocufs: Open: unsupported mandatory option %T" [])
open_window size (other false ∷ rest) window = open_window size rest window

module _ {W : Type 0} (client : BrokerClient W) (times : TimeParser) where
  -- A no-op once the uuid is known.
  unfoldable pub resolve : Object → W → W × Object × Option GoError
  unfolding resolve_verdict
  resolve o w =
      if is_empty o.uuid
      then (let (w', resp) = client.read_metadata o.path w in
          let (o', e) = resolve_verdict times o resp in (w', o', e))
      else (w, o, none)

  -- Each of the three getters resolves, best effort, what it cannot answer.
  unfoldable pub mod_time : Object → W → W × Object × Option ℕ
  unfolding resolve
  mod_time o w =
      if is_empty o.uuid
      then (let (w', o', _) = resolve o w in (w', o', o'.mtime))
      else (w, o, o.mtime)

  unfoldable pub size : Object → W → W × Object × ℤ
  unfolding resolve
  size o w =
      if is_empty o.uuid && is_zero o.size
      then (let (w', o', _) = resolve o w in (w', o', o'.size))
      else (w, o, o.size)

  unfoldable pub mime_type : Object → W → W × Object × Text
  unfolding resolve
  mime_type o w =
      if is_empty o.uuid && is_empty o.mime
      then (let (w', o', _) = resolve o w in (w', o', o'.mime))
      else (w, o, o.mime)

  -- The download of a window by the uuid.
  abbrev pub fetch : Text → Window → W → W × Result BoundedBody
  fetch uuid full w = client.download uuid w
  fetch uuid (part offset len) w = client.download_range uuid offset len w

  abbrev pub fetch_ok : Object → Result Window → W → W × Object × Result BoundedBody
  fetch_ok o (err e) w = (w, o, err e)
  fetch_ok o (ok window) w = let (w', body) = fetch o.uuid window w in (w', o, body)

  -- What Open does after resolve: an object with no uuid is refused before any download.
  abbrev pub open_resolved :
      List OpenOption → W × Object × Option GoError → W × Object × Result BoundedBody
  open_resolved options (w, o, some e) = (w, o, err e)
  open_resolved options (w, o, none) =
      if is_empty o.uuid
      then (
        w,
        o,
        err (message "ocufs: Open %q: resolved metadata carries no uuid handle" (str o.path ∷ [])),
      )
      else fetch_ok o (open_window o.size options full) w

  unfoldable pub open_object : Object → List OpenOption → W → W × Object × Result BoundedBody
  unfolding resolve open_window
  open_object o options w = open_resolved options (resolve o w)

  module _ (f : Fs) where
    -- The object after Update: its uuid is forgotten, so the next access resolves it again.
    unfoldable pub update : Object → Reader → ℤ → W → W × Object × Result Ack
    unfolding acked
    update o content new_size w =
        if f.read_only
        then (w, o, denied)
        else (let (w', ack) = client.upload o.path content new_size true w in
            elim ack [
              | err e ↦ (w', o, err (broker_failure "ocufs: Update %q: %w" (o.path ∷ []) e))
              | ok _ ↦ (w', record o { uuid = []; size = new_size }, ok tt)
            ])

    unfoldable pub remove : Object → W → W × Result Ack
    unfolding acked
    remove o w =
        if f.read_only
        then (w, denied)
        else (let (w', ack) = client.remove_file o.path w in
            (w', acked "ocufs: Remove %q: %w" (o.path ∷ []) tt ack))

    -- No broker operation sets a time.
    unfoldable pub set_mod_time : Object → W → W × Result Ack
    set_mod_time o w =
        if f.read_only then (w, denied) else (w, err (sentinel Sentinel.fs_cant_set_mod_time))
