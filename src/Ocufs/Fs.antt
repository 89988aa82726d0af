-- ===== src/Ocufs/Fs.antt =====
-- backend/ocufs/ocufs.go and errors.go: the Fs and its methods. An Fs is known by its address,
-- which stands for the pointer identity that the transfers test.
use Prim.Native.String.{String}
use ocu_rclone_filestore.Base.{
  ℕ, Text, Bool, true, Option, none, some, GoError, sentinel, wrap, str, is, Sentinel, Result, ok,
  err, List, Arg, [], ◌∷◌, ◌++◌, if◌then◌else◌,
}
use ocu_rclone_filestore.Base.Int.{ℤ}
use ocu_rclone_filestore.Brokerrpc.Messages.{ListDirEntry, FilesystemFile, ReadMetadataResponse}
use ocu_rclone_filestore.Brokerrpc.Reader.{Reader}
use ocu_rclone_filestore.Brokerrpc.Client.{Ack}
use ocu_rclone_filestore.Ocufs.Interface.{BrokerClient, Encoder, TimeParser, parse_mtime}
use ocu_rclone_filestore.Ocufs.Meta.{absent, file_arm, directory_arm, classify_read_metadata}
use ocu_rclone_filestore.Ocufs.Paths.{abs_path, clean_path, immediate_child_remote}

pub record Fs : Type 0 where
  pub address : ℕ
  pub root : Text
  pub read_only : Bool

pub record Object : Type 0 where
  pub fs : ℕ
  pub remote : Text
  pub path : Text
  pub uuid : Text
  pub size : ℤ
  pub mtime : Option ℕ
  pub mode : Text
  pub sha : Text
  pub mime : Text

-- fs.DirEntry: an object, or a directory with its remote and time.
pub data DirEntry : Type 0 where
  object : Object → DirEntry
  dir : Text → Option ℕ → DirEntry

-- mapBrokerError on an error that is not nil.
unfoldable pub map_broker_error : GoError → GoError
map_broker_error e =
    if is e Sentinel.permission_denied
    then sentinel Sentinel.fs_permission_denied
    else if is e Sentinel.not_found
    then sentinel Sentinel.fs_object_not_found
    else e

abbrev pub denied {ℓ} : {A : Type ℓ} → Result A
denied = err (sentinel Sentinel.fs_permission_denied)

abbrev texts : List Text → List Arg
texts [] = []
texts (p ∷ ps) = str p ∷ texts ps

-- A failed broker call, mapped and wrapped with the method's format and its paths.
abbrev pub broker_failure : String → List Text → GoError → GoError
broker_failure format paths e = wrap format (texts paths) (map_broker_error e)

-- objectFromFile
unfoldable pub object_from_file : TimeParser → Fs → Text → FilesystemFile → Object
unfolding clean_path parse_mtime
object_from_file times f remote ff = record {
  fs = f.address;
  remote = remote;
  path = clean_path ff.path;
  uuid = ff.uuid;
  size = ff.size;
  mtime = parse_mtime times ff.mtime;
  mode = ff.mode;
  sha = ff.sha;
  mime = ff.mime;
}

-- An object whose metadata the broker has not sent yet.
abbrev pub unresolved : Fs → Text → Text → ℤ → Object
unresolved f remote path size = record {
  fs = f.address;
  remote = remote;
  path = path;
  uuid = [];
  size = size;
  mtime = none;
  mode = [];
  sha = [];
  mime = [];
}

-- What one listed entry adds to the result of List: its file arm, or its directory arm.
abbrev pub entry_of : TimeParser → Fs → ListDirEntry → Option Text → List DirEntry
entry_of times f e none = []
entry_of times f e (some remote) = elim e.file [
  | some ff ↦ object (object_from_file times f remote ff) ∷ []
  | none ↦ elim e.directory [ some d ↦ dir remote (parse_mtime times d.mtime) ∷ [] | none ↦ [] ]
]

-- The closure of List: it never stops the stream.
unfoldable pub list_step :
    Encoder → TimeParser → Fs → Text → Text → List DirEntry → ListDirEntry → List DirEntry
unfolding immediate_child_remote object_from_file parse_mtime
list_step enc times f dir_name dir_path entries e =
    entries ++ entry_of times f e (immediate_child_remote enc dir_name dir_path e)

-- The error of List: a missing directory has rclone's own sentinel.
unfoldable pub list_verdict : Text → List DirEntry → Option GoError → Result (List DirEntry)
list_verdict dir_path entries none = ok entries
list_verdict dir_path entries (some e) =
    if is e Sentinel.not_found
    then err (sentinel Sentinel.fs_dir_not_found)
    else err (wrap "ocufs: List %q: %w" (str dir_path ∷ []) e)

-- The object or the error that a metadata response gives NewObject.
unfoldable pub new_object_verdict :
    TimeParser → Fs → Text → Text → Result ReadMetadataResponse → Result Object
unfolding classify_read_metadata parse_mtime
new_object_verdict times f remote p (err e) =
    if is e Sentinel.not_found
    then err (sentinel Sentinel.fs_object_not_found)
    else err (wrap "ocufs: NewObject %q: %w" (str p ∷ []) e)
new_object_verdict times f remote p (ok resp) = elim (classify_read_metadata resp) [
  | absent ↦ err (sentinel Sentinel.fs_object_not_found)
  | directory_arm ↦ err (sentinel Sentinel.fs_is_dir)
  | file_arm ↦ ok (record {
    fs = f.address;
    remote = remote;
    path = p;
    uuid = resp.file.uuid;
    size = resp.file.size;
    mtime = parse_mtime times resp.file.mtime;
    mode = resp.file.mode;
    sha = resp.file.sha;
    mime = resp.file.mime;
  })
]

-- Mkdir takes a directory that is there already for a success.
unfoldable pub mkdir_verdict : Text → Result Ack → Result Ack
unfolding map_broker_error
mkdir_verdict p (ok a) = ok a
mkdir_verdict p (err e) =
    if is e Sentinel.already_exists
    then ok tt
    else err (broker_failure "ocufs: Mkdir %q: %w" (p ∷ []) e)

unfoldable pub acked {ℓ} : {A : Type ℓ} → String → List Text → A → Result Ack → Result A
unfolding map_broker_error
acked format paths a (ok _) = ok a
acked format paths a (err e) = err (broker_failure format paths e)

module _ {W : Type 0} (client : BrokerClient W) (enc : Encoder) (times : TimeParser) (f : Fs) where
  unfoldable pub list : Text → W → W × Result (List DirEntry)
  unfolding abs_path list_step list_verdict
  list dir_name w =
      let dir_path = abs_path enc f.root dir_name in
      let (w', entries, stop) =
        client.list_directory_stream dir_path
          (λ e s. (list_step enc times f dir_name dir_path s e, none)) [] w in
      (w', list_verdict dir_path entries stop)

  unfoldable pub new_object : Text → W → W × Result Object
  unfolding abs_path new_object_verdict
  new_object remote w =
      let p = abs_path enc f.root remote in
      let (w', resp) = client.read_metadata p w in (w', new_object_verdict times f remote p resp)

  -- Put of the content of `src`, whose remote and size the caller states.
  unfoldable pub put : Reader → Text → ℤ → W → W × Result Object
  unfolding abs_path acked
  put content remote size w =
      if f.read_only
      then (w, denied)
      else (let p = abs_path enc f.root remote in
          let (w', ack) = client.upload p content size true w in
          (w', acked "ocufs: Put %q: %w" (p ∷ []) (unresolved f remote p size) ack))

  unfoldable pub mkdir : Text → W → W × Result Ack
  unfolding abs_path mkdir_verdict
  mkdir dir_name w =
      if f.read_only
      then (w, denied)
      else (let p = abs_path enc f.root dir_name in
          let (w', ack) = client.make_directory p w in (w', mkdir_verdict p ack))

  unfoldable pub rmdir : Text → W → W × Result Ack
  unfolding abs_path acked
  rmdir dir_name w =
      if f.read_only
      then (w, denied)
      else (let p = abs_path enc f.root dir_name in
          let (w', ack) = client.remove_directory p w in
          (w', acked "ocufs: Rmdir %q: %w" (p ∷ []) tt ack))
