-- ===== src/Brokerrpc/Intent.antt =====
-- internal/brokerrpc/intent.go: the operations, the intent of each, and the authorization metadata
-- that every request carries.
use Prim.Native.String.{String}
use ocu_rclone_filestore.Base.{Bool, false, Result, ok, err, message, str, codes, [], ◌∷◌}

-- The 18 operations, and any other text that the string type admits.
pub data Op : Type 0 where
  list_directory read_file read_metadata get_file_metadata list_files file_download : Op
  make_directory move_directory remove_directory create_file copy_file move_file : Op
  remove_file file_upload import_files import_zip migrate_filesystem remove_filesystem : Op
  unknown : String → Op

-- The last segment of the REST route.
abbrev pub op_name : Op → String
op_name list_directory = "listDirectory"
op_name read_file = "readFile"
op_name read_metadata = "readMetadata"
op_name get_file_metadata = "getFileMetadata"
op_name list_files = "listFiles"
op_name file_download = "fileDownload"
op_name make_directory = "makeDirectory"
op_name move_directory = "moveDirectory"
op_name remove_directory = "removeDirectory"
op_name create_file = "createFile"
op_name copy_file = "copyFile"
op_name move_file = "moveFile"
op_name remove_file = "removeFile"
op_name file_upload = "fileUpload"
op_name import_files = "importFiles"
op_name import_zip = "importZip"
op_name migrate_filesystem = "migrateFilesystem"
op_name remove_filesystem = "removeFilesystem"
op_name (unknown s) = s

-- The intents that the mount requests: "read" and "write".
pub data Intent : Type 0 where
  read write : Intent

pub record AuthorizationMetadata : Type 0 where
  pub intent : Intent
  pub downloadable : Bool

unfoldable pub intent_for : Op → Result Intent
intent_for list_directory = ok read
intent_for read_file = ok read
intent_for read_metadata = ok read
intent_for get_file_metadata = ok read
intent_for list_files = ok read
intent_for file_download = ok read
intent_for make_directory = ok write
intent_for move_directory = ok write
intent_for remove_directory = ok write
intent_for create_file = ok write
intent_for copy_file = ok write
intent_for move_file = ok write
intent_for remove_file = ok write
intent_for file_upload = ok write
intent_for import_files = ok write
intent_for import_zip = ok write
intent_for migrate_filesystem = ok write
intent_for remove_filesystem = ok write
intent_for (unknown s) =
    err (message "brokerrpc: unknown op %q — not in intent table" (str (codes s) ∷ []))

abbrev with_intent : Result Intent → Result AuthorizationMetadata
with_intent (ok i) = ok (record { intent = i; downloadable = false })
with_intent (err e) = err e

unfoldable pub stamp_auth_meta : Op → Result AuthorizationMetadata
unfolding intent_for
stamp_auth_meta op = with_intent (intent_for op)
