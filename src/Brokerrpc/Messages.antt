-- ===== src/Brokerrpc/Messages.antt =====
-- internal/brokerrpc/messages.go: the wire messages. A request's `filesystem_id` and
-- `authorization_metadata` stand in `WireRequest`, and the fields of the operation in `Fields`.
use ocu_rclone_filestore.Base.{Text, Bool, Option, List}
use ocu_rclone_filestore.Base.Int.{ℤ}
use ocu_rclone_filestore.Brokerrpc.Intent.{AuthorizationMetadata, Op}

-- File and FilesystemFile have the same fields.
pub record FilesystemFile : Type 0 where
  pub path : Text
  pub size : ℤ
  pub mtime : Text
  pub mode : Text
  pub sha : Text
  pub mime : Text
  pub uuid : Text

pub record Directory : Type 0 where
  pub path : Text
  pub mode : Text
  pub mtime : Text

pub record Range : Type 0 where
  pub offset : ℤ
  pub length : ℤ

-- The fields of each request body beside the scope and the metadata.
pub data Fields : Type 0 where
  -- makeDirectory, removeDirectory, readMetadata, removeFile
  at_path : Text → Fields
  -- listDirectory: the path and the cursor
  at_page : Text → Text → Fields
  -- moveDirectory: the source and the destination
  from_to : Text → Text → Fields
  -- copyFile, moveFile: the source, the destination and overwrite_existing
  replace_to : Text → Text → Bool → Fields
  -- fileUpload: the path, declared_size_bytes and overwrite_existing
  upload : Text → ℤ → Bool → Fields
  -- fileDownload: the uuid and the optional range
  download : Text → Option Range → Fields

pub record WireRequest : Type 0 where
  pub url : Text
  pub authorization : Text
  pub content_type : Text
  pub op : Op
  pub filesystem_id : Text
  pub authorization_metadata : AuthorizationMetadata
  pub fields : Fields

-- The union of a listing: a pointer to a file, a pointer to a directory.
pub record ListDirEntry : Type 0 where
  pub file : Option FilesystemFile
  pub directory : Option Directory

pub record ListDirectoryResponse : Type 0 where
  pub entries : List ListDirEntry
  pub cursor : Text

pub record ReadMetadataResponse : Type 0 where
  pub file : FilesystemFile
  pub directory : Directory
