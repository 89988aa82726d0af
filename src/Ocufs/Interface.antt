-- ===== src/Ocufs/Interface.antt =====
-- backend/ocufs/client.go: the seam between the backend and the broker client, and what the
-- backend takes from rclone and from the clock. `W` is the state of the world that a call changes.
use ocu_rclone_filestore.Base.{
  Text, Bool, Option, none, some, ℕ, GoError, Result, is_empty, if◌then◌else◌,
}
use ocu_rclone_filestore.Base.Int.{ℤ}
use ocu_rclone_filestore.Brokerrpc.Messages.{ListDirEntry, ReadMetadataResponse}
use ocu_rclone_filestore.Brokerrpc.Reader.{Reader}
use ocu_rclone_filestore.Brokerrpc.Client.{Ack}
use ocu_rclone_filestore.Brokerrpc.Download.{BoundedBody}

-- The operations of `brokerClient`. The closure that the stream calls updates the state it has
-- captured, and may stop the stream with an error.
pub record BrokerClient (W : Type 0) : Type 1 where
  pub list_directory_stream :
      {S : Type 0} → Text → (ListDirEntry → S → S × Option GoError) → S → W → W × S × Option GoError
  pub read_metadata : Text → W → W × Result ReadMetadataResponse
  pub download : Text → W → W × Result BoundedBody
  pub download_range : Text → ℤ → ℤ → W → W × Result BoundedBody
  pub upload : Text → Reader → ℤ → Bool → W → W × Result Ack
  pub copy_file : Text → Text → W → W × Result Ack
  pub move_file : Text → Text → W → W × Result Ack
  pub remove_file : Text → W → W × Result Ack
  pub make_directory : Text → W → W × Result Ack
  pub remove_directory : Text → W → W × Result Ack
  pub move_directory : Text → Text → W → W × Result Ack

-- rclone's path encoder: FromStandardPath and ToStandardPath.
pub record Encoder : Type 0 where
  pub from_standard_path : Text → Text
  pub to_standard_path : Text → Text

-- time.Parse at the two layouts; a time is its nanoseconds, and `none` the zero time.
pub record TimeParser : Type 0 where
  pub rfc3339_nano : Text → Option ℕ
  pub rfc3339 : Text → Option ℕ

abbrev or_else : Option ℕ → Option ℕ → Option ℕ
or_else none b = b
or_else (some a) b = some a

-- A text that does not parse is the zero time.
unfoldable pub parse_mtime : TimeParser → Text → Option ℕ
parse_mtime times s = if is_empty s then none else or_else (times.rfc3339_nano s) (times.rfc3339 s)
