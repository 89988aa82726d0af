-- ===== src/Ocufs/Wired.antt =====
-- backend/ocufs/client.go: the broker client of internal/brokerrpc behind the backend's seam. `http`
-- and `send` carry the requests of the unary and download calls, and of the upload.
use ocu_rclone_filestore.Base.{ℕ, Text, Option}
use ocu_rclone_filestore.Brokerrpc.Messages.{WireRequest}
use ocu_rclone_filestore.Brokerrpc.Reader.{Reader}
use ocu_rclone_filestore.Brokerrpc.Status.{Seconds}
use ocu_rclone_filestore.Brokerrpc.Client.{Client, Reply}
use ocu_rclone_filestore.Brokerrpc.Ops.{
  Codec, make_directory, move_directory, remove_directory, read_metadata, copy_file, move_file,
  remove_file,
}
use ocu_rclone_filestore.Brokerrpc.Cursor.{list_directory_stream}
use ocu_rclone_filestore.Brokerrpc.Download.{download, download_range}
use ocu_rclone_filestore.Brokerrpc.Upload.{upload}
use ocu_rclone_filestore.Ocufs.Interface.{BrokerClient}

module _ {W : Type 0} (http : WireRequest → W → W × Reply)
    (send : WireRequest → Reader → W → W × Reply × Option ℕ) (parse_float : Text → Option Seconds)
    (json : Codec) (digest : Text → Text) (multipart : Text) (c : Client) where
  abbrev pub broker_client : BrokerClient W
  broker_client = record {
    list_directory_stream =
        λ path yield s. list_directory_stream http parse_float json digest c path yield s;
    read_metadata = λ path. read_metadata http parse_float json c path;
    download = λ uuid. download http parse_float c uuid;
    download_range = λ uuid offset len. download_range http parse_float c uuid offset len;
    upload =
        λ path src total overwrite. upload send parse_float multipart c path src total overwrite;
    copy_file = λ src dst. copy_file http parse_float json c src dst;
    move_file = λ src dst. move_file http parse_float json c src dst;
    remove_file = λ path. remove_file http parse_float json c path;
    make_directory = λ path. make_directory http parse_float json c path;
    remove_directory = λ path. remove_directory http parse_float json c path;
    move_directory = λ src dst. move_directory http parse_float json c src dst;
  }
