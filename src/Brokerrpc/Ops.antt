-- ===== src/Brokerrpc/Ops.antt =====
-- internal/brokerrpc/client.go: the unary operations. Each stamps its own operation, posts the
-- fields of its request body, and decodes an acknowledgement or a metadata response.
use ocu_rclone_filestore.Base.{Text, Option, Result, true, []}
use ocu_rclone_filestore.Brokerrpc.Intent.{Op}
use ocu_rclone_filestore.Brokerrpc.Messages.{
  Fields, WireRequest, ReadMetadataResponse, ListDirectoryResponse,
}
use ocu_rclone_filestore.Brokerrpc.Status.{Seconds}
use ocu_rclone_filestore.Brokerrpc.Client.{Client, Reply, Ack, call}

-- The JSON decoding of the three response shapes.
pub record Codec : Type 0 where
  pub ack : Text → Result Ack
  pub list_directory : Text → Result ListDirectoryResponse
  pub read_metadata : Text → Result ReadMetadataResponse

module _ {W : Type 0} (http : WireRequest → W → W × Reply) (parse_float : Text → Option Seconds)
    (json : Codec) where
  -- One page of a listing, from the cursor given; ListDirectory gives the empty one.
  unfoldable pub list_page : Client → Text → Text → W → W × Result ListDirectoryResponse
  unfolding call
  list_page c path cursor =
      call http parse_float c json.list_directory Op.list_directory (Fields.at_page path cursor)

  unfoldable pub list_directory : Client → Text → W → W × Result ListDirectoryResponse
  unfolding list_page
  list_directory c path = list_page c path []

  unfoldable pub make_directory : Client → Text → W → W × Result Ack
  unfolding call
  make_directory c path = call http parse_float c json.ack Op.make_directory (Fields.at_path path)

  unfoldable pub move_directory : Client → Text → Text → W → W × Result Ack
  unfolding call
  move_directory c source destination =
      call http parse_float c json.ack Op.move_directory (Fields.from_to source destination)

  unfoldable pub remove_directory : Client → Text → W → W × Result Ack
  unfolding call
  remove_directory c path =
      call http parse_float c json.ack Op.remove_directory (Fields.at_path path)

  unfoldable pub read_metadata : Client → Text → W → W × Result ReadMetadataResponse
  unfolding call
  read_metadata c path =
      call http parse_float c json.read_metadata Op.read_metadata (Fields.at_path path)

  unfoldable pub copy_file : Client → Text → Text → W → W × Result Ack
  unfolding call
  copy_file c source destination =
      call http parse_float c json.ack Op.copy_file (Fields.replace_to source destination true)

  unfoldable pub move_file : Client → Text → Text → W → W × Result Ack
  unfolding call
  move_file c source destination =
      call http parse_float c json.ack Op.move_file (Fields.replace_to source destination true)

  unfoldable pub remove_file : Client → Text → W → W × Result Ack
  unfolding call
  remove_file c path = call http parse_float c json.ack Op.remove_file (Fields.at_path path)
