-- ===== src/Ocufs/Meta.antt =====
-- backend/ocufs/ocufs.go: which arm a metadata response carries.
use ocu_rclone_filestore.Base.{Text, not, ◌&&◌, ◌||◌, is_empty, if◌then◌else◌}
use ocu_rclone_filestore.Base.Int.{ℤ, is_zero}
use ocu_rclone_filestore.Brokerrpc.Messages.{ReadMetadataResponse}

pub data MetaArm : Type 0 where
  absent file_arm directory_arm : MetaArm

-- A path, a modification time or a size is a substantive sign of a file; a bare uuid is not.
unfoldable pub classify_meta_arms : Text → Text → Text → ℤ → Text → MetaArm
classify_meta_arms file_path file_uuid file_mtime file_size dir_path =
    let substantive =
      not (is_empty file_path) || not (is_empty file_mtime) || not (is_zero file_size) in
    if not (is_empty dir_path) && not substantive
    then directory_arm
    else if substantive || not (is_empty file_uuid)
    then file_arm
    else absent

unfoldable pub classify_read_metadata : ReadMetadataResponse → MetaArm
unfolding classify_meta_arms
classify_read_metadata resp =
    classify_meta_arms resp.file.path resp.file.uuid resp.file.mtime resp.file.size
      resp.directory.path
