-- ===== src/Ocufs/Transfer.antt =====
-- backend/ocufs/copymove.go: server-side copies and moves, within one Fs only.
use ocu_rclone_filestore.Base.{
  codes, Text, Bool, false, sentinel, Sentinel, Result, ok, err, [], ◌∷◌, ◌==◌, if◌then◌else◌,
  Option, none, some,
}
use ocu_rclone_filestore.Brokerrpc.Client.{Ack}
use ocu_rclone_filestore.Ocufs.Interface.{BrokerClient, Encoder, TimeParser}
use ocu_rclone_filestore.Ocufs.Fs.{Fs, Object, denied, acked, broker_failure, unresolved}
use ocu_rclone_filestore.Ocufs.Object.{size}
use ocu_rclone_filestore.Ocufs.Paths.{abs_path}

-- The source of a transfer: an object of this backend, or of another.
pub data Source : Type 0 where
  ours : Object → Source
  foreign : Source

-- The source Fs of a directory move, in the same way.
pub data SourceFs : Type 0 where
  ours_fs : Fs → SourceFs
  foreign_fs : SourceFs

-- `src.(*Object)` with the same *Fs.
abbrev pub bound_object : Fs → Source → Option Object
bound_object f foreign = none
bound_object f (ours o) = if o.fs == f.address then some o else none

abbrev pub is_same_fs : Fs → SourceFs → Bool
is_same_fs f foreign_fs = false
is_same_fs f (ours_fs g) = g.address == f.address

module _ {W : Type 0} (client : BrokerClient W) (enc : Encoder) (times : TimeParser) (f : Fs) where
  -- After the broker's acknowledgement the size comes from the source, which may resolve it.
  abbrev pub transferred : Object → Text → Text → W → W × Result Object
  transferred src dst_remote dst_path w =
      let (w', _, n) = size client times src w in (w', ok (unresolved f dst_remote dst_path n))

  abbrev pub transfer_bound :
      Option Object
      → Text
      → Text
      → Sentinel
      → (Text → Text → W → W × Result Ack)
      → W
      → W × Result Object
  transfer_bound none dst_remote op_name cant op w = (w, err (sentinel cant))
  transfer_bound (some src) dst_remote op_name cant op w =
      let dst_path = abs_path enc f.root dst_remote in
      let (w', ack) = op src.path dst_path w in
      elim ack [
        | err e ↦ (
          w',
          err (broker_failure "ocufs: %s %q → %q: %w" (op_name ∷ src.path ∷ dst_path ∷ []) e),
        )
        | ok _ ↦ transferred src dst_remote dst_path w'
      ]

  unfoldable pub transfer_file :
      Source → Text → Text → Sentinel → (Text → Text → W → W × Result Ack) → W → W × Result Object
  unfolding abs_path size
  transfer_file src dst_remote op_name cant op w =
      if f.read_only
      then (w, denied)
      else transfer_bound (bound_object f src) dst_remote op_name cant op w

  unfoldable pub copy : Source → Text → W → W × Result Object
  unfolding transfer_file
  copy src dst_remote w =
      transfer_file src dst_remote (codes "Copy") Sentinel.fs_cant_copy client.copy_file w

  unfoldable pub move : Source → Text → W → W × Result Object
  unfolding transfer_file
  move src dst_remote w =
      transfer_file src dst_remote (codes "Move") Sentinel.fs_cant_move client.move_file w

  unfoldable pub dir_move : SourceFs → Text → Text → W → W × Result Ack
  unfolding abs_path acked
  dir_move src src_remote dst_remote w =
      if f.read_only
      then (w, denied)
      else if is_same_fs f src
      then (let src_path = abs_path enc f.root src_remote in
          let dst_path = abs_path enc f.root dst_remote in
          let (w', ack) = client.move_directory src_path dst_path w in
          (w', acked "ocufs: DirMove %q → %q: %w" (src_path ∷ dst_path ∷ []) tt ack))
      else (w, err (sentinel Sentinel.fs_cant_dir_move))
