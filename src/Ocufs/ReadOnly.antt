-- ===== src/Ocufs/ReadOnly.antt =====
-- The guards at the top of the mutating methods of backend/ocufs.
use ocu_rclone_filestore.Base.{Text, true, false, ◌≡◌, err, sentinel, Sentinel, ◌==◌}
use ocu_rclone_filestore.Base.Int.{ℤ}
use ocu_rclone_filestore.Brokerrpc.Reader.{Reader}
use ocu_rclone_filestore.Ocufs.Interface.{BrokerClient, Encoder, TimeParser}
use ocu_rclone_filestore.Ocufs.Fs.{Fs, Object, put, mkdir, rmdir, denied}
use ocu_rclone_filestore.Ocufs.Object.{update, remove, set_mod_time}
use ocu_rclone_filestore.Ocufs.Transfer.{
  Source, SourceFs, copy, move, dir_move, foreign, ours, ours_fs,
}

module _ {W : Type 0} (client : BrokerClient W) (enc : Encoder) (times : TimeParser) (f : Fs) where
  -- On a read-only Fs each of the nine mutating methods answers with rclone's permission error, and
  -- neither the world nor the object is touched: no request is made.
  pub read_only_denies :
      (o : Object) (src : Source) (src_fs : SourceFs) (content : Reader) (a b : Text) (n : ℤ)
      (w : W)
      → f.read_only ≡ true
      → (put client enc times f content a n w ≡ (w, denied))
        × (mkdir client enc times f a w ≡ (w, denied))
        × (rmdir client enc times f a w ≡ (w, denied))
        × (update client times f o content n w ≡ (w, o, denied))
        × (remove client times f o w ≡ (w, denied))
        × (set_mod_time client times f o w ≡ (w, denied))
        × (copy client enc times f src a w ≡ (w, denied))
        × (move client enc times f src a w ≡ (w, denied))
        × (dir_move client enc times f src_fs a b w ≡ (w, denied))
  unfolding put mkdir rmdir update remove set_mod_time copy move dir_move
  read_only_denies o src src_fs content a b n w e =
      (rw e, rw e, rw e, rw e, rw e, rw e, rw e, rw e, rw e)

  -- On a writable Fs a transfer of an object that is not bound to this Fs makes no request, and
  -- answers with the sentinel on which rclone falls back to copying through the client.
  pub foreign_source_falls_back :
      (o : Object) (g : Fs) (a b : Text) (w : W)
      → f.read_only ≡ false
      → (o.fs == f.address) ≡ false
      → (g.address == f.address) ≡ false
      → (copy client enc times f (ours o) a w ≡ (w, err (sentinel Sentinel.fs_cant_copy)))
        × (move client enc times f (ours o) a w ≡ (w, err (sentinel Sentinel.fs_cant_move)))
        × (copy client enc times f foreign a w ≡ (w, err (sentinel Sentinel.fs_cant_copy)))
        × (move client enc times f foreign a w ≡ (w, err (sentinel Sentinel.fs_cant_move)))
        × (dir_move client enc times f (ours_fs g) a b w
            ≡ (w, err (sentinel Sentinel.fs_cant_dir_move)))
  unfolding copy move dir_move
  foreign_source_falls_back o g a b w writable other_fs other_dir = (
    rw (writable, other_fs),
    rw (writable, other_fs),
    rw writable,
    rw writable,
    rw (writable, other_dir),
  )
