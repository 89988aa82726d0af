-- ===== src/Ocufs/Session.antt =====
-- What rclone's VFS may do with the backend of backend/ocufs: any sequence of calls of its methods,
-- on any objects. The requests that leave the process on the way are recorded, the last one first.
pub mod Proper
pub mod Scoped
use ocu_rclone_filestore.Base.{
  ℕ, Text, Bool, true, false, not, Option, none, some, Result, ok, err, List, [], ◌∷◌, ◌++◌, ◌≡◌,
  codes,
}
use ocu_rclone_filestore.Base.Int.{ℤ}
use ocu_rclone_filestore.Brokerrpc.Intent.{Intent, stamp_auth_meta}
use ocu_rclone_filestore.Brokerrpc.Messages.{WireRequest}
use ocu_rclone_filestore.Brokerrpc.Reader.{Reader}
use ocu_rclone_filestore.Brokerrpc.Client.{Client, Reply}
use ocu_rclone_filestore.Ocufs.Interface.{BrokerClient, Encoder, TimeParser}
use ocu_rclone_filestore.Ocufs.Fs.{Fs, Object, list, new_object, put, mkdir, rmdir}
use ocu_rclone_filestore.Ocufs.Object.{
  OpenOption, mod_time, size, mime_type, open_object, update, remove, set_mod_time,
}
use ocu_rclone_filestore.Ocufs.Transfer.{Source, SourceFs, copy, move, dir_move}

pub data Call : Type 0 where
  list_of object_at mkdir_at rmdir_at : Text → Call
  put_at : Reader → Text → ℤ → Call
  time_of size_of mime_of remove_of set_time_of : Object → Call
  open_at : Object → List OpenOption → Call
  update_of : Object → Reader → ℤ → Call
  copy_to move_to : Source → Text → Call
  dir_move_to : SourceFs → Text → Text → Call

module _ {W : Type 0} (client : BrokerClient W) (enc : Encoder) (times : TimeParser) (f : Fs) where
  -- The world after one call.
  unfoldable pub step : Call → W → W
  step (list_of dir) w = (list client enc times f dir w).0
  step (object_at remote) w = (new_object client enc times f remote w).0
  step (mkdir_at dir) w = (mkdir client enc times f dir w).0
  step (rmdir_at dir) w = (rmdir client enc times f dir w).0
  step (put_at content remote n) w = (put client enc times f content remote n w).0
  step (time_of o) w = (mod_time client times o w).0
  step (size_of o) w = (size client times o w).0
  step (mime_of o) w = (mime_type client times o w).0
  step (remove_of o) w = (remove client times f o w).0
  step (set_time_of o) w = (set_mod_time client times f o w).0
  step (open_at o options) w = (open_object client times o options w).0
  step (update_of o content n) w = (update client times f o content n w).0
  step (copy_to src dst) w = (copy client enc times f src dst w).0
  step (move_to src dst) w = (move client enc times f src dst w).0
  step (dir_move_to src a b) w = (dir_move client enc times f src a b w).0

  unfoldable pub steps : List Call → W → W
  unfolding step
  steps [] w = w
  steps (x ∷ xs) w = steps xs (step x w)

-- The world with the requests sent so far.
abbrev pub Recorded : Type 0 → Type 0
Recorded V = List WireRequest × V

abbrev pub record_http :
    {V : Type 0} → (WireRequest → V → V × Reply) → WireRequest → Recorded V → Recorded V × Reply
record_http http req (sent, v) = let (v', reply) = http req v in ((req ∷ sent, v'), reply)

abbrev pub record_send :
    {V : Type 0}
    → (WireRequest → Reader → V → V × Reply × Option ℕ)
    → WireRequest
    → Reader
    → Recorded V
    → Recorded V × Reply × Option ℕ
record_send send req src (sent, v) =
    let (v', reply, pipe) = send req src v in ((req ∷ sent, v'), reply, pipe)

-- An Fs may send a request of this intent: a read-only one, a read.
abbrev pub may_send : Bool → Intent → Bool
may_send read_only Intent.read = true
may_send read_only Intent.write = not read_only

-- A request in the scope and with the credential of the client, stamped as its operation demands,
-- and of an intent that the Fs may send.
abbrev pub IsProper : Client → Bool → WireRequest → Type 0
IsProper c read_only req =
    (req.filesystem_id ≡ c.fs_id)
    × (req.authorization ≡ codes "Bearer " ++ c.auth_token)
    × (stamp_auth_meta req.op ≡ ok req.authorization_metadata)
    × (req.authorization_metadata.downloadable ≡ false)
    × (may_send read_only req.authorization_metadata.intent ≡ true)
