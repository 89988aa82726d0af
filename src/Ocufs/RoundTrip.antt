-- ===== src/Ocufs/RoundTrip.antt =====
-- backend/ocufs/ocufs.go: from the remote of an entry over absPath to the broker, and back over the
-- listing of its directory.
use ocu_rclone_filestore.Base.{Text, ◌≡◌, List, map, All}
use ocu_rclone_filestore.Base.Paths.{join_slash}
use ocu_rclone_filestore.Base.Paths.Clean.{IsName}
use ocu_rclone_filestore.Ocufs.Interface.{Encoder}

-- An encoder that works segment by segment on these names, by an encoding of them that it undoes.
pub record IsSegmentwise (enc : Encoder) (f : Text → Text) (IsPlain : Text → Type 0) : Type 0 where
  pub named : (n : Text) → IsPlain n → IsName n
  pub from :
      (cs : List Text)
      → All IsPlain cs
      → enc.from_standard_path (join_slash cs) ≡ join_slash (map f cs)
  pub name : (n : Text) → IsPlain n → IsName (f n)
  pub back : (n : Text) → IsPlain n → enc.to_standard_path (f n) ≡ n
