-- ===== src/Ocufs/Shared.antt =====
-- backend/ocufs/object.go: the methods of one Object that rclone drives concurrently. Each section
-- under `mu`, and each call of the broker outside of it, is one step.
pub mod Updates
pub mod Untorn
pub mod Settled
pub mod Steady
use ocu_rclone_filestore.Base.{
  ℕ, suc, Text, Bool, true, false, ◌&&◌, ◌≡◌, Option, none, some, GoError, Result, ok, err, List,
  [], ◌∷◌, map, is_empty,
}
use ocu_rclone_filestore.Base.Int.{ℤ, is_zero}
use ocu_rclone_filestore.Brokerrpc.Messages.{ReadMetadataResponse}
use ocu_rclone_filestore.Brokerrpc.Reader.{Reader}
use ocu_rclone_filestore.Brokerrpc.Client.{Ack}
use ocu_rclone_filestore.Ocufs.Interface.{BrokerClient, TimeParser}
use ocu_rclone_filestore.Ocufs.Fs.{Object}
use ocu_rclone_filestore.Ocufs.Object.{resolve_verdict}

-- The getters, and Open up to its snapshot.
pub data Call : Type 0 where
  to_mod_time to_size to_mime_type to_open : Call

-- The test before the call of resolve; Open calls it in any case.
abbrev pub needs : Call → Object → Bool
needs to_mod_time o = is_empty o.uuid
needs to_size o = is_empty o.uuid && is_zero o.size
needs to_mime_type o = is_empty o.uuid && is_empty o.mime
needs to_open o = true

pub data Stage : Type 0 where
  -- before the test; at the head of resolve; before ReadMetadata, and with its answer
  called checking fetching : Call → Stage
  fetched : Call → Result ReadMetadataResponse → Stage
  -- before the last section, and with the fields as they were in it
  reading : Call → Stage
  answered : Call → Object → Stage
  -- Open, whose resolve failed
  failed : GoError → Stage
  -- Update on a writable Fs: before the upload, before the section that forgets the uuid, at the end
  uploading : Reader → ℤ → Stage
  clearing : ℤ → Stage
  updated : Option GoError → Stage

-- The getters resolve best effort.
abbrev pub after_resolve : Call → Option GoError → Stage
after_resolve to_open (some e) = failed e
after_resolve c e = reading c

module _ {W : Type 0} (client : BrokerClient W) (times : TimeParser) where
  pub data Move (w : W) (o : Object) : Stage → W → Object → Stage → Type 0 where
    known : {c : Call} → needs c o ≡ false → Move w o (called c) w o (reading c)
    unknown : {c : Call} → needs c o ≡ true → Move w o (called c) w o (checking c)
    already : {c : Call} → is_empty o.uuid ≡ false → Move w o (checking c) w o (reading c)
    missing : {c : Call} → is_empty o.uuid ≡ true → Move w o (checking c) w o (fetching c)
    fetch :
        {c : Call}
        → Move w o
            (fetching c)
            (client.read_metadata o.path w).0
            o
            (fetched c (client.read_metadata o.path w).1)
    settle :
        {c : Call} {resp : Result ReadMetadataResponse}
        → Move w o
            (fetched c resp)
            w
            (resolve_verdict times o resp).0
            (after_resolve c (resolve_verdict times o resp).1)
    read : {c : Call} → Move w o (reading c) w o (answered c o)
    upload :
        {content : Reader} {n : ℤ} {a : Ack}
        → (client.upload o.path content n true w).1 ≡ ok a
        → Move w o (uploading content n) (client.upload o.path content n true w).0 o (clearing n)
    refused :
        {content : Reader} {n : ℤ} {e : GoError}
        → (client.upload o.path content n true w).1 ≡ err e
        → Move w o
            (uploading content n)
            (client.upload o.path content n true w).0
            o
            (updated (some e))
    clear : {n : ℤ} → Move w o (clearing n) w (record o { uuid = []; size = n }) (updated none)

  pub data Turn (w : W) (o : Object) : List Stage → W → Object → List Stage → Type 0 where
    here :
        {st st' : Stage} {w' : W} {o' : Object} {rest : List Stage}
        → Move w o st w' o' st'
        → Turn w o (st ∷ rest) w' o' (st' ∷ rest)
    other :
        {st : Stage} {w' : W} {o' : Object} {rest rest' : List Stage}
        → Turn w o rest w' o' rest'
        → Turn w o (st ∷ rest) w' o' (st ∷ rest')

  -- What the calls of an object can have come to.
  pub data Reach (w0 : W) (o0 : Object) (start : List Stage)
      : W → Object → List Stage → Type 0 where
    begin : Reach w0 o0 start w0 o0 start
    later :
        {w w' : W} {o o' : Object} {sts sts' : List Stage}
        → Reach w0 o0 start w o sts
        → Turn w o sts w' o' sts'
        → Reach w0 o0 start w' o' sts'
