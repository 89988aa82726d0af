-- ===== src/Ocufs/Shared/Updates.antt =====
-- The Updates among the concurrent calls of an Object of backend/ocufs/object.go.
use ocu_rclone_filestore.Base.{◌≡◌, refl, Option, none, some, GoError, List, [], ◌∷◌, ◌≢◌}
use ocu_rclone_filestore.Base.Int.{ℤ}
use ocu_rclone_filestore.Brokerrpc.Reader.{Reader}
use ocu_rclone_filestore.Ocufs.Interface.{BrokerClient, TimeParser}
use ocu_rclone_filestore.Ocufs.Fs.{Object}
use ocu_rclone_filestore.Ocufs.Object.{resolve_verdict}
use ocu_rclone_filestore.Ocufs.Shared.{
  Call, to_mod_time, to_size, to_mime_type, to_open, Stage, uploading, clearing, updated,
  after_resolve, Move, known, unknown, already, missing, fetch, settle, read, upload, refused,
  clear, Turn, here, other,
}

-- One of the Updates, of a content of this size, has ended with no error.
pub data HasUpdated (n : ℤ) : List Stage → List Stage → Type 0 where
  this_one :
      {content : Reader} {start sts : List Stage}
      → HasUpdated n (uploading content n ∷ start) (updated none ∷ sts)
  another :
      {begun st : Stage} {start sts : List Stage}
      → HasUpdated n start sts
      → HasUpdated n (begun ∷ start) (st ∷ sts)

-- An Update that is under way is one of those at the start.
abbrev pub Follows : Stage → Stage → Type 0
Follows begun (uploading content n) = begun ≡ uploading content n
Follows begun (clearing n) = (content : Reader) × (begun ≡ uploading content n)
Follows begun _ = Unit

abbrev pub AllFollow : List Stage → List Stage → Type 0
AllFollow [] [] = Unit
AllFollow (begun ∷ start) (st ∷ sts) = Follows begun st × AllFollow start sts
AllFollow [] (st ∷ sts) = ⊥
AllFollow (begun ∷ start) [] = ⊥

module _ {W : Type 0} (client : BrokerClient W) (times : TimeParser) where
  Move-Follows :
      {w : W} {o : Object} {w' : W} {o' : Object} {st st' : Stage} (begun : Stage)
      → Move client times w o st w' o' st'
      → Follows begun st
      → Follows begun st'
  Move-Follows begun (known h) f = tt
  Move-Follows begun (unknown h) f = tt
  Move-Follows begun (already h) f = tt
  Move-Follows begun (missing h) f = tt
  Move-Follows begun fetch f = tt
  Move-Follows {o} begun (settle {c} {resp}) f = of_call c (resolve_verdict times o resp).1
    where
      of_call : (c' : Call) (e : Option GoError) → Follows begun (after_resolve c' e)
      of_call to_open (some e) = tt
      of_call to_open none = tt
      of_call to_mod_time e = tt
      of_call to_size e = tt
      of_call to_mime_type e = tt
  Move-Follows begun read f = tt
  Move-Follows begun (upload {content} h) f = (content, f)
  Move-Follows begun (refused h) f = tt
  Move-Follows begun clear f = tt

  pub Turn-AllFollow :
      {w : W} {o : Object} {w' : W} {o' : Object} {sts sts' : List Stage} (start : List Stage)
      → Turn client times w o sts w' o' sts'
      → AllFollow start sts
      → AllFollow start sts'
  Turn-AllFollow [] (here mv) f = absurd f
  Turn-AllFollow [] (other t) f = absurd f
  Turn-AllFollow (begun ∷ start) (here mv) (f, fs) = (Move-Follows begun mv f, fs)
  Turn-AllFollow (begun ∷ start) (other t) (f, fs) = (f, Turn-AllFollow start t fs)

  -- An Update that has ended takes no further step.
  Move-ended :
      {w : W} {o : Object} {w' : W} {o' : Object} {st st' : Stage}
      → Move client times w o st w' o' st'
      → st ≢ updated none
  Move-ended (known h) e = cc
  Move-ended (unknown h) e = cc
  Move-ended (already h) e = cc
  Move-ended (missing h) e = cc
  Move-ended fetch e = cc
  Move-ended settle e = cc
  Move-ended read e = cc
  Move-ended (upload h) e = cc
  Move-ended (refused h) e = cc
  Move-ended clear e = cc

  pub Turn-HasUpdated :
      {w : W} {o : Object} {w' : W} {o' : Object} {start sts sts' : List Stage} (n : ℤ)
      → Turn client times w o sts w' o' sts'
      → HasUpdated n start sts
      → HasUpdated n start sts'
  Turn-HasUpdated n (here mv) this_one = absurd (Move-ended mv refl)
  Turn-HasUpdated n (here mv) (another h) = another h
  Turn-HasUpdated n (other t) this_one = this_one
  Turn-HasUpdated n (other t) (another h) = another (Turn-HasUpdated n t h)
