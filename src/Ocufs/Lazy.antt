-- ===== src/Ocufs/Lazy.antt =====
-- The lazy metadata of backend/ocufs/object.go beside NewObject of ocufs.go.
use ocu_rclone_filestore.Base.{
  Text, ◌≡◌, ◌⊎◌, inl, inr, refl, Option, none, some, GoError, Result, ok, err, is, Sentinel,
  Bool-cases,
}
use ocu_rclone_filestore.Base.Int.{ℤ}
use ocu_rclone_filestore.Brokerrpc.Messages.{ReadMetadataResponse}
use ocu_rclone_filestore.Ocufs.Interface.{BrokerClient, Encoder, TimeParser}
use ocu_rclone_filestore.Ocufs.Meta.{
  MetaArm, absent, file_arm, directory_arm, classify_read_metadata,
}
use ocu_rclone_filestore.Ocufs.Paths.{abs_path}
use ocu_rclone_filestore.Ocufs.Fs.{Fs, Object, unresolved, new_object, new_object_verdict}
use ocu_rclone_filestore.Ocufs.Object.{resolve, resolve_verdict}

-- The same object, or errors that errors.Is does not tell apart.
abbrev pub AgreesWith : Result Object → Object × Option GoError → Type 0
AgreesWith (ok x) (o, none) = x ≡ o
AgreesWith (err d) (o, some e) = (s : Sentinel) → is d s ≡ is e s
AgreesWith (ok x) (o, some e) = ⊥
AgreesWith (err d) (o, none) = ⊥

abbrev pub object_and_error : {W : Type 0} → W × Object × Option GoError → Object × Option GoError
object_and_error (w, o, e) = (o, e)

pub MetaArm-cases : (a : MetaArm) → (a ≡ absent) ⊎ (a ≡ file_arm) ⊎ (a ≡ directory_arm)
MetaArm-cases absent = inl refl
MetaArm-cases file_arm = inr (inl refl)
MetaArm-cases directory_arm = inr (inr refl)

module _ (times : TimeParser) (f : Fs) (remote p : Text) (n : ℤ) where
  verdicts-AgreesWith :
      (r : Result ReadMetadataResponse)
      → AgreesWith
          (new_object_verdict times f remote p r)
          (resolve_verdict times (unresolved f remote p n) r)
  unfolding new_object_verdict resolve_verdict
  verdicts-AgreesWith (err e) = elim (Bool-cases (is e Sentinel.not_found)) [
    | inl h ↦ rw h (λ s. refl)
    | inr h ↦ rw h (λ s. refl)
  ]
  verdicts-AgreesWith (ok resp) = elim (MetaArm-cases (classify_read_metadata resp)) [
    | inl h ↦ rw (h, AgreesWith, resolve_verdict) (λ s. refl)
    | inr (inl h) ↦ rw (h, AgreesWith, resolve_verdict) refl
    | inr (inr h) ↦ rw (h, AgreesWith, resolve_verdict) (λ s. refl)
  ]

module _ {W : Type 0} (client : BrokerClient W) (enc : Encoder) (times : TimeParser) (f : Fs) where
  -- An object that Put or a transfer has left unresolved, whatever its size, resolves to just what
  -- NewObject finds at its remote, with the same effect on the world; where one of them fails the
  -- other does, with an error that errors.Is does not tell apart.
  pub resolve-AgreesWith :
      (remote : Text) (n : ℤ) (w : W)
      → ((new_object client enc times f remote w).0
          ≡ (resolve client times (unresolved f remote (abs_path enc f.root remote) n) w).0)
        × AgreesWith (new_object client enc times f remote w).1 (
            object_and_error
              (resolve client times (unresolved f remote (abs_path enc f.root remote) n) w))
  unfolding new_object resolve
  resolve-AgreesWith remote n w = (
    refl,
    verdicts-AgreesWith times f remote (abs_path enc f.root remote) n
        (client.read_metadata (abs_path enc f.root remote) w).1,
  )
