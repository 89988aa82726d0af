-- ===== src/Ocufs/Shared/Settled.antt =====
-- One step of a getter or an Open of an unresolved Object of backend/ocufs/object.go, while the broker
-- keeps to one answer.
use ocu_rclone_filestore.Base.{
  true, false, ◌≡◌, ◌⊎◌, inl, inr, refl, sym, ap, ◌∙◌, subst, Option, none, some, GoError, Result,
  ok, err, is, Sentinel, Bool-cases, is_empty,
}
use ocu_rclone_filestore.Brokerrpc.Messages.{ReadMetadataResponse}
use ocu_rclone_filestore.Ocufs.Interface.{BrokerClient, TimeParser, parse_mtime}
use ocu_rclone_filestore.Ocufs.Meta.{file_arm, classify_read_metadata}
use ocu_rclone_filestore.Ocufs.Fs.{Object}
use ocu_rclone_filestore.Ocufs.Object.{resolve_verdict}
use ocu_rclone_filestore.Ocufs.Lazy.{MetaArm-cases}
use ocu_rclone_filestore.Ocufs.Shared.{
  Call, to_mod_time, to_size, to_mime_type, to_open, needs, Stage, called, checking, fetching,
  fetched, reading, answered, failed, uploading, clearing, updated, after_resolve, Move, known,
  unknown, already, missing, fetch, settle, read, upload, refused, clear,
}
use ocu_rclone_filestore.Ocufs.Shared.Untorn.{verdict-SameFile}

module _ (times : TimeParser) (o : Object) where
  -- An answer that is an error leaves the object as it was.
  verdict_error :
      (r : Result ReadMetadataResponse)
      → ((resolve_verdict times o r).1 ≡ none) ⊎ ((resolve_verdict times o r).0 ≡ o)
  unfolding resolve_verdict
  verdict_error (err e) = elim (Bool-cases (is e Sentinel.not_found)) [
    | inl h ↦ inr (rw h refl)
    | inr h ↦ inr (rw h refl)
  ]
  verdict_error (ok resp) = elim (MetaArm-cases (classify_read_metadata resp)) [
    | inl h ↦ inr (rw (h, resolve_verdict) refl)
    | inr (inl h) ↦ inl (rw (h, resolve_verdict) refl)
    | inr (inr h) ↦ inr (rw (h, resolve_verdict) refl)
  ]

  -- The object with the fields of a file.
  abbrev filled : Object → ReadMetadataResponse → Object
  filled x resp = record x {
    uuid = resp.file.uuid;
    size = resp.file.size;
    mtime = parse_mtime times resp.file.mtime;
    mode = resp.file.mode;
    sha = resp.file.sha;
    mime = resp.file.mime;
  }

  verdict_file :
      (x : Object) (resp : ReadMetadataResponse)
      → classify_read_metadata resp ≡ file_arm
      → resolve_verdict times x (ok resp) ≡ (filled x resp, none)
  unfolding resolve_verdict
  verdict_file x resp h = rw (h, resolve_verdict) refl

  again_of_same :
      (r : Result ReadMetadataResponse)
      → (resolve_verdict times o r).0 ≡ o
      → resolve_verdict times (resolve_verdict times o r).0 r ≡ resolve_verdict times o r
  again_of_same r same = ap (λ x. resolve_verdict times x r) same

  -- The same answer again changes nothing.
  verdict_again :
      (r : Result ReadMetadataResponse)
      → resolve_verdict times (resolve_verdict times o r).0 r ≡ resolve_verdict times o r
  unfolding resolve_verdict
  verdict_again (err e) = elim (Bool-cases (is e Sentinel.not_found)) [
    | inl h ↦ rw h refl
    | inr h ↦ rw h refl
  ]
  verdict_again (ok resp) = elim (MetaArm-cases (classify_read_metadata resp)) [
    | inl h ↦ again_of_same (ok resp) (rw (h, resolve_verdict) refl)
    | inr (inl h) ↦
        ap (λ (q : Object × Option GoError). resolve_verdict times q.0 (ok resp))
          (verdict_file o resp h)
        ∙ verdict_file (filled o resp) resp h
        ∙ sym (verdict_file o resp h)
    | inr (inr h) ↦ again_of_same (ok resp) (rw (h, resolve_verdict) refl)
  ]

absurd_test : true ≡ false → ⊥
absurd_test e = cc

module _ {W : Type 0} (client : BrokerClient W) (times : TimeParser) (o0 : Object) where
  module _ (r : Result ReadMetadataResponse) where
    abbrev pub resolved : Object
    resolved = (resolve_verdict times o0 r).0

    abbrev pub fault : Option GoError
    fault = (resolve_verdict times o0 r).1

    -- Open goes on only without a fault.
    abbrev pub IsCalm : Call → Type 0
    IsCalm to_open = fault ≡ none
    IsCalm to_mod_time = Unit
    IsCalm to_size = Unit
    IsCalm to_mime_type = Unit

    abbrev pub IsSettled : Call → Object → Type 0
    IsSettled c o =
        ((o ≡ resolved) × IsCalm c) ⊎ ((needs c o0 ≡ false) × ((o ≡ o0) ⊎ (o ≡ resolved)))

    abbrev pub Knows : Object → Stage → Type 0
    Knows o (called c) = Unit
    Knows o (checking c) = Unit
    Knows o (fetching c) = Unit
    Knows o (fetched c resp) = resp ≡ r
    Knows o (reading c) = IsSettled c o
    Knows o (answered c snapshot) = IsSettled c snapshot
    Knows o (failed e) = fault ≡ some e
    Knows o (uploading content n) = ⊥
    Knows o (clearing n) = ⊥
    Knows o (updated e) = ⊥

    pub Knows-resolved : (o o' : Object) (st : Stage) → o' ≡ resolved → Knows o st → Knows o' st
    Knows-resolved o o' (called c) e k = tt
    Knows-resolved o o' (checking c) e k = tt
    Knows-resolved o o' (fetching c) e k = tt
    Knows-resolved o o' (fetched c resp) e k = k
    Knows-resolved o o' (reading c) e (inl (_, calm)) = inl (e, calm)
    Knows-resolved o o' (reading c) e (inr (quiet, _)) = inr (quiet, inr e)
    Knows-resolved o o' (answered c snapshot) e k = k
    Knows-resolved o o' (failed d) e k = k
    Knows-resolved o o' (uploading content n) e k = k
    Knows-resolved o o' (clearing n) e k = k
    Knows-resolved o o' (updated d) e k = k

    known-IsSettled :
        (c : Call) (o : Object) → (o ≡ o0) ⊎ (o ≡ resolved) → needs c o ≡ false → IsSettled c o
    known-IsSettled c o (inl e) h = inr (rw e at h, inl e)
    known-IsSettled to_open o (inr e) h = absurd (absurd_test h)
    known-IsSettled to_mod_time o (inr e) h = inl (e, tt)
    known-IsSettled to_size o (inr e) h = inl (e, tt)
    known-IsSettled to_mime_type o (inr e) h = inl (e, tt)

    without_fault : fault ≡ none → (c : Call) → IsCalm c
    without_fault h to_open = h
    without_fault h to_mod_time = tt
    without_fault h to_size = tt
    without_fault h to_mime_type = tt

    -- Only an answer without a fault gives the object a uuid.
    already-IsSettled :
        (c : Call) (o : Object)
        → is_empty o0.uuid ≡ true
        → (o ≡ o0) ⊎ (o ≡ resolved)
        → is_empty o.uuid ≡ false
        → IsSettled c o
    already-IsSettled c o bare (inl e) h = absurd (absurd_test (sym bare ∙ (rw e at h)))
    already-IsSettled c o bare (inr e) h = elim (verdict_error times o0 r) [
      | inl calm ↦ inl (e, without_fault calm c)
      | inr same ↦
          absurd (absurd_test (sym bare ∙ subst (λ x. is_empty x.uuid ≡ false) (e ∙ same) h))
    ]

    settled-Knows :
        (o : Object) (c : Call) (e : Option GoError)
        → o ≡ resolved
        → e ≡ fault
        → Knows o (after_resolve c e)
    settled-Knows o to_open none h f = inl (h, sym f)
    settled-Knows o to_open (some d) h f = sym f
    settled-Knows o to_mod_time e h f = inl (h, tt)
    settled-Knows o to_size e h f = inl (h, tt)
    settled-Knows o to_mime_type e h f = inl (h, tt)

    path_of : (o : Object) → (o ≡ o0) ⊎ (o ≡ resolved) → o.path ≡ o0.path
    path_of o (inl e) = ap (λ (x : Object). x.path) e
    path_of o (inr e) =
        ap (λ (x : Object). x.path) e ∙ (verdict-SameFile times o0 o0 r (refl, refl, refl)).2

    verdict_settles :
        (o : Object) → (o ≡ o0) ⊎ (o ≡ resolved) → resolve_verdict times o r ≡ (resolved, fault)
    verdict_settles o (inl e) = rw e refl
    verdict_settles o (inr e) = rw e (verdict_again times o0 r)

  -- Every call of the broker gets the one answer.
  abbrev pub KeepsTo : Result ReadMetadataResponse → Type 0
  KeepsTo r = (w : W) → (client.read_metadata o0.path w).1 ≡ r

  module _ (r : Result ReadMetadataResponse) where
    pub Move-settled :
        {w : W} {o : Object} {w' : W} {o' : Object} {st st' : Stage}
        → Move client times w o st w' o' st'
        → Knows r o st
        → KeepsTo r
        → is_empty o0.uuid ≡ true
        → (o ≡ o0) ⊎ (o ≡ resolved r)
        → ((o' ≡ o) ⊎ (o' ≡ resolved r)) × Knows r o' st'
    Move-settled {o} (known {c} h) k keeps bare at = (inl refl, known-IsSettled r c o at h)
    Move-settled (unknown h) k keeps bare at = (inl refl, tt)
    Move-settled {o} (already {c} h) k keeps bare at = (inl refl, already-IsSettled r c o bare at h)
    Move-settled (missing h) k keeps bare at = (inl refl, tt)
    Move-settled {w} {o} fetch k keeps bare at = (inl refl, rw (path_of r o at) (keeps w))
    Move-settled {o} (settle {c} {resp}) k keeps bare at =
        let e = ap (resolve_verdict times o) k ∙ verdict_settles r o at in
        let same = ap (λ (q : Object × Option GoError). q.0) e in
        (inr same, settled-Knows r _ c _ same (ap (λ (q : Object × Option GoError). q.1) e))
    Move-settled {o} (read {c}) k keeps bare at = (inl refl, k)
    Move-settled (upload h) k keeps bare at = absurd k
    Move-settled (refused h) k keeps bare at = absurd k
    Move-settled clear k keeps bare at = absurd k
