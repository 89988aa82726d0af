-- ===== src/Ocufs/Shared/Untorn.antt =====
-- What concurrent callers of an Object of backend/ocufs/object.go find in its fields.
use ocu_rclone_filestore.Base.{
  ◌≡◌, ◌⊎◌, inl, inr, refl, sym, subst, Option, none, some, GoError, Result, ok, err, is, Sentinel,
  List, [], ◌∷◌, All, All-map, Bool-cases,
}
use ocu_rclone_filestore.Base.Int.{ℤ}
use ocu_rclone_filestore.Brokerrpc.Messages.{ReadMetadataResponse}
use ocu_rclone_filestore.Ocufs.Interface.{BrokerClient, TimeParser}
use ocu_rclone_filestore.Ocufs.Meta.{classify_read_metadata}
use ocu_rclone_filestore.Ocufs.Fs.{Object}
use ocu_rclone_filestore.Ocufs.Object.{resolve_verdict}
use ocu_rclone_filestore.Ocufs.Lazy.{MetaArm-cases}
use ocu_rclone_filestore.Ocufs.Shared.{
  Call, to_mod_time, to_size, to_mime_type, to_open, Stage, called, checking, fetching, fetched,
  reading, answered, failed, uploading, clearing, updated, after_resolve, Move, known, unknown,
  already, missing, fetch, settle, read, upload, refused, clear, Turn, here, other, Reach, begin,
  later,
}
use ocu_rclone_filestore.Ocufs.Shared.Updates.{
  HasUpdated, this_one, another, Follows, AllFollow, Turn-AllFollow, Turn-HasUpdated,
}

-- What `mu` does not guard, and nothing changes.
abbrev pub SameFile : Object → Object → Type 0
SameFile o0 o = (o.fs ≡ o0.fs) × (o.remote ≡ o0.remote) × (o.path ≡ o0.path)

module _ (times : TimeParser) where
  pub verdict_or_same :
      (o0 o : Object) (r : Result ReadMetadataResponse)
      → SameFile o0 o
      → ((resolve_verdict times o r).0 ≡ o)
        ⊎ ((resolve_verdict times o r).0 ≡ (resolve_verdict times o0 r).0)
  unfolding resolve_verdict
  verdict_or_same o0 o (err e) same = elim (Bool-cases (is e Sentinel.not_found)) [
    | inl h ↦ inl (rw h refl)
    | inr h ↦ inl (rw h refl)
  ]
  verdict_or_same o0 o (ok resp) (fs, remote, path) =
      elim (MetaArm-cases (classify_read_metadata resp)) [
        | inl h ↦ inl (rw (h, resolve_verdict) refl)
        | inr (inl h) ↦ inr (rw (h, resolve_verdict, fs, remote, path) refl)
        | inr (inr h) ↦ inl (rw (h, resolve_verdict) refl)
      ]

  pub verdict-SameFile :
      (o0 o : Object) (r : Result ReadMetadataResponse)
      → SameFile o0 o
      → SameFile o0 (resolve_verdict times o r).0
  unfolding resolve_verdict
  verdict-SameFile o0 o (err e) same = elim (Bool-cases (is e Sentinel.not_found)) [
    | inl h ↦ rw h same
    | inr h ↦ rw h same
  ]
  verdict-SameFile o0 o (ok resp) same = elim (MetaArm-cases (classify_read_metadata resp)) [
    | inl h ↦ rw (h, resolve_verdict) same
    | inr (inl h) ↦ rw (h, resolve_verdict) same
    | inr (inr h) ↦ rw (h, resolve_verdict) same
  ]

module _ {W : Type 0} (client : BrokerClient W) (times : TimeParser) (o0 : Object) where
  -- An answer of the broker to the metadata of the object's path.
  abbrev IsAnswer : Result ReadMetadataResponse → Type 0
  IsAnswer r = (w : W) × (r ≡ (client.read_metadata o0.path w).1)

  -- The object as it was at first, or with the fields of one answer of the broker.
  abbrev IsSourced : Object → Type 0
  IsSourced o =
      (o ≡ o0)
      ⊎ (r : Result ReadMetadataResponse) × IsAnswer r × (o ≡ (resolve_verdict times o0 r).0)

  -- Such an object, or one that an Update has left behind: with no uuid and the size uploaded. `Has`
  -- says of a size that an Update of it has ended well.
  abbrev pub IsWhole : (ℤ → Type 0) → Object → Type 0
  IsWhole Has o =
      (base : Object) × IsSourced base
      × ((o ≡ base) ⊎ (n : ℤ) × Has n × (o ≡ record base { uuid = []; size = n }))

  abbrev Knows : (ℤ → Type 0) → Stage → Type 0
  Knows Has (fetched c r) = IsAnswer r
  Knows Has (answered c o) = IsWhole Has o
  Knows Has _ = Unit

  abbrev pub SnapshotIsWhole : (ℤ → Type 0) → Stage → Type 0
  SnapshotIsWhole Has (answered c o) = IsWhole Has o
  SnapshotIsWhole Has _ = Unit

  abbrev IsSound : (ℤ → Type 0) → Object → Type 0
  IsSound Has o = SameFile o0 o × IsWhole Has o

  module _ (Has Has' : ℤ → Type 0) (mono : (n : ℤ) → Has n → Has' n) where
    IsWhole-mono : (o : Object) → IsWhole Has o → IsWhole Has' o
    IsWhole-mono o (base, from, inl e) = (base, from, inl e)
    IsWhole-mono o (base, from, inr (n, h, e)) = (base, from, inr (n, mono n h, e))

    Knows-mono : (st : Stage) → Knows Has st → Knows Has' st
    Knows-mono (called c) k = tt
    Knows-mono (checking c) k = tt
    Knows-mono (fetching c) k = tt
    Knows-mono (fetched c r) k = k
    Knows-mono (reading c) k = tt
    Knows-mono (answered c o) k = IsWhole-mono o k
    Knows-mono (failed e) k = tt
    Knows-mono (uploading content n) k = tt
    Knows-mono (clearing n) k = tt
    Knows-mono (updated e) k = tt

    settled-IsWhole :
        (o : Object) (r : Result ReadMetadataResponse)
        → SameFile o0 o
        → IsWhole Has o
        → IsAnswer r
        → IsWhole Has' (resolve_verdict times o r).0
    settled-IsWhole o r same whole answer = elim (verdict_or_same times o0 o r same) [
      | inl e ↦ subst (IsWhole Has') (sym e) (IsWhole-mono o whole)
      | inr e ↦ (_, inr (r, answer, refl), inl e)
    ]

    cleared-IsWhole :
        (o : Object) (n : ℤ)
        → Has' n
        → IsWhole Has o
        → IsWhole Has' (record o { uuid = []; size = n })
    cleared-IsWhole o n h (base, from, inl e) = (base, from, inr (n, h, rw e refl))
    cleared-IsWhole o n h (base, from, inr (m, _, e)) = (base, from, inr (n, h, rw e refl))

    after_resolve-Knows : (c : Call) (e : Option GoError) → Knows Has' (after_resolve c e)
    after_resolve-Knows to_open (some e) = tt
    after_resolve-Knows to_open none = tt
    after_resolve-Knows to_mod_time e = tt
    after_resolve-Knows to_size e = tt
    after_resolve-Knows to_mime_type e = tt

    -- A step keeps the object sound, if the section of an Update is what it says.
    Move-IsSound :
        {w : W} {o : Object} {w' : W} {o' : Object} {st st' : Stage}
        → Move client times w o st w' o' st'
        → ((n : ℤ) → st ≡ clearing n → st' ≡ updated none → Has' n)
        → Knows Has st
        → IsSound Has o
        → IsSound Has' o' × Knows Has' st'
    Move-IsSound {o} (known h) new k (same, whole) = ((same, IsWhole-mono o whole), tt)
    Move-IsSound {o} (unknown h) new k (same, whole) = ((same, IsWhole-mono o whole), tt)
    Move-IsSound {o} (already h) new k (same, whole) = ((same, IsWhole-mono o whole), tt)
    Move-IsSound {o} (missing h) new k (same, whole) = ((same, IsWhole-mono o whole), tt)
    Move-IsSound {w} {o} fetch new k ((fs, remote, path), whole) =
        (((fs, remote, path), IsWhole-mono o whole), (w, rw path refl))
    Move-IsSound {o} (settle {c} {resp}) new k (same, whole) = (
      (verdict-SameFile times o0 o resp same, settled-IsWhole o resp same whole k),
      after_resolve-Knows c _,
    )
    Move-IsSound {o} read new k (same, whole) = ((same, IsWhole-mono o whole), IsWhole-mono o whole)
    Move-IsSound {o} (upload h) new k (same, whole) = ((same, IsWhole-mono o whole), tt)
    Move-IsSound {o} (refused h) new k (same, whole) = ((same, IsWhole-mono o whole), tt)
    Move-IsSound {o} (clear {n}) new k (same, whole) =
        ((same, cleared-IsWhole o n (new n refl refl) whole), tt)

    -- The step of one of the calls, where `embed` says what it makes of its Updates.
    Turn-IsSound :
        {w : W} {o : Object} {w' : W} {o' : Object} {sts sts' : List Stage} (start : List Stage)
        → Turn client times w o sts w' o' sts'
        → ((n : ℤ) → HasUpdated n start sts' → Has' n)
        → AllFollow start sts
        → All (Knows Has) sts
        → IsSound Has o
        → IsSound Has' o' × All (Knows Has') sts'
    Turn-IsSound [] (here mv) embed f ks sound = absurd f
    Turn-IsSound [] (other t) embed f ks sound = absurd f
    Turn-IsSound (begun ∷ start) (here {st} {st'} {rest} mv) embed (f, fs) (k, ks) sound =
        let (s, k') =
          Move-IsSound mv
            (λ n at ended.
              let (content, e) = subst (Follows begun) at f in
              embed n (
                subst (λ x. HasUpdated n (begun ∷ start) (x ∷ rest)) (sym ended)
                  (subst (λ x. HasUpdated n (x ∷ start) (updated none ∷ rest)) (sym e) this_one)))
            k sound in
        (s, (k', All-map Knows-mono rest ks))
    Turn-IsSound (begun ∷ start) (other {st} t) embed (f, fs) (k, ks) sound =
        let (s, ks') = Turn-IsSound start t (λ n h. embed n (another h)) fs ks sound in
        (s, (Knows-mono st k, ks'))

  -- The calls have not begun.
  abbrev pub IsStart : Stage → Type 0
  IsStart (called c) = Unit
  IsStart (uploading content n) = Unit
  IsStart _ = ⊥

  start-Knows : (Has : ℤ → Type 0) (st : Stage) → IsStart st → Knows Has st × Follows st st
  start-Knows Has (called c) h = (tt, tt)
  start-Knows Has (uploading content n) h = (tt, refl)
  start-Knows Has (checking c) h = absurd h
  start-Knows Has (fetching c) h = absurd h
  start-Knows Has (fetched c r) h = absurd h
  start-Knows Has (reading c) h = absurd h
  start-Knows Has (answered c o) h = absurd h
  start-Knows Has (failed e) h = absurd h
  start-Knows Has (clearing n) h = absurd h
  start-Knows Has (updated e) h = absurd h

  start-AllFollow : (sts : List Stage) → All IsStart sts → AllFollow sts sts
  start-AllFollow [] h = tt
  start-AllFollow (st ∷ sts) (h, hs) = ((start-Knows (λ n. Unit) st h).1, start-AllFollow sts hs)

  Reach-IsSound :
      {start : List Stage} {w0 w : W} {o : Object} {sts : List Stage}
      → All IsStart start
      → Reach client times w0 o0 start w o sts
      → AllFollow start sts
        × IsSound (λ n. HasUpdated n start sts) o
        × All (Knows (λ n. HasUpdated n start sts)) sts
  Reach-IsSound {start} h begin = (
    start-AllFollow start h,
    ((refl, refl, refl), (o0, inl refl, inl refl)),
    All-map (λ st k. (start-Knows (λ n. HasUpdated n start start) st k).0) start h,
  )
  Reach-IsSound {start} h (later {sts} {sts'} r t) =
      let (fs, sound, ks) = Reach-IsSound h r in
      let (sound', ks') =
        Turn-IsSound (λ n. HasUpdated n start sts) (λ n. HasUpdated n start sts')
          (λ n. Turn-HasUpdated client times n t) start t (λ n u. u) fs ks sound in
      (Turn-AllFollow client times start t fs, sound', ks')

  known-SnapshotIsWhole : (Has : ℤ → Type 0) (st : Stage) → Knows Has st → SnapshotIsWhole Has st
  known-SnapshotIsWhole Has (called c) h = tt
  known-SnapshotIsWhole Has (uploading content n) h = tt
  known-SnapshotIsWhole Has (checking c) h = tt
  known-SnapshotIsWhole Has (fetching c) h = tt
  known-SnapshotIsWhole Has (fetched c r) h = tt
  known-SnapshotIsWhole Has (reading c) h = tt
  known-SnapshotIsWhole Has (answered c o) h = h
  known-SnapshotIsWhole Has (failed e) h = tt
  known-SnapshotIsWhole Has (clearing n) h = tt
  known-SnapshotIsWhole Has (updated e) h = tt

  -- However getters, Opens and Updates of one object interleave, and whatever the broker answers, the
  -- object stays at its path, its fields are those that it had at first or all of one answer of the
  -- broker, but that the uuid may be empty and the size that of an Update which has ended with no
  -- error, and the same is so of the fields that each getter and Open has read.
  pub calls-AreUntorn :
      (w0 w : W) (o : Object) (start sts : List Stage)
      → All IsStart start
      → Reach client times w0 o0 start w o sts
      → SameFile o0 o
        × IsWhole (λ n. HasUpdated n start sts) o
        × All (SnapshotIsWhole (λ n. HasUpdated n start sts)) sts
  calls-AreUntorn w0 w o start sts h r =
      let (fs, (same, whole), ks) = Reach-IsSound h r in
      (same, whole, All-map (known-SnapshotIsWhole (λ n. HasUpdated n start sts)) sts ks)
