-- ===== src/Ocufs/Shared/Steady.antt =====
-- Concurrent getters and Opens of an unresolved Object of backend/ocufs/object.go, while the broker
-- keeps to one answer.
use ocu_rclone_filestore.Base.{
  true, false, [], ◌≢◌, ◌≡◌, ◌⊎◌, inl, inr, refl, sym, ◌∙◌, subst, Option, none, some, GoError,
  Result, List, All, All-map, is_empty,
}
use ocu_rclone_filestore.Base.Int.{pos}
use ocu_rclone_filestore.Brokerrpc.Messages.{ReadMetadataResponse}
use ocu_rclone_filestore.Ocufs.Interface.{BrokerClient, TimeParser}
use ocu_rclone_filestore.Ocufs.Fs.{Object}
use ocu_rclone_filestore.Ocufs.Object.{resolve}
use ocu_rclone_filestore.Ocufs.Lazy.{object_and_error}
use ocu_rclone_filestore.Ocufs.Shared.{
  Call, to_mod_time, to_size, to_mime_type, to_open, needs, Stage, called, checking, fetching,
  fetched, reading, answered, failed, uploading, clearing, updated, Turn, here, other, Reach, begin,
  later,
}
use ocu_rclone_filestore.Ocufs.Shared.Settled.{
  resolved, fault, IsSettled, Knows, Knows-resolved, KeepsTo, Move-settled,
}

-- A getter or an Open that has not begun.
abbrev pub IsCalled : Stage → Type 0
IsCalled (called c) = Unit
IsCalled _ = ⊥

module _ {W : Type 0} (client : BrokerClient W) (times : TimeParser) (o0 : Object)
    (r : Result ReadMetadataResponse) where
  frame :
      (o o' : Object) (st : Stage)
      → (o' ≡ o) ⊎ (o' ≡ resolved client times o0 r)
      → Knows client times o0 r o st
      → Knows client times o0 r o' st
  frame o o' st (inl e) k = subst (λ x. Knows client times o0 r x st) (sym e) k
  frame o o' st (inr e) k = Knows-resolved client times o0 r o o' st e k

  Turn-settled :
      {w : W} {o : Object} {w' : W} {o' : Object} {sts sts' : List Stage}
      → Turn client times w o sts w' o' sts'
      → All (Knows client times o0 r o) sts
      → KeepsTo client times o0 r
      → is_empty o0.uuid ≡ true
      → (o ≡ o0) ⊎ (o ≡ resolved client times o0 r)
      → ((o' ≡ o) ⊎ (o' ≡ resolved client times o0 r)) × All (Knows client times o0 r o') sts'
  Turn-settled {o} {o'} (here {rest} mv) (k, ks) keeps bare at =
      let (moved, k') = Move-settled client times o0 r mv k keeps bare at in
      (moved, (k', All-map (λ st h. frame o o' st moved h) rest ks))
  Turn-settled {o} {o'} (other {st} t) (k, ks) keeps bare at =
      let (moved, ks') = Turn-settled t ks keeps bare at in (moved, (frame o o' st moved k, ks'))

  start-Knows : (st : Stage) → IsCalled st → Knows client times o0 r o0 st
  start-Knows (called c) h = tt
  start-Knows (uploading content n) h = absurd h
  start-Knows (checking c) h = absurd h
  start-Knows (fetching c) h = absurd h
  start-Knows (fetched c resp) h = absurd h
  start-Knows (reading c) h = absurd h
  start-Knows (answered c o) h = absurd h
  start-Knows (failed e) h = absurd h
  start-Knows (clearing n) h = absurd h
  start-Knows (updated e) h = absurd h

  Reach-settled :
      {start : List Stage} {w0 w : W} {o : Object} {sts : List Stage}
      → All IsCalled start
      → KeepsTo client times o0 r
      → is_empty o0.uuid ≡ true
      → Reach client times w0 o0 start w o sts
      → ((o ≡ o0) ⊎ (o ≡ resolved client times o0 r)) × All (Knows client times o0 r o) sts
  Reach-settled {start} h keeps bare begin = (inl refl, All-map start-Knows start h)
  Reach-settled h keeps bare (later reached t) =
      let (at, ks) = Reach-settled h keeps bare reached in
      let (moved, ks') = Turn-settled t ks keeps bare at in
      (
        elim moved [
          | inl e ↦ elim at [ inl f ↦ inl (e ∙ f) | inr f ↦ inr (e ∙ f) ]
          | inr e ↦ inr e
        ],
        ks',
      )

-- A lone resolve of the object, and what each call has got beside it: a getter or an Open, the
-- fields after it, and an Open only when it has no error; or Size or MimeType, of an object that has a
-- size or a type, the fields before or after it. An Open fails with its error.
abbrev pub AgreesWith : Object → Object × Option GoError → Stage → Type 0
AgreesWith o0 lone (answered to_open o) = (o ≡ lone.0) × (lone.1 ≡ none)
AgreesWith o0 lone (answered to_mod_time o) = o ≡ lone.0
AgreesWith o0 lone (answered to_size o) = (o ≡ lone.0) ⊎ ((o0.size ≢ pos 0) × (o ≡ o0))
AgreesWith o0 lone (answered to_mime_type o) = (o ≡ lone.0) ⊎ ((o0.mime ≢ []) × (o ≡ o0))
AgreesWith o0 lone (failed e) = lone.1 ≡ some e
AgreesWith o0 lone st = Unit

sized : (o : Object) → is_empty o.uuid ≡ true → needs to_size o ≡ false → o.size ≢ pos 0
sized o bare quiet e = absurd (differ (rw (bare, e) at quiet))
  where
    differ : true ≡ false → ⊥
    differ bad = cc

typed : (o : Object) → is_empty o.uuid ≡ true → needs to_mime_type o ≡ false → o.mime ≢ []
typed o bare quiet e = absurd (differ (rw (bare, e) at quiet))
  where
    differ : true ≡ false → ⊥
    differ bad = cc

module _ {W : Type 0} (client : BrokerClient W) (times : TimeParser) (o0 : Object)
    (r : Result ReadMetadataResponse) where
  lone_resolve :
      (w : W)
      → KeepsTo client times o0 r
      → is_empty o0.uuid ≡ true
      → object_and_error (resolve client times o0 w)
        ≡ (resolved client times o0 r, fault client times o0 r)
  unfolding resolve
  lone_resolve w keeps bare = rw (bare, keeps w) refl

  getter-AgreesWith :
      (c : Call) (o snapshot : Object)
      → IsSettled client times o0 r c snapshot
      → (snapshot ≡ resolved client times o0 r) ⊎ ((needs c o0 ≡ false) × (snapshot ≡ o0))
  getter-AgreesWith c o snapshot (inl (e, calm)) = inl e
  getter-AgreesWith c o snapshot (inr (quiet, inl e)) = inr (quiet, e)
  getter-AgreesWith c o snapshot (inr (quiet, inr e)) = inl e

  known-AgreesWith :
      (o : Object) (st : Stage)
      → is_empty o0.uuid ≡ true
      → Knows client times o0 r o st
      → AgreesWith o0 (resolved client times o0 r, fault client times o0 r) st
  known-AgreesWith o (called c) bare k = tt
  known-AgreesWith o (checking c) bare k = tt
  known-AgreesWith o (fetching c) bare k = tt
  known-AgreesWith o (fetched c resp) bare k = tt
  known-AgreesWith o (reading c) bare k = tt
  known-AgreesWith o (answered to_open snapshot) bare (inl settled) = settled
  known-AgreesWith o (answered to_open snapshot) bare (inr (quiet, e)) = cc
  known-AgreesWith o (answered to_mod_time snapshot) bare k =
      elim (getter-AgreesWith to_mod_time o snapshot k) [ inl e ↦ e | inr (quiet, e) ↦ cc ]
  known-AgreesWith o (answered to_size snapshot) bare k =
      elim (getter-AgreesWith to_size o snapshot k) [
        | inl e ↦ inl e
        | inr (quiet, e) ↦ inr (sized o0 bare quiet, e)
      ]
  known-AgreesWith o (answered to_mime_type snapshot) bare k =
      elim (getter-AgreesWith to_mime_type o snapshot k) [
        | inl e ↦ inl e
        | inr (quiet, e) ↦ inr (typed o0 bare quiet, e)
      ]
  known-AgreesWith o (failed e) bare k = k
  known-AgreesWith o (uploading content n) bare k = tt
  known-AgreesWith o (clearing n) bare k = tt
  known-AgreesWith o (updated e) bare k = tt

  -- While the broker keeps to one answer for the path, and nothing updates the object, getters and
  -- Opens of an object with no uuid are as good as a lone resolve of it, in any interleaving: the
  -- object is as it was or as that resolve leaves it; ModTime has read the fields after it, and so have
  -- Size and MimeType, but that of an object with a size or a type they may have read those before it;
  -- an Open goes on just with the fields after it and only when it has no error, and an Open that fails
  -- does so with its error.
  pub calls-AgreeWithResolve :
      (w0 w lone_world : W) (o : Object) (start sts : List Stage)
      → All IsCalled start
      → KeepsTo client times o0 r
      → is_empty o0.uuid ≡ true
      → Reach client times w0 o0 start w o sts
      → ((o ≡ o0) ⊎ (o ≡ (object_and_error (resolve client times o0 lone_world)).0))
        × All (AgreesWith o0 (object_and_error (resolve client times o0 lone_world))) sts
  calls-AgreeWithResolve w0 w lone_world o start sts h keeps bare reached =
      let (at, ks) = Reach-settled client times o0 r h keeps bare reached in
      subst
        (λ (lone : Object × Option GoError).
          ((o ≡ o0) ⊎ (o ≡ lone.0)) × All (AgreesWith o0 lone) sts)
        (sym (lone_resolve lone_world keeps bare))
        (at, All-map (λ st. known-AgreesWith o st bare) sts ks)
