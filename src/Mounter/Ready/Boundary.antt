-- ===== src/Mounter/Ready/Boundary.antt =====
-- The device boundary of mountServes in internal/mounter/realpoint.go.
use ocu_rclone_filestore.Base.{
  ℕ, Text, true, false, not, ◌&&◌, ◌==◌, ◌≡◌, ◌≢◌, ◌↔◌, inl, inr, refl, sym, ap, ◌∙◌, subst, arith,
  Option, none, some, List, [], ◌∷◌, ◌++◌, All, length, length-append, is_empty, text_eq_iff,
  text_eq, Bool-cases, if◌then◌else◌,
}
use ocu_rclone_filestore.Base.Paths.{slash, join_slash, clean, parts_of, up_to_slash, path_dir}
use ocu_rclone_filestore.Base.Paths.Split.{NoSlash, join_slash-append}
use ocu_rclone_filestore.Base.Paths.Clean.{
  IsName, rooted, parts_of-IsName, parts_of-rooted, parts_of_trailing, clean-rooted,
}
use ocu_rclone_filestore.Mounter.Ready.{mount_serves, crosses_boundary, devices_differ}

up_to_slash-NoSlash : (n : Text) → NoSlash n → up_to_slash n ≡ []
unfolding up_to_slash
up_to_slash-NoSlash [] h = refl
up_to_slash-NoSlash (c ∷ n) h = ground (arith, up_to_slash-NoSlash n h.1)

up_to_slash-append : (s n : Text) → NoSlash n → up_to_slash (s ++ slash ∷ n) ≡ s ++ slash ∷ []
unfolding up_to_slash
up_to_slash-append [] n h = rw (up_to_slash-NoSlash n h)
up_to_slash-append (c ∷ s) n h = rw (up_to_slash-append s n h) (kept c s)
  where
    kept :
        (c : ℕ) (s : Text)
        → (if is_empty (s ++ slash ∷ []) && not (c == slash) then [] else c ∷ (s ++ slash ∷ []))
          ≡ c ∷ (s ++ slash ∷ [])
    kept c [] = refl
    kept c (d ∷ s) = refl

-- The directory of a rooted path is the path of its parts but the last.
path_dir-rooted :
    (cs : List Text) (n : Text)
    → All IsName (cs ++ n ∷ [])
    → path_dir (rooted (cs ++ n ∷ [])) ≡ rooted cs
unfolding path_dir
path_dir-rooted [] n h = rw (up_to_slash-append [] n h.0.3)
path_dir-rooted (d ∷ ds) n h =
    rw
      (
        join_slash-append d n ds,
        up_to_slash-append (slash ∷ join_slash (d ∷ ds)) n (last ds n h.1).3,
      )
      (clean-rooted (join_slash (d ∷ ds) ++ slash ∷ [])
        ∙ ap rooted (parts_of_trailing d ds (front (d ∷ ds) n h)))
  where
    last : (ds : List Text) (n : Text) → All IsName (ds ++ n ∷ []) → IsName n
    last [] n h = h.0
    last (d ∷ ds) n h = last ds n h.1

    front : (ds : List Text) (n : Text) → All IsName (ds ++ n ∷ []) → All IsName ds
    front [] n h = tt
    front (d ∷ ds) n h = (h.0, front ds n h.1)

devices_differ_iff :
    (a b : Option ℕ)
    → (devices_differ a b ≡ true) ↔ ((d : ℕ) × (e : ℕ) × (a ≡ some d) × (b ≡ some e) × (d ≢ e))
devices_differ_iff none b = ((λ h. cc), (λ t. (let bad = t.2 in absurd (none_ne bad))))
  where
    none_ne : {d : ℕ} → none ≡ some d → ⊥
    none_ne bad = cc
devices_differ_iff (some d) none = ((λ h. cc), (λ t. (let bad = t.3 in absurd (none_ne bad))))
  where
    none_ne : {d : ℕ} → none ≡ some d → ⊥
    none_ne bad = cc
devices_differ_iff (some d) (some e) =
    ((λ h. (d, e, refl, refl, (λ same. ground arith))), (λ t. ground (arith, t.2, t.3, t.4)))

longer : (cs : List Text) (n : Text) → cs ≡ cs ++ n ∷ [] → ⊥
longer cs n e = omega (arith, ap length e, length-append cs (n ∷ []))

front_IsName : (ds : List Text) (n : Text) → All IsName (ds ++ n ∷ []) → All IsName ds
front_IsName [] n h = tt
front_IsName (d ∷ ds) n h = (h.0, front_IsName ds n h.1)

differ :
    (cs : List Text) (n : Text)
    → All IsName (cs ++ n ∷ [])
    → text_eq (rooted cs) (rooted (cs ++ n ∷ [])) ≡ false
differ cs n names = elim (Bool-cases (text_eq (rooted cs) (rooted (cs ++ n ∷ [])))) [
  | inr e ↦ e
  | inl e ↦
      let same = (text_eq_iff (rooted cs) (rooted (cs ++ n ∷ []))).0 e in
      absurd (
        longer cs n (
          sym (parts_of-rooted cs (front_IsName cs n names))
          ∙ ap parts_of same
          ∙ parts_of-rooted (cs ++ n ∷ []) names))
]

crosses_apart :
    (stat : Text → Option ℕ) (c parent : Text)
    → text_eq parent c ≡ false
    → crosses_boundary stat c parent ≡ devices_differ (stat c) (stat parent)
unfolding crosses_boundary
crosses_apart stat c parent h = ground arith

-- For a rooted destination that is not the root, canonical or not: the probe reports a mount exactly
-- when the cleaned destination and its parent directory both have a device, and these differ.
pub mount_serves_iff :
    (stat : Text → Option ℕ) (q : Text) (cs : List Text) (n : Text)
    → parts_of (slash ∷ q) ≡ cs ++ n ∷ []
    → (mount_serves stat (slash ∷ q) ≡ true) ↔ (
        (d : ℕ) × (e : ℕ) × (stat (rooted (cs ++ n ∷ [])) ≡ some d)
        × (stat (rooted cs) ≡ some e)
        × (d ≢ e))
unfolding mount_serves
mount_serves_iff stat q cs n parts =
    let names : All IsName (cs ++ n ∷ []) =
      subst (All IsName) parts (parts_of-IsName (slash ∷ q)) in
    let cleaned : clean (slash ∷ q) ≡ rooted (cs ++ n ∷ []) = clean-rooted q ∙ ap rooted parts in
    let same : mount_serves stat (slash ∷ q)
        ≡ devices_differ (stat (rooted (cs ++ n ∷ []))) (stat (rooted cs)) =
      ap (λ c. crosses_boundary stat c (path_dir c)) cleaned
      ∙ ap (crosses_boundary stat (rooted (cs ++ n ∷ []))) (path_dir-rooted cs n names)
      ∙ crosses_apart stat (rooted (cs ++ n ∷ [])) (rooted cs) (differ cs n names) in
    rw same (devices_differ_iff (stat (rooted (cs ++ n ∷ []))) (stat (rooted cs)))
