-- ===== src/Ocufs/Children/Prefixes.antt =====
-- Prefixes of texts, and the texts that cleaned parts are joined to.
use ocu_rclone_filestore.Base.{
  Text, true, false, ◌≡◌, refl, arith, [], ◌∷◌, ◌++◌, has_prefix, trim_prefix, any_of,
}
use ocu_rclone_filestore.Base.Paths.Split.{NoSlash}
use ocu_rclone_filestore.Ocufs.Paths.{has_slash}

pub has_prefix-append : (p s : Text) → has_prefix p (p ++ s) ≡ true
unfolding has_prefix
has_prefix-append [] s = refl
has_prefix-append (c ∷ p) s = ground (arith, has_prefix-append p s)

pub trim_prefix-append : (p s : Text) → trim_prefix p (p ++ s) ≡ s
unfolding trim_prefix has_prefix
trim_prefix-append [] s = refl
trim_prefix-append (c ∷ p) s = ground (arith, has_prefix-append p s, trim_prefix-append p s)

pub has_prefix-split : (p s : Text) → has_prefix p s ≡ true → (t : Text) × (s ≡ p ++ t)
unfolding has_prefix
has_prefix-split [] s h = (s, refl)
has_prefix-split (c ∷ p) [] h = cc
has_prefix-split (c ∷ p) (d ∷ s) h =
    let (t, e) = has_prefix-split p s (ground arith) in (t, ground arith)

pub has_slash-NoSlash : (s : Text) → has_slash s ≡ false → NoSlash s
unfolding any_of
has_slash-NoSlash [] h = tt
has_slash-NoSlash (c ∷ s) h = (ground arith, has_slash-NoSlash s (ground arith))

pub NoSlash-has_slash : (s : Text) → NoSlash s → has_slash s ≡ false
unfolding any_of
NoSlash-has_slash [] h = refl
NoSlash-has_slash (c ∷ s) h = ground (arith, NoSlash-has_slash s h.1)
