-- ===== src/Base/Paths/Split.antt =====
-- Splitting a text at its slashes and joining the parts again.
use ocu_rclone_filestore.Base.Tests.{◌==◌, Bool-cases}
use ocu_rclone_filestore.Base.Texts.{Text}
use ocu_rclone_filestore.Base.Lists.{All}
use ocu_rclone_filestore.Base.Paths.{slash, push_head, split_slash, join_slash}
use Prim.Native.Nat.{ℕ}
use mathlib.Core.Path.{◌≡◌, refl, ap, sym, ◌∙◌}
use mathlib.Core.Logic.{◌≢◌, inl, inr}
use mathlib.Core.List.{List, [], ◌∷◌, ◌++◌, append_assoc}
use native.Mathlib.Omega.{arith}

abbrev pub NoSlash : Text → Type 0
NoSlash s = All (λ c. c ≢ slash) s

push_head-NoSlash :
    (c : ℕ) (xs : List Text) → c ≢ slash → All NoSlash xs → All NoSlash (push_head c xs)
push_head-NoSlash c [] n h = ((n, tt), tt)
push_head-NoSlash c (x ∷ xs) n h = ((n, h.0), h.1)

pub split_slash-NoSlash : (s : Text) → All NoSlash (split_slash s)
unfolding split_slash
split_slash-NoSlash [] = (tt, tt)
split_slash-NoSlash (c ∷ s) = elim (Bool-cases (c == slash)) [
  | inl e ↦ rw e (tt, split_slash-NoSlash s)
  | inr n ↦ rw n (push_head-NoSlash c (split_slash s) (ground arith) (split_slash-NoSlash s))
]

-- A text with no slash is one part.
pub split_slash_of_NoSlash : (x : Text) → NoSlash x → split_slash x ≡ x ∷ []
unfolding split_slash
split_slash_of_NoSlash [] h = refl
split_slash_of_NoSlash (c ∷ x) h = ground (arith, split_slash_of_NoSlash x h.1)

-- Splitting what a part and a slash stand in front of.
pub split_slash-append : (x t : Text) → NoSlash x → split_slash (x ++ slash ∷ t) ≡ x ∷ split_slash t
unfolding split_slash
split_slash-append [] t h = refl
split_slash-append (c ∷ x) t h = ground (arith, split_slash-append x t h.1)

pub split_slash-join_slash :
    (x : Text) (xs : List Text) → All NoSlash (x ∷ xs) → split_slash (join_slash (x ∷ xs)) ≡ x ∷ xs
unfolding join_slash
split_slash-join_slash x [] h = split_slash_of_NoSlash x h.0
split_slash-join_slash x (y ∷ ys) h =
    rw (split_slash-append x (join_slash (y ∷ ys)) h.0)
      (ap (◌∷◌ x) (split_slash-join_slash y ys h.1))

-- One more part behind the parts of a directory.
pub join_slash-append :
    (d n : Text) (ds : List Text)
    → join_slash ((d ∷ ds) ++ n ∷ []) ≡ join_slash (d ∷ ds) ++ slash ∷ n
unfolding join_slash
join_slash-append d n [] = refl
join_slash-append d n (e ∷ ds) =
    rw (join_slash-append e n ds) (sym (append_assoc d (slash ∷ join_slash (e ∷ ds)) (slash ∷ n)))

pub split_slash-below :
    (d t : Text) (ds : List Text)
    → All NoSlash (d ∷ ds)
    → split_slash (join_slash (d ∷ ds) ++ slash ∷ t) ≡ (d ∷ ds) ++ split_slash t
unfolding join_slash
split_slash-below d t [] h = split_slash-append d t h.0
split_slash-below d t (e ∷ ds) h = rw (append_assoc d (slash ∷ join_slash (e ∷ ds)) (slash ∷ t)) (
    split_slash-append d (join_slash (e ∷ ds) ++ slash ∷ t) h.0
    ∙ ap (◌∷◌ d) (split_slash-below e t ds h.1))
