-- ===== src/Base/Paths/Clean.antt =====
-- Lemmas on path.Clean over rooted paths, by the parts of a path.
use Prim.Native.Nat.{ℕ}
use ocu_rclone_filestore.Base.Texts.{Text, is_empty, text_eq_iff}
use ocu_rclone_filestore.Base.Lists.{All, All-append}
use ocu_rclone_filestore.Base.Paths.{
  slash, dot, dot_dot, split_slash, join_slash, clean_part, clean_from, parts_of, clean, or_dot,
}
use ocu_rclone_filestore.Base.Paths.Split.{
  NoSlash, split_slash-NoSlash, split_slash-join_slash, split_slash-below, split_slash_of_NoSlash,
}
use ocu_rclone_filestore.Base.Tests.{◌==◌}
use mathlib.Core.Path.{◌≡◌, refl, ap, sym, ◌∙◌}
use mathlib.Core.Logic.{◌≢◌}
use mathlib.Core.Bool.{Bool, true, false}
use mathlib.Core.List.{List, [], ◌∷◌, ◌++◌, reverse, reverse-cons, append_assoc, append-nil}
use native.Mathlib.Omega.{arith}

-- A part that names an entry of a directory.
abbrev pub IsName : Text → Type 0
IsName x = (x ≢ []) × (x ≢ dot) × (x ≢ dot_dot) × NoSlash x

-- The text of a rooted path with these parts.
abbrev pub rooted : List Text → Text
rooted cs = slash ∷ join_slash cs

All-reverse {ℓ κ} : {A : Type ℓ} (P : A → Type κ) (xs : List A) → All P xs → All P (reverse xs)
All-reverse P [] h = h
All-reverse P (x ∷ xs) h =
    rw (reverse-cons x xs) (All-append P (reverse xs) (x ∷ []) (All-reverse P xs h.1) (h.0, tt))

is_empty-ne : (x : Text) → is_empty x ≡ false → x ≢ []
is_empty-ne [] h = λ e. cc
is_empty-ne (c ∷ x) h = λ e. cc

clean_part-IsName :
    (stack : List Text) (part : Text)
    → All IsName stack
    → NoSlash part
    → All IsName (clean_part true stack part)
unfolding clean_part
clean_part-IsName [] [] h n = h
clean_part-IsName (x ∷ stack) [] h n = h
clean_part-IsName [] (c ∷ part) h n =
    ground (arith, text_eq_iff (c ∷ part) dot, text_eq_iff (c ∷ part) dot_dot)
clean_part-IsName (x ∷ stack) (c ∷ part) h n =
    ground (arith, text_eq_iff (c ∷ part) dot, text_eq_iff (c ∷ part) dot_dot)

clean_from-IsName :
    (stack parts : List Text)
    → All IsName stack
    → All NoSlash parts
    → All IsName (clean_from true stack parts)
unfolding clean_from
clean_from-IsName stack [] h n = All-reverse IsName stack h
clean_from-IsName stack (part ∷ parts) h n =
    clean_from-IsName (clean_part true stack part) parts (clean_part-IsName stack part h n.0) n.1

-- Whatever the path, its cleaned parts are proper names: none is empty, "." or "..", and none
-- holds a slash.
pub parts_of-IsName : (p : Text) → All IsName (parts_of p)
unfolding parts_of
parts_of-IsName p = clean_from-IsName [] (split_slash p) tt (split_slash-NoSlash p)

clean_part_of_IsName :
    (b : Bool) (stack : List Text) (part : Text)
    → IsName part
    → clean_part b stack part ≡ part ∷ stack
unfolding clean_part
clean_part_of_IsName b stack [] h = absurd (h.0 refl)
clean_part_of_IsName b stack (c ∷ part) h =
    ground (arith, text_eq_iff (c ∷ part) dot, text_eq_iff (c ∷ part) dot_dot)

clean_from_of_IsName :
    (b : Bool) (stack parts : List Text)
    → All IsName parts
    → clean_from b stack parts ≡ reverse stack ++ parts
unfolding clean_from
clean_from_of_IsName b stack [] h = sym (append-nil _)
clean_from_of_IsName b stack (part ∷ parts) h =
    rw (clean_part_of_IsName b stack part h.0)
      (clean_from_of_IsName b (part ∷ stack) parts h.1 ∙ simp (reverse-cons, append_assoc))

clean_part_empty : (stack : List Text) → clean_part true stack [] ≡ stack
unfolding clean_part
clean_part_empty stack = refl

-- A trailing slash changes nothing.
clean_from_trailing :
    (stack parts : List Text)
    → All IsName parts
    → clean_from true stack (parts ++ [] ∷ []) ≡ reverse stack ++ parts
unfolding clean_from
clean_from_trailing stack [] h = ap reverse (clean_part_empty stack) ∙ sym (append-nil _)
clean_from_trailing stack (part ∷ parts) h =
    ap (λ kept. clean_from true kept (parts ++ [] ∷ [])) (clean_part_of_IsName true stack part h.0)
    ∙ clean_from_trailing (part ∷ stack) parts h.1
    ∙ simp (reverse-cons, append_assoc)

pub All-NoSlash : (cs : List Text) → All IsName cs → All NoSlash cs
All-NoSlash [] h = tt
All-NoSlash (c ∷ cs) h = (h.0.3, All-NoSlash cs h.1)

split_slash-rooted : (p : Text) → split_slash (slash ∷ p) ≡ [] ∷ split_slash p
unfolding split_slash
split_slash-rooted p = refl

-- An empty part in front changes nothing.
clean_from-nil : (parts : List Text) → clean_from true [] ([] ∷ parts) ≡ clean_from true [] parts
unfolding clean_from clean_part
clean_from-nil parts = refl

-- The parts are read back from the text that they are joined to.
pub parts_of-rooted : (cs : List Text) → All IsName cs → parts_of (rooted cs) ≡ cs
unfolding parts_of join_slash clean_from clean_part split_slash
parts_of-rooted [] h = refl
parts_of-rooted (c ∷ cs) h =
    rw
      (
        split_slash-rooted (join_slash (c ∷ cs)),
        split_slash-join_slash c cs (All-NoSlash (c ∷ cs) h),
      )
      (clean_from_of_IsName true [] (c ∷ cs) h)

pub parts_of_trailing :
    (c : Text) (cs : List Text)
    → All IsName (c ∷ cs)
    → parts_of (slash ∷ (join_slash (c ∷ cs) ++ slash ∷ [])) ≡ c ∷ cs
unfolding parts_of
parts_of_trailing c cs h =
    rw
      (
        split_slash-rooted (join_slash (c ∷ cs) ++ slash ∷ []),
        split_slash-below c [] cs (All-NoSlash (c ∷ cs) h),
        split_slash_of_NoSlash [] tt,
      )
      (clean_from-nil ((c ∷ cs) ++ [] ∷ []) ∙ clean_from_trailing [] (c ∷ cs) h)

pub clean-rooted : (p : Text) → clean (slash ∷ p) ≡ rooted (parts_of (slash ∷ p))
unfolding clean
clean-rooted p = refl

-- Cleaning a cleaned rooted path changes nothing.
pub clean-clean : (p : Text) → clean (clean (slash ∷ p)) ≡ clean (slash ∷ p)
clean-clean p = rw (clean-rooted p) (
    clean-rooted (join_slash (parts_of (slash ∷ p)))
    ∙ ap rooted (parts_of-rooted (parts_of (slash ∷ p)) (parts_of-IsName (slash ∷ p))))

-- A second slash in front changes nothing.
pub parts_of-slash-rooted : (cs : List Text) → All IsName cs → parts_of (slash ∷ rooted cs) ≡ cs
unfolding parts_of
parts_of-slash-rooted cs h =
    rw (split_slash-rooted (rooted cs))
      (clean_from-nil (split_slash (rooted cs)) ∙ parts_of-rooted cs h)

clean-relative :
    (c : ℕ) (t : Text) (cs : List Text)
    → c ≢ slash
    → split_slash (c ∷ t) ≡ cs
    → All IsName cs
    → join_slash cs ≡ c ∷ t
    → clean (c ∷ t) ≡ c ∷ t
unfolding clean split_slash
clean-relative c t cs apart split names joined =
    let off : (c == slash) ≡ false = ground arith in
    let parts = rw off at split in
    rw off (
      ap (λ q. or_dot (join_slash (clean_from false [] q))) parts
      ∙ ap (λ q. or_dot (join_slash q)) (clean_from_of_IsName false [] cs names)
      ∙ ap or_dot joined)

-- Cleaning names that are joined changes nothing.
pub clean_names :
    (c : Text) (cs : List Text)
    → All IsName (c ∷ cs)
    → clean (join_slash (c ∷ cs)) ≡ join_slash (c ∷ cs)
unfolding join_slash
clean_names [] cs h = absurd (h.0.0 refl)
clean_names (x ∷ c) [] h =
    clean-relative x c ((x ∷ c) ∷ []) h.0.3.0 (split_slash_of_NoSlash (x ∷ c) h.0.3) h refl
clean_names (x ∷ c) (d ∷ cs) h =
    clean-relative x (c ++ slash ∷ join_slash (d ∷ cs)) ((x ∷ c) ∷ d ∷ cs) h.0.3.0
      (split_slash-join_slash (x ∷ c) (d ∷ cs) (All-NoSlash ((x ∷ c) ∷ d ∷ cs) h)) h refl
