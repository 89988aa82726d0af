-- ===== src/Base/Paths.antt =====
-- Slash-separated paths: `strings.Split(s, "/")`, and `Clean` and `Join` of the standard library's
-- `path` and `path/filepath`, which agree on the target platforms.
pub mod Split
pub mod Clean
use ocu_rclone_filestore.Base.Tests.{◌==◌, if◌then◌else◌}
use ocu_rclone_filestore.Base.Texts.{Text, is_empty, text_eq}
use Prim.Native.Nat.{ℕ}
use mathlib.Core.Bool.{Bool, true, false, ◌||◌, ◌&&◌, not}
use mathlib.Core.List.{List, [], ◌∷◌, ◌++◌, reverse}

abbrev pub slash : ℕ
slash = b'/'

abbrev pub dot : Text
dot = b'.' ∷ []

abbrev pub dot_dot : Text
dot_dot = b'.' ∷ b'.' ∷ []

-- The byte in front of the first part.
abbrev pub push_head : ℕ → List Text → List Text
push_head c [] = (c ∷ []) ∷ []
push_head c (x ∷ xs) = (c ∷ x) ∷ xs

-- strings.Split(s, "/")
unfoldable pub split_slash : Text → List Text
split_slash [] = [] ∷ []
split_slash (c ∷ s) = let rest = split_slash s in if c == slash then [] ∷ rest else push_head c rest

-- strings.Join(parts, "/")
unfoldable pub join_slash : List Text → Text
join_slash [] = []
join_slash (x ∷ []) = x
join_slash (x ∷ y ∷ ys) = x ++ slash ∷ join_slash (y ∷ ys)

-- What ".." does to the parts kept so far, the last one first: it drops one; it stays only in
-- front of a path that is not rooted.
abbrev pub pop_part : Bool → List Text → List Text
pop_part true [] = []
pop_part false [] = dot_dot ∷ []
pop_part true (x ∷ stack) = stack
pop_part false (x ∷ stack) = if text_eq x dot_dot then dot_dot ∷ x ∷ stack else stack

-- One part of `Clean`.
unfoldable pub clean_part : Bool → List Text → Text → List Text
clean_part rooted stack part =
    if is_empty part || text_eq part dot
    then stack
    else if text_eq part dot_dot
    then pop_part rooted stack
    else part ∷ stack

unfoldable pub clean_from : Bool → List Text → List Text → List Text
clean_from rooted stack [] = reverse stack
clean_from rooted stack (part ∷ parts) = clean_from rooted (clean_part rooted stack part) parts

-- The parts of a rooted path after cleaning.
unfoldable pub parts_of : Text → List Text
unfolding clean_from clean_part split_slash text_eq
parts_of p = clean_from true [] (split_slash p)

abbrev pub or_dot : Text → Text
or_dot [] = dot
or_dot (c ∷ s) = c ∷ s

-- path.Clean
unfoldable pub clean : Text → Text
unfolding parts_of join_slash clean_from clean_part split_slash text_eq
clean [] = dot
clean (c ∷ s) =
    if c == slash
    then slash ∷ join_slash (parts_of (c ∷ s))
    else or_dot (join_slash (clean_from false [] (split_slash (c ∷ s))))

-- path.Join of two elements: the empty ones are ignored.
unfoldable pub join_path : Text → Text → Text
unfolding clean
join_path [] [] = []
join_path [] (c ∷ t) = clean (c ∷ t)
join_path (c ∷ s) [] = clean (c ∷ s)
join_path (c ∷ s) (d ∷ t) = clean ((c ∷ s) ++ slash ∷ d ∷ t)

-- The text up to and with its last slash.
unfoldable pub up_to_slash : Text → Text
up_to_slash [] = []
up_to_slash (c ∷ s) = if is_empty (up_to_slash s) && not (c == slash) then [] else c ∷ up_to_slash s

-- filepath.Dir
unfoldable pub path_dir : Text → Text
unfolding clean up_to_slash
path_dir p = clean (up_to_slash p)
