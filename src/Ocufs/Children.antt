-- ===== src/Ocufs/Children.antt =====
-- immediateChildRemote of backend/ocufs/ocufs.go, over the parts of paths.
mod Prefixes
mod Segments
use ocu_rclone_filestore.Base.{
  ℕ, zero, suc, ◌+◌, Text, Bool, true, false, not, ◌&&◌, ◌||◌, Option, none, some, ◌≡◌, ◌≢◌, ◌⊎◌,
  inl, inr, ◌↔◌, refl, sym, ap, ◌∙◌, subst, arith, List, [], ◌∷◌, ◌++◌, append_assoc, append-nil,
  text_eq, text_eq_iff, has_prefix, trim_prefix, any_of, ◌==◌, Bool-cases, if◌then◌else◌, All,
  All-append, length, length-append,
}
use ocu_rclone_filestore.Base.Paths.{slash, join_slash, split_slash, clean, parts_of, dot, dot_dot}
use ocu_rclone_filestore.Base.Paths.Split.{
  NoSlash, split_slash-append, split_slash_of_NoSlash, split_slash-join_slash,
}
use ocu_rclone_filestore.Base.Paths.Clean.{
  IsName, rooted, parts_of-IsName, parts_of-rooted, clean-rooted, All-NoSlash,
}
use ocu_rclone_filestore.Ocufs.Paths.{
  clean_path, has_slash, child_segment, cleaned_child, immediate_child_remote, child_remote,
  entry_path,
}
use ocu_rclone_filestore.Ocufs.Interface.{Encoder}
use ocu_rclone_filestore.Brokerrpc.Messages.{ListDirEntry}
use Segments.{child_segment_iff, last_IsName}

-- The parts of a broker path.
abbrev pub path_parts : Text → List Text
path_parts p = parts_of (slash ∷ p)

-- For any two broker paths, canonical or not: the filter of List keeps the second under the first,
-- with a segment, exactly when its parts are those of the first and that segment behind them.
cleaned_child_iff :
    (parent p n : Text)
    → (cleaned_child (clean_path parent) (some p) ≡ some n)
      ↔ (path_parts p ≡ path_parts parent ++ n ∷ [])
unfolding clean_path
cleaned_child_iff parent p n =
    let both =
      child_segment_iff (path_parts p) (path_parts parent) n (parts_of-IsName (slash ∷ p))
        (parts_of-IsName (slash ∷ parent)) in
    rw (clean-rooted parent, clean-rooted p)
      (
        (λ h. (both.0 h).0),
        (λ e. both.1 (
          e,
          last_IsName (path_parts parent) n (subst (All IsName) e (parts_of-IsName (slash ∷ p))),
        )),
      )

split_Option :
    (enc : Encoder) (dir r : Text) (o : Option Text) (P : Text → Type 0)
    → ((n : Text) → (o ≡ some n) ↔ P n)
    → (child_remote enc dir o ≡ some r)
      ↔ ((n : Text) × P n × (child_remote enc dir (some n) ≡ some r))
split_Option enc dir r none P h = ((λ e. cc), λ t. absurd (none-ne-some t.0 ((h t.0).1 t.1)))
  where
    none-ne-some : (n : Text) → none ≡ some n → ⊥
    none-ne-some n e = cc
split_Option enc dir r (some m) P h = (
  (λ e. (m, (h m).0 refl, e)),
  (λ t. (let same : some m ≡ some t.0 = (h t.0).1 t.1 in ap (child_remote enc dir) same ∙ t.2)),
)

-- For an entry that carries a path, canonical or not, and a listing of any directory: the entry is
-- kept, under the remote r, exactly when its parts are those of the directory and one segment
-- behind them, and r is that segment decoded and put behind the directory's own remote.
pub immediate_child_remote_iff :
    (enc : Encoder) (dir parent p r : Text) (e : ListDirEntry)
    → entry_path e ≡ some p
    → (immediate_child_remote enc dir (clean_path parent) e ≡ some r) ↔ (
        (n : Text) × (path_parts p ≡ path_parts parent ++ n ∷ [])
        × (child_remote enc dir (some n) ≡ some r))
unfolding immediate_child_remote
immediate_child_remote_iff enc dir parent p r e carries = rw carries (
    split_Option enc dir r (cleaned_child (clean_path parent) (some p))
      (λ n. path_parts p ≡ path_parts parent ++ n ∷ []) (cleaned_child_iff parent p))
