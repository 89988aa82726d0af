-- ===== src/Ocufs/Paths.antt =====
-- backend/ocufs/ocufs.go: from rclone-relative paths to broker paths and back, with the filter that
-- keeps the immediate children of a directory.
use ocu_rclone_filestore.Base.{
  Text, Bool, not, ◌&&◌, ◌||◌, Option, none, some, is_empty, text_eq, has_prefix, trim_prefix,
  if◌then◌else◌, ◌==◌, [], ◌∷◌, ◌++◌, any_of,
}
use ocu_rclone_filestore.Base.Paths.{slash, clean, join_path}
use ocu_rclone_filestore.Brokerrpc.Messages.{ListDirEntry}
use ocu_rclone_filestore.Ocufs.Interface.{Encoder}

-- cleanPath: path.Clean("/" + p)
unfoldable pub clean_path : Text → Text
unfolding clean
clean_path p = clean (slash ∷ p)

-- absPath, over the root of the Fs.
unfoldable pub abs_path : Encoder → Text → Text → Text
unfolding clean_path join_path
abs_path enc root rel =
    clean_path (enc.from_standard_path (if is_empty rel then root else join_path root rel))

-- strings.Contains(s, "/")
abbrev pub has_slash : Text → Bool
has_slash s = any_of (λ c. c == slash) s

-- The path of the arm that an entry carries; the file comes first.
abbrev pub entry_path : ListDirEntry → Option Text
entry_path e = elim e.file [
  | some f ↦ some f.path
  | none ↦ elim e.directory [ some d ↦ some d.path | none ↦ none ]
]

-- The part of a cleaned path below its parent, if that is one segment.
unfoldable pub child_segment : Text → Text → Option Text
unfolding text_eq has_prefix trim_prefix any_of
child_segment parent_path path =
    if text_eq path parent_path
    then none
    else if not (has_prefix (parent_path ++ slash ∷ []) path)
        && (not (text_eq parent_path (slash ∷ [])) || has_slash (trim_prefix (slash ∷ []) path))
    then none
    else (let rel = trim_prefix (slash ∷ []) (trim_prefix parent_path path) in
        if has_slash rel then none else some rel)

-- The remote of a child: its decoded name, behind the directory listed.
abbrev pub child_remote : Encoder → Text → Option Text → Option Text
child_remote enc dir none = none
child_remote enc dir (some rel) =
    if is_empty dir
    then some (enc.to_standard_path rel)
    else some (join_path dir (enc.to_standard_path rel))

abbrev pub cleaned_child : Text → Option Text → Option Text
cleaned_child parent_path none = none
cleaned_child parent_path (some p) = child_segment parent_path (clean_path p)

unfoldable pub immediate_child_remote : Encoder → Text → Text → ListDirEntry → Option Text
unfolding child_segment clean_path join_path
immediate_child_remote enc dir parent_path e =
    child_remote enc dir (cleaned_child parent_path (entry_path e))
