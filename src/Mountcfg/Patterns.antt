-- ===== src/Mountcfg/Patterns.antt =====
-- internal/mountcfg/mountcfg.go: the four patterns, as recognisers over bytes.
use ocu_rclone_filestore.Base.{
  ℕ, Text, codes, Bool, true, false, not, ◌&&◌, ◌||◌, is_empty, has_prefix, trim_prefix, leb, ◌==◌,
  if◌then◌else◌, [], ◌∷◌, any_of, text_eq,
}

abbrev pub is_digit : ℕ → Bool
is_digit c = leb b'0' c && leb c b'9'

abbrev pub is_octal_digit : ℕ → Bool
is_octal_digit c = leb b'0' c && leb c b'7'

-- What follows the leading digits.
unfoldable pub drop_digits : Text → Text
drop_digits [] = []
drop_digits (c ∷ s) = if is_digit c then drop_digits s else c ∷ s

abbrev pub starts_with_digit : Text → Bool
starts_with_digit [] = false
starts_with_digit (c ∷ s) = is_digit c

-- (alpha|beta)?
unfoldable pub skip_stage : Text → Text
unfolding has_prefix trim_prefix
skip_stage s =
    if has_prefix (codes "alpha") s
    then trim_prefix (codes "alpha") s
    else if has_prefix (codes "beta") s
    then trim_prefix (codes "beta") s
    else s

abbrev after_v : Text → Bool
after_v [] = false
after_v (c ∷ s) =
    c == b'v' && starts_with_digit s && is_empty (drop_digits (skip_stage (drop_digits s)))

-- ^v[0-9]+(alpha|beta)?[0-9]*$
unfoldable pub matches_schema_version : Text → Bool
unfolding drop_digits skip_stage
matches_schema_version s = after_v s

-- ^/.+ : a dot matches no newline.
unfoldable pub matches_destination : Text → Bool
matches_destination [] = false
matches_destination (c ∷ []) = false
matches_destination (c ∷ d ∷ s) = c == b'/' && not (d == 10)

-- ^0[0-7]{3}$
unfoldable pub matches_octal : Text → Bool
matches_octal (a ∷ b ∷ c ∷ d ∷ []) =
    a == b'0' && is_octal_digit b && is_octal_digit c && is_octal_digit d
matches_octal s = false

abbrev pub is_unit : Text → Bool
is_unit [] = true
is_unit (c ∷ []) = c == b'B' || c == b'K' || c == b'M' || c == b'G' || c == b'T'
is_unit (c ∷ d ∷ s) = false

-- ^[0-9]+(B|K|M|G|T)?$
unfoldable pub matches_byte_size : Text → Bool
unfolding drop_digits
matches_byte_size s = starts_with_digit s && is_unit (drop_digits s)

-- The keys of the cacheModes map.
unfoldable pub is_cache_mode : Text → Bool
unfolding any_of text_eq
is_cache_mode s =
    any_of (text_eq s) (codes "off" ∷ codes "minimal" ∷ codes "writes" ∷ codes "full" ∷ [])
