-- ===== src/Examples/Quoting.antt =====
-- The round trip of a remote with a double quote, under an encoder that has the fullwidth quotation mark
-- (the bytes 239, 188, 130) for it, as rclone's EncodeDoubleQuote does.
use ocu_rclone_filestore.Base.{Text, ◌&&◌, ◌≢◌, [], ◌∷◌, ◌==◌, All, if◌then◌else◌}
use ocu_rclone_filestore.Base.Paths.Clean.{IsName}
use ocu_rclone_filestore.Ocufs.Interface.{Encoder}

unfoldable quote : Text → Text
quote [] = []
quote (c ∷ t) = let rest = quote t in if c == 34 then 239 ∷ 188 ∷ 130 ∷ rest else c ∷ rest

unfoldable unquote : Text → Text
unquote (c ∷ d ∷ e ∷ t) =
    let inside = unquote t in
    let rest = unquote (d ∷ e ∷ t) in
    if c == 239 && d == 188 && e == 130 then 34 ∷ inside else c ∷ rest
unquote t = t

abbrev quoting : Encoder
quoting = record { from_standard_path = quote; to_standard_path = unquote }

-- A name without the byte that begins the fullwidth mark.
abbrev IsPlain : Text → Type 0
IsPlain n = IsName n × All (λ c. c ≢ 239) n

abbrev quoted_x : Text
quoted_x = b'x' ∷ 34 ∷ []
