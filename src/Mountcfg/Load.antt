-- ===== src/Mountcfg/Load.antt =====
-- internal/mountcfg/mountcfg.go, Load, and the decode error of errors.go. os.ReadFile and the strict
-- JSON decoder are parameters; a file is its bytes.
use ocu_rclone_filestore.Base.{
  Text, Bool, Option, none, some, GoError, wrap, str, ◌≡◌, ◌↔◌, refl, ◌∙◌, ap, subst, Result, ok,
  err, [], ◌∷◌, arith,
}
use ocu_rclone_filestore.Mountcfg.Validate.{Config, ConfigError, validate}
use ocu_rclone_filestore.Mountcfg.Accepts.{IsValidConfig, validate_iff}

-- The error of os.ReadFile, wrapped, ErrDecode, and the typed errors of the rules.
pub data LoadError : Type 0 where
  read_failed err_decode : GoError → LoadError
  invalid : ConfigError → LoadError

pub data Loaded : Type 0 where
  loaded : Config → Loaded
  refused : LoadError → Loaded

pub record Loader : Type 0 where
  pub read_file : Text → Result Text
  pub decode : Text → Result Config
  pub is_uri : Text → Bool

abbrev pub after_validate : Config → Option ConfigError → Loaded
after_validate cfg none = loaded cfg
after_validate cfg (some e) = refused (invalid e)

abbrev pub after_decode : Loader → Result Config → Loaded
after_decode l (err e) = refused (err_decode e)
after_decode l (ok cfg) = after_validate cfg (validate l.is_uri cfg)

abbrev pub read_result : Loader → Text → Result Text → Loaded
read_result l path (err e) = refused (read_failed (wrap "read config %q: %w" (str path ∷ []) e))
read_result l path (ok raw) = after_decode l (l.decode raw)

unfoldable pub load : Loader → Text → Loaded
unfolding validate
load l path = read_result l path (l.read_file path)

after_validate-loaded :
    (cfg c : Config) (e : Option ConfigError)
    → after_validate cfg e ≡ loaded c
    → (e ≡ none) × (cfg ≡ c)
after_validate-loaded cfg c none h = (refl, ground arith)
after_validate-loaded cfg c (some e) h = absurd (ground arith)

-- A config is loaded exactly when its file can be read, the strict decoder gives it, and it keeps
-- every rule of the schema.
pub load_iff :
    (l : Loader) (path : Text) (cfg : Config)
    → (load l path ≡ loaded cfg) ↔ (
        (raw : Text) × (l.read_file path ≡ ok raw)
        × (l.decode raw ≡ ok cfg)
        × IsValidConfig l.is_uri cfg)
unfolding load
load_iff l path cfg = (
  of_read (l.read_file path) refl,
  λ (raw, found, decoded, valid).
      ap (read_result l path) found
      ∙ ap (after_decode l) decoded
      ∙ ap (after_validate cfg) ((validate_iff l.is_uri cfg).1 valid),
)
  where
    of_decode :
        (raw : Text) (r : Result Config)
        → l.read_file path ≡ ok raw
        → l.decode raw ≡ r
        → after_decode l r ≡ loaded cfg
        → (raw : Text) × (l.read_file path ≡ ok raw)
          × (l.decode raw ≡ ok cfg)
          × IsValidConfig l.is_uri cfg
    of_decode raw (err e) found decoded h = absurd (ground arith)
    of_decode raw (ok c) found decoded h =
        let (passed, same) = after_validate-loaded c cfg (validate l.is_uri c) h in
        (
          raw,
          found,
          decoded ∙ ap ok same,
          subst (IsValidConfig l.is_uri) same ((validate_iff l.is_uri c).0 passed),
        )

    of_read :
        (r : Result Text)
        → l.read_file path ≡ r
        → read_result l path r ≡ loaded cfg
        → (raw : Text) × (l.read_file path ≡ ok raw)
          × (l.decode raw ≡ ok cfg)
          × IsValidConfig l.is_uri cfg
    of_read (err e) found h = absurd (ground arith)
    of_read (ok raw) found h = of_decode raw (l.decode raw) found refl h
