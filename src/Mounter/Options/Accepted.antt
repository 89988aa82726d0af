-- ===== src/Mounter/Options/Accepted.antt =====
-- The options that buildVFSOptions of internal/mounter/options.go returns.
use Prim.Native.String.{String}
use ocu_rclone_filestore.Base.{
  subst, ℕ, ◌≤◌, ◌↔◌, codes, Option, none, some, Text, Bool, true, false, ◌≡◌, ◌≢◌, ◌⊎◌, inl, inr,
  refl, sym, ap, ◌∙◌, arith, GoError, Result, ok, err, [], ◌∷◌, ◌++◌, all_of, Bool-cases,
}
use ocu_rclone_filestore.Base.Int.{ℤ, pos, is_positive, wrap64, scale}
use ocu_rclone_filestore.Mountcfg.Patterns.{is_digit, is_unit, drop_digits, matches_byte_size}
use ocu_rclone_filestore.Mountcfg.Validate.{Mount}
use ocu_rclone_filestore.Mounter.Options.{
  VfsParsers, VfsOptions, raw_size, is_all_digits, parsed, on_ok, write_back_of, build_vfs_options,
  dir_cache_time, checked_positive,
}

abbrev pub AreDigits : Text → Type 0
AreDigits [] = Unit
AreDigits (c ∷ s) = ((48 ≤ c) × (c ≤ 57)) × AreDigits s

-- Digits and one unit letter behind them.
abbrev pub HasUnit : Text → Type 0
HasUnit s =
    (ds : Text) × (u : ℕ) × (s ≡ ds ++ u ∷ [])
    × (all_of is_digit ds ≡ true)
    × (is_unit (u ∷ []) ≡ true)

one_unit : (c : ℕ) (s : Text) → is_unit (c ∷ s) ≡ true → s ≡ []
one_unit c [] h = refl
one_unit c (d ∷ s) h = cc

digits_or_unit :
    (s : Text)
    → is_unit (drop_digits s) ≡ true
    → (all_of is_digit s ≡ true) ⊎ (HasUnit s × (all_of is_digit s ≡ false))
unfolding drop_digits all_of
digits_or_unit [] h = inl refl
digits_or_unit (c ∷ s) h = elim (Bool-cases (is_digit c)) [
  | inl d ↦ elim (digits_or_unit s (rw d at h)) [
    | inl ds ↦ inl (rw (d, ds))
    | inr ((ds, u, e, all, unit), other) ↦
        inr ((c ∷ ds, u, ap (◌∷◌ c) e, rw (d, all), unit), rw (d, other))
  ]
  | inr d ↦
      let unit : is_unit (c ∷ s) ≡ true = rw d at h in
      let alone = one_unit c s unit in inr (([], c, ap (◌∷◌ c) alone, refl, rw alone at unit), rw d)
]

-- The size of a mount that the loader accepts is parsed with its unit: digits, and one of the
-- letters B, K, M, G, T behind them, so that a bare number is never read as kibibytes.
pub raw_size-HasUnit : (s : Text) → matches_byte_size s ≡ true → HasUnit (raw_size s)
unfolding matches_byte_size raw_size is_all_digits
raw_size-HasUnit [] h = cc
raw_size-HasUnit (c ∷ s) h =
    let unit : is_unit (drop_digits (c ∷ s)) ≡ true = ground arith in
    elim (digits_or_unit (c ∷ s) unit) [
      | inl ds ↦ rw ds (c ∷ s, b'B', refl, ds, refl)
      | inr (has, other) ↦ rw other has
    ]

parsed-ok :
    {A B : Type 0} (format : String) (text : Text) (r : Result A) (rest : A → Result B) (b : B)
    → parsed format text r rest ≡ ok b
    → (a : A) × (r ≡ ok a) × (rest a ≡ ok b)
parsed-ok format text (ok a) rest b h = (a, refl, h)
parsed-ok format text (err e) rest b h = cc

on_ok-ok :
    {A B : Type 0} (r : Result A) (rest : A → Result B) (b : B)
    → on_ok r rest ≡ ok b
    → (a : A) × (r ≡ ok a) × (rest a ≡ ok b)
on_ok-ok (ok a) rest b h = (a, refl, h)
on_ok-ok (err e) rest b h = cc

-- The delay is the default of an empty text, or else what the text parses to, which is positive.
abbrev pub IsWriteBack : VfsParsers → ℤ → Text → ℤ → Type 0
IsWriteBack p default text wb =
    ((text ≡ []) × (wb ≡ default))
    ⊎ ((text ≢ []) × (p.duration text ≡ ok wb) × (is_positive wb ≡ true))

positive-ok :
    (text : Text) (a wb : ℤ) → checked_positive text a ≡ ok wb → (a ≡ wb) × (is_positive wb ≡ true)
positive-ok text a wb h = elim (Bool-cases (is_positive a)) [
  | inl e ↦ (let same : a ≡ wb = ground arith in (same, rw same at e))
  | inr e ↦ absurd (refused (rw e at h))
]
  where
    refused : {d : GoError} → err d ≡ ok wb → ⊥
    refused e = cc

write_back_of-IsWriteBack :
    (p : VfsParsers) (default : ℤ) (text : Text) (wb : ℤ)
    → write_back_of p default text ≡ ok wb
    → IsWriteBack p default text wb
unfolding write_back_of
write_back_of-IsWriteBack p default [] wb h = inl (refl, ground arith)
write_back_of-IsWriteBack p default (c ∷ text) wb h =
    let (a, e, checked) =
      parsed-ok "vfs_write_back %q: %w" (c ∷ text) (p.duration (c ∷ text)) _ wb h in
    let (same, positive) = positive-ok (c ∷ text) a wb checked in
    inr ((λ bad. cc), e ∙ ap ok same, positive)

-- What a size text is parsed to: with a B behind it when it is digits alone.
abbrev pub IsSize : VfsParsers → Text → ℤ → Type 0
IsSize p text size =
    ((text ≢ []) × AreDigits text × (p.size_suffix (text ++ codes "B") ≡ ok size))
    ⊎ (((text ≡ []) ⊎ (AreDigits text → ⊥)) × (p.size_suffix text ≡ ok size))

all_digits_iff : (s : Text) → (all_of is_digit s ≡ true) ↔ AreDigits s
unfolding all_of
all_digits_iff [] = (λ _. tt, λ _. refl)
all_digits_iff (c ∷ s) = ground (arith, all_digits_iff s)

raw_size-IsSize :
    (p : VfsParsers) (text : Text) (size : ℤ)
    → p.size_suffix (raw_size text) ≡ ok size
    → IsSize p text size
unfolding raw_size is_all_digits
raw_size-IsSize p [] size h = inr (inl refl, h)
raw_size-IsSize p (c ∷ text) size h = elim (Bool-cases (all_of is_digit (c ∷ text))) [
  | inl e ↦ inl ((λ bad. cc), (all_digits_iff (c ∷ text)).0 e, rw e at h)
  | inr e ↦ inr (inr (λ ds. (let yes = (all_digits_iff (c ∷ text)).1 ds in cc)), rw e at h)
]

-- The directory cache time for a mount's seconds: nanoseconds, on int64.
abbrev pub IsCacheTime : Option ℤ → ℤ → Type 0
IsCacheTime none t = t ≡ pos 0
IsCacheTime (some seconds) t = t ≡ wrap64 (scale seconds 1000000000)

dir_cache_time-IsCacheTime : (d : Option ℤ) (t : ℤ) → t ≡ dir_cache_time d → IsCacheTime d t
unfolding dir_cache_time
dir_cache_time-IsCacheTime none t h = h
dir_cache_time-IsCacheTime (some s) t h = h

-- When the options of a mount are built, every text of the mount was parsed to the option's value,
-- the size with a B behind it when it is digits alone; the write-back delay is the default or positive, the umask is 0, the
-- posture is the one asked for, and the cache time is the mount's seconds in int64 nanoseconds.
pub build_vfs_options-ok :
    (p : VfsParsers) (defaults : VfsOptions) (m : Mount) (read_only : Bool) (o : VfsOptions)
    → build_vfs_options p defaults m read_only ≡ ok o
    → (p.cache_mode m.vfs_cache_mode ≡ ok o.cache_mode)
      × IsSize p m.vfs_cache_max_size o.cache_max_size
      × IsWriteBack p defaults.write_back m.vfs_write_back o.write_back
      × (p.file_mode m.dir_perms ≡ ok o.dir_perms)
      × (p.file_mode m.file_perms ≡ ok o.file_perms)
      × (o.umask ≡ 0)
      × (o.read_only ≡ read_only)
      × IsCacheTime m.cache_duration_s o.dir_cache_time
unfolding build_vfs_options
build_vfs_options-ok p defaults m read_only o h =
    let (mode, mode_ok, h1) = parsed-ok _ _ _ _ o h in
    let (size, size_ok, h2) = parsed-ok _ _ _ _ o h1 in
    let (wb, wb_ok, h3) = on_ok-ok _ _ o h2 in
    let (dirs, dirs_ok, h4) = parsed-ok _ _ _ _ o h3 in
    let (files, files_ok, h5) = parsed-ok _ _ _ _ o h4 in
    let good = write_back_of-IsWriteBack p defaults.write_back m.vfs_write_back wb wb_ok in
    let built : _ ≡ o = ok-injective h5 in
    (
      mode_ok ∙ ap (λ x. ok x.cache_mode) built,
      raw_size-IsSize p m.vfs_cache_max_size _ (size_ok ∙ ap (λ x. ok x.cache_max_size) built),
      subst (λ (x : VfsOptions). IsWriteBack p defaults.write_back m.vfs_write_back x.write_back)
          built good,
      dirs_ok ∙ ap (λ x. ok x.dir_perms) built,
      files_ok ∙ ap (λ x. ok x.file_perms) built,
      ap (λ x. x.umask) (sym built),
      ap (λ x. x.read_only) (sym built),
      dir_cache_time-IsCacheTime m.cache_duration_s _ (ap (λ x. x.dir_cache_time) (sym built)),
    )
  where
    ok-injective : {x y : VfsOptions} → ok x ≡ ok y → x ≡ y
    ok-injective e = cc
