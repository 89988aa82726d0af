-- ===== src/Mountcfg/Texts.antt =====
-- The patterns of internal/contract/testdata/mount-config.schema.json, and that the recognisers of
-- internal/mountcfg/mountcfg.go recognise just these.
use ocu_rclone_filestore.Base.{
  ℕ, ◌≤◌, Text, codes, true, has_prefix, trim_prefix, ◌≡◌, ◌≢◌, ◌↔◌, ◌⊎◌, inl, inr, refl, sym, ap,
  ◌∙◌, subst, arith, [], ◌∷◌, ◌++◌, append-nil, any_of, text_eq_iff, Bool-cases,
}
use ocu_rclone_filestore.Mountcfg.Patterns.{
  is_digit, drop_digits, skip_stage, is_unit, matches_schema_version, matches_destination,
  matches_octal, matches_byte_size, is_cache_mode,
}

abbrev pub AreDigits : Text → Type 0
AreDigits [] = Unit
AreDigits (c ∷ s) = ((48 ≤ c) × (c ≤ 57)) × AreDigits s

abbrev IsOctalDigit : ℕ → Type 0
IsOctalDigit c = (48 ≤ c) × (c ≤ 55)

-- ^/.+ : a dot matches no newline.
abbrev pub IsDestination : Text → Type 0
IsDestination s = (c : ℕ) × (t : Text) × (s ≡ b'/' ∷ c ∷ t) × (c ≢ 10)

-- ^0[0-7]{3}$
abbrev pub IsOctal : Text → Type 0
IsOctal s =
    (b : ℕ) × (c : ℕ) × (d : ℕ) × (s ≡ b'0' ∷ b ∷ c ∷ d ∷ [])
    × IsOctalDigit b
    × IsOctalDigit c
    × IsOctalDigit d

abbrev IsUnit : Text → Type 0
IsUnit u =
    (u ≡ [])
    ⊎ (u ≡ codes "B")
    ⊎ (u ≡ codes "K")
    ⊎ (u ≡ codes "M")
    ⊎ (u ≡ codes "G")
    ⊎ (u ≡ codes "T")

-- ^[0-9]+(B|K|M|G|T)?$
abbrev pub IsByteSize : Text → Type 0
IsByteSize s =
    (d : ℕ) × (ds : Text) × (u : Text) × (s ≡ d ∷ (ds ++ u)) × AreDigits (d ∷ ds) × IsUnit u

abbrev IsStage : Text → Type 0
IsStage t = (t ≡ []) ⊎ (t ≡ codes "alpha") ⊎ (t ≡ codes "beta")

-- ^v[0-9]+(alpha|beta)?[0-9]*$
abbrev pub IsVersion : Text → Type 0
IsVersion s =
    (d : ℕ) × (ds : Text) × (stage : Text) × (es : Text) × (s ≡ b'v' ∷ d ∷ (ds ++ (stage ++ es)))
    × AreDigits (d ∷ ds)
    × IsStage stage
    × AreDigits es

pub matches_destination-IsDestination :
    (s : Text) → (matches_destination s ≡ true) ↔ IsDestination s
unfolding matches_destination
matches_destination-IsDestination [] = (λ h. cc, λ (c, t, e, _). cc)
matches_destination-IsDestination (a ∷ []) = (λ h. cc, λ (c, t, e, _). cc)
matches_destination-IsDestination (a ∷ c ∷ t) =
    (λ h. (c, t, ground arith, ground arith), λ (c', t', e, n). ground arith)

pub matches_octal-IsOctal : (s : Text) → (matches_octal s ≡ true) ↔ IsOctal s
unfolding matches_octal
matches_octal-IsOctal [] = (λ h. cc, λ (b, c, d, e, x1, x2, x3). cc)
matches_octal-IsOctal (x ∷ []) = (λ h. cc, λ (b, c, d, e, x1, x2, x3). cc)
matches_octal-IsOctal (x ∷ y ∷ []) = (λ h. cc, λ (b, c, d, e, x1, x2, x3). cc)
matches_octal-IsOctal (x ∷ y ∷ z ∷ []) = (λ h. cc, λ (b, c, d, e, x1, x2, x3). cc)
matches_octal-IsOctal (x ∷ b ∷ c ∷ d ∷ []) = (
  λ h. (b, c, d, ground arith, ground arith, ground arith, ground arith),
  λ (b', c', d', e, x1, x2, x3). ground arith,
)
matches_octal-IsOctal (x ∷ y ∷ z ∷ w ∷ v ∷ s) = (λ h. cc, λ (b, c, d, e, x1, x2, x3). cc)

split_digits : (s : Text) → (ds : Text) × (s ≡ ds ++ drop_digits s) × AreDigits ds
unfolding drop_digits
split_digits [] = ([], refl, tt)
split_digits (c ∷ s) = elim (Bool-cases (is_digit c)) [
  | inl d ↦ let (ds, e, all) = split_digits s in rw d (c ∷ ds, ap (◌∷◌ c) e, (ground arith, all))
  | inr n ↦ rw n ([], refl, tt)
]

drop_digits-append : (ds u : Text) → AreDigits ds → drop_digits u ≡ u → drop_digits (ds ++ u) ≡ u
unfolding drop_digits
drop_digits-append [] u h e = e
drop_digits-append (c ∷ ds) u (d, h) e = ground (arith, drop_digits-append ds u h e)

drop_digits-all : (ds : Text) → AreDigits ds → drop_digits ds ≡ []
unfolding drop_digits
drop_digits-all [] h = refl
drop_digits-all (c ∷ ds) (d, h) = ground (arith, drop_digits-all ds h)

AreDigits-append : (s t : Text) → AreDigits s → AreDigits t → AreDigits (s ++ t)
AreDigits-append [] t h k = k
AreDigits-append (c ∷ s) t (d, h) k = (d, AreDigits-append s t h k)

is_unit-IsUnit : (u : Text) → (is_unit u ≡ true) ↔ IsUnit u
is_unit-IsUnit [] = (λ h. inl refl, λ h. refl)
is_unit-IsUnit (c ∷ []) = ground arith
is_unit-IsUnit (c ∷ d ∷ u) = (λ h. cc, λ h. ground arith)

unit_stays : (u : Text) → IsUnit u → drop_digits u ≡ u
unfolding drop_digits
unit_stays u (inl e) = rw e refl
unit_stays u (inr (inl e)) = rw e refl
unit_stays u (inr (inr (inl e))) = rw e refl
unit_stays u (inr (inr (inr (inl e)))) = rw e refl
unit_stays u (inr (inr (inr (inr (inl e))))) = rw e refl
unit_stays u (inr (inr (inr (inr (inr e))))) = rw e refl

byte_size_of :
    (d : ℕ) (ds u : Text) → AreDigits (d ∷ ds) → IsUnit u → matches_byte_size (d ∷ (ds ++ u)) ≡ true
unfolding matches_byte_size drop_digits
byte_size_of d ds u (digit, digits) unit =
    let dropped = drop_digits-append ds u digits (unit_stays u unit) in
    let ends = (is_unit-IsUnit u).1 unit in ground arith

pub matches_byte_size-IsByteSize : (s : Text) → (matches_byte_size s ≡ true) ↔ IsByteSize s
unfolding matches_byte_size drop_digits
matches_byte_size-IsByteSize [] = (λ h. cc, λ (d, ds, u, e, x1, x2). cc)
matches_byte_size-IsByteSize (c ∷ s) = (
  λ h.
      let (ds, e, all) = split_digits s in
      let digit : (48 ≤ c) × (c ≤ 57) = ground arith in
      let unit : is_unit (drop_digits s) ≡ true = ground arith in
      (c, ds, drop_digits s, ap (◌∷◌ c) e, (digit, all), (is_unit-IsUnit (drop_digits s)).0 unit),
  λ (d, ds, u, e, digits, unit).
      subst (λ t. matches_byte_size t ≡ true) (sym e) (byte_size_of d ds u digits unit),
)

has_prefix-split : (p s : Text) → has_prefix p s ≡ true → s ≡ p ++ trim_prefix p s
unfolding has_prefix trim_prefix
has_prefix-split [] s h = refl
has_prefix-split (c ∷ p) [] h = cc
has_prefix-split (c ∷ p) (d ∷ s) h = ground (arith, has_prefix-split p s)

skip_stage-IsStage : (s : Text) → (stage : Text) × (s ≡ stage ++ skip_stage s) × IsStage stage
unfolding skip_stage
skip_stage-IsStage s = elim (Bool-cases (has_prefix (codes "alpha") s)) [
  | inl a ↦ rw a (codes "alpha", has_prefix-split (codes "alpha") s a, inr (inl refl))
  | inr a ↦ elim (Bool-cases (has_prefix (codes "beta") s)) [
    | inl b ↦ rw (a, b) (codes "beta", has_prefix-split (codes "beta") s b, inr (inr refl))
    | inr b ↦ rw (a, b) ([], refl, inl refl)
  ]
]

rest_of_stage :
    (ds stage es : Text)
    → AreDigits ds
    → IsStage stage
    → AreDigits es
    → drop_digits (skip_stage (drop_digits (ds ++ (stage ++ es)))) ≡ []
unfolding drop_digits skip_stage has_prefix trim_prefix
rest_of_stage ds stage es h (inl e) k =
    ap (λ t. drop_digits (skip_stage (drop_digits (ds ++ (t ++ es))))) e
    ∙ ap (λ t. drop_digits (skip_stage t)) (drop_digits-all (ds ++ es) (AreDigits-append ds es h k))
rest_of_stage ds stage es h (inr (inl e)) k =
    ap (λ t. drop_digits (skip_stage (drop_digits (ds ++ (t ++ es))))) e
    ∙ ap (λ t. drop_digits (skip_stage t)) (drop_digits-append ds (codes "alpha" ++ es) h refl)
    ∙ drop_digits-all es k
rest_of_stage ds stage es h (inr (inr e)) k =
    ap (λ t. drop_digits (skip_stage (drop_digits (ds ++ (t ++ es))))) e
    ∙ ap (λ t. drop_digits (skip_stage t)) (drop_digits-append ds (codes "beta" ++ es) h refl)
    ∙ drop_digits-all es k

version_of :
    (d : ℕ) (ds stage es : Text)
    → AreDigits (d ∷ ds)
    → IsStage stage
    → AreDigits es
    → matches_schema_version (b'v' ∷ d ∷ (ds ++ (stage ++ es))) ≡ true
unfolding matches_schema_version drop_digits
version_of d ds stage es (digit, digits) staged more =
    let ends = rest_of_stage ds stage es digits staged more in ground arith

-- What follows the leading digits, when they are followed by a stage, digits, and nothing else.
version_tail :
    (s : Text)
    → drop_digits (skip_stage (drop_digits s)) ≡ []
    → (ds : Text) × (stage : Text) × (es : Text) × (s ≡ ds ++ (stage ++ es))
      × AreDigits ds
      × IsStage stage
      × AreDigits es
version_tail s ends =
    let (ds, e1, all) = split_digits s in
    let (stage, e2, staged) = skip_stage-IsStage (drop_digits s) in
    let (es, e3, more) = split_digits (skip_stage (drop_digits s)) in
    let tail : skip_stage (drop_digits s) ≡ es = e3 ∙ ap (◌++◌ es) ends ∙ append-nil es in
    (ds, stage, es, e1 ∙ ap (◌++◌ ds) (e2 ∙ ap (◌++◌ stage) tail), all, staged, more)

drop_digit : (c : ℕ) (s : Text) → is_digit c ≡ true → drop_digits (c ∷ s) ≡ drop_digits s
unfolding drop_digits
drop_digit c s h = rw h refl

version_tests :
    (v c : ℕ) (s : Text)
    → matches_schema_version (v ∷ c ∷ s) ≡ true
    → (v ≡ b'v') × (is_digit c ≡ true) × (drop_digits (skip_stage (drop_digits (c ∷ s))) ≡ [])
unfolding matches_schema_version
version_tests v c s h = ground arith

longer-IsVersion :
    (v c : ℕ) (s : Text) → matches_schema_version (v ∷ c ∷ s) ≡ true → IsVersion (v ∷ c ∷ s)
longer-IsVersion v c s h =
    let (is_v, digit, ends) = version_tests v c s h in
    let (ds, stage, es, e, all, staged, more) =
      version_tail s (ap (λ t. drop_digits (skip_stage t)) (sym (drop_digit c s digit)) ∙ ends) in
    (
      c,
      ds,
      stage,
      es,
      ap (λ t. v ∷ c ∷ t) e ∙ ap (λ (x : ℕ). x ∷ c ∷ (ds ++ (stage ++ es))) is_v,
      (ground arith, all),
      staged,
      more,
    )

tested-IsVersion : (s : Text) → matches_schema_version s ≡ true → IsVersion s
unfolding matches_schema_version
tested-IsVersion [] h = cc
tested-IsVersion (v ∷ []) h = ground arith
tested-IsVersion (v ∷ c ∷ s) h = longer-IsVersion v c s h

pub matches_schema_version-IsVersion : (s : Text) → (matches_schema_version s ≡ true) ↔ IsVersion s
matches_schema_version-IsVersion s = (
  tested-IsVersion s,
  λ (d, ds, stage, es, e, digits, staged, more).
      subst (λ t. matches_schema_version t ≡ true) (sym e)
        (version_of d ds stage es digits staged more),
)

abbrev pub IsCacheMode : Text → Type 0
IsCacheMode s =
    (s ≡ codes "off") ⊎ (s ≡ codes "minimal") ⊎ (s ≡ codes "writes") ⊎ (s ≡ codes "full")

pub is_cache_mode-IsCacheMode : (s : Text) → (is_cache_mode s ≡ true) ↔ IsCacheMode s
unfolding is_cache_mode any_of
is_cache_mode-IsCacheMode s = ground (
  arith,
  text_eq_iff s (codes "off"),
  text_eq_iff s (codes "minimal"),
  text_eq_iff s (codes "writes"),
  text_eq_iff s (codes "full"),
)

has_prefix-starts : (p rest : Text) → has_prefix p (p ++ rest) ≡ true
unfolding has_prefix
has_prefix-starts [] rest = refl
has_prefix-starts (c ∷ p) rest = ground (arith, has_prefix-starts p rest)

pub prefix_iff : (p s : Text) → (has_prefix p s ≡ true) ↔ ((rest : Text) × (s ≡ p ++ rest))
prefix_iff p s = (
  λ h. (trim_prefix p s, has_prefix-split p s h),
  λ (rest, e). subst (λ t. has_prefix p t ≡ true) (sym e) (has_prefix-starts p rest),
)
