-- ===== src/Mounter/Specs/Disjoint.antt =====
-- The destinations and the scopes of the specs that buildSpecs makes.
use ocu_rclone_filestore.Base.{
  Text, true, false, sym, subst, append-nil, append_assoc, ◌≡◌, ◌≢◌, refl, ap, ◌∙◌, arith, Option,
  none, some, GoError, Result, ok, err, List, [], ◌∷◌, ◌++◌, map, any_of, text_eq, text_eq_iff,
  has_prefix, All,
}
use ocu_rclone_filestore.Base.Paths.{slash, clean, parts_of, join_slash}
use ocu_rclone_filestore.Base.Paths.Clean.{rooted, clean-rooted}
use ocu_rclone_filestore.Mountcfg.Validate.{Mount}
use ocu_rclone_filestore.Mounter.Specs.{
  MountSpec, is_nested, refuse_mount, spec_of, cons_spec, unless_refused, build_from, build_specs,
}

-- What the code's test of two cleaned destinations rules out.
abbrev IsDisjoint : Text → Text → Type 0
IsDisjoint a b =
    (a ≢ b) × (has_prefix (b ++ slash ∷ []) a ≡ false) × (has_prefix (a ++ slash ∷ []) b ≡ false)

-- The code's test of each destination against those before it.
abbrev ArePairwiseDisjoint : List Text → List Mount → Type 0
ArePairwiseDisjoint seen [] = Unit
ArePairwiseDisjoint seen (m ∷ ms) =
    All (IsDisjoint (clean m.destination)) seen
    × ArePairwiseDisjoint (clean m.destination ∷ seen) ms

All-IsDisjoint :
    (a : Text) (seen : List Text)
    → any_of (text_eq a) seen ≡ false
    → any_of (is_nested a) seen ≡ false
    → All (IsDisjoint a) seen
unfolding any_of
All-IsDisjoint a [] h k = tt
All-IsDisjoint a (b ∷ seen) h k = (
  ((λ e. ground (arith, text_eq_iff a b)), ground arith, ground arith),
  All-IsDisjoint a seen (ground arith) (ground arith),
)

refuse_mount-none :
    (seen : List Text) (m : Mount)
    → refuse_mount seen m ≡ none
    → All (IsDisjoint (clean m.destination)) seen × (m.memory_store_id ≡ none)
unfolding refuse_mount
refuse_mount-none seen m h =
    (All-IsDisjoint (clean m.destination) seen (ground arith) (ground arith), ground arith)

unless_refused-ok :
    (o : Option GoError) (rest : Result (List MountSpec)) (specs : List MountSpec)
    → unless_refused o rest ≡ ok specs
    → (o ≡ none) × (rest ≡ ok specs)
unless_refused-ok none rest specs h = (refl, h)
unless_refused-ok (some e) rest specs h = cc

cons_spec-ok :
    (s : MountSpec) (r : Result (List MountSpec)) (specs : List MountSpec)
    → cons_spec s r ≡ ok specs
    → (tail : List MountSpec) × (r ≡ ok tail) × (specs ≡ s ∷ tail)
cons_spec-ok s (ok tail) specs h = (tail, refl, ground arith)
cons_spec-ok s (err e) specs h = cc

build_from-ok :
    (url pem : Text) (seen : List Text) (ms : List Mount) (specs : List MountSpec)
    → build_from url pem seen ms ≡ ok specs
    → (specs ≡ map (spec_of url pem) ms)
      × ArePairwiseDisjoint seen ms
      × All (λ (m : Mount). m.memory_store_id ≡ none) ms
unfolding build_from
build_from-ok url pem seen [] specs h = (ground arith, tt, tt)
build_from-ok url pem seen (m ∷ ms) specs h =
    let (free, built) = unless_refused-ok _ _ specs h in
    let (tail, rest, e) = cons_spec-ok _ _ specs built in
    let (same, disjoint, scoped) =
      build_from-ok url pem (clean m.destination ∷ seen) ms tail rest in
    let (apart, no_store) = refuse_mount-none seen m free in
    (e ∙ ap (◌∷◌ (spec_of url pem m)) same, (apart, disjoint), (no_store, scoped))

-- What the specs that are built are made of.
pub specs_made :
    (url pem : Text) (ms : List Mount) (specs : List MountSpec)
    → build_specs url pem ms ≡ ok specs
    → (specs ≡ map (spec_of url pem) ms)
      × ArePairwiseDisjoint [] ms
      × All (λ (m : Mount). m.memory_store_id ≡ none) ms
unfolding build_specs
specs_made url pem ms specs h = build_from-ok url pem [] ms specs h

has_prefix-append : (p t : Text) → has_prefix (p ++ slash ∷ []) (p ++ slash ∷ t) ≡ true
unfolding has_prefix
has_prefix-append [] t = refl
has_prefix-append (c ∷ p) t = ground (arith, has_prefix-append p t)

join_below :
    (d : Text) (ds : List Text) (r : Text) (rest : List Text)
    → join_slash ((d ∷ ds) ++ r ∷ rest) ≡ join_slash (d ∷ ds) ++ slash ∷ join_slash (r ∷ rest)
unfolding join_slash
join_below d [] r rest = refl
join_below d (e ∷ ds) r rest =
    ap (λ t. d ++ slash ∷ t) (join_below e ds r rest) ∙ sym (append_assoc d _ _)

-- The parts of two destinations differ; and unless one of them is the root, neither path lies below the
-- other.
abbrev pub IsApart : List Text → List Text → Type 0
IsApart a b = (a ≢ b) × (a ≢ [] → b ≢ [] → (rest : List Text) → (a ≢ b ++ rest) × (b ≢ a ++ rest))

-- Each destination is apart from those before it.
abbrev pub AreApart : List (List Text) → List Mount → Type 0
AreApart seen [] = Unit
AreApart seen (m ∷ ms) =
    All (IsApart (parts_of m.destination)) seen × AreApart (parts_of m.destination ∷ seen) ms

abbrev pub IsRooted : Mount → Type 0
IsRooted m = (t : Text) × (m.destination ≡ slash ∷ t)

below_has_prefix :
    (b : List Text) (r : Text) (rest : List Text)
    → b ≢ []
    → has_prefix (rooted b ++ slash ∷ []) (rooted (b ++ r ∷ rest)) ≡ true
below_has_prefix [] r rest h = absurd (h refl)
below_has_prefix (d ∷ ds) r rest h =
    ap (λ t. has_prefix (rooted (d ∷ ds) ++ slash ∷ []) (slash ∷ t)) (join_below d ds r rest)
    ∙ has_prefix-append (rooted (d ∷ ds)) (join_slash (r ∷ rest))

not_below :
    (a b : List Text)
    → a ≢ b
    → b ≢ []
    → has_prefix (rooted b ++ slash ∷ []) (rooted a) ≡ false
    → (rest : List Text) → a ≢ b ++ rest
not_below a b differ below_root apart [] e = differ (e ∙ append-nil b)
not_below a b differ below_root apart (r ∷ rest) e =
    true_false (sym (below_has_prefix b r rest below_root) ∙ (rw e at apart))
  where
    true_false : true ≡ false → ⊥
    true_false bad = cc

All-IsApart :
    (a : List Text) (seen : List (List Text))
    → All (IsDisjoint (rooted a)) (map rooted seen)
    → All (IsApart a) seen
All-IsApart a [] h = tt
All-IsApart a (b ∷ seen) ((differ, right, left), h) =
    let apart : a ≢ b = λ e. differ (ap rooted e) in
    (
      (
        apart,
        λ a_below b_below rest. (
          not_below a b apart b_below right rest,
          not_below b a (λ e. apart (sym e)) a_below left rest,
        ),
      ),
      All-IsApart a seen h,
    )

clean-IsRooted : (m : Mount) → IsRooted m → clean m.destination ≡ rooted (parts_of m.destination)
clean-IsRooted m (t, e) = ap clean e ∙ clean-rooted t ∙ ap (λ d. rooted (parts_of d)) (sym e)

ArePairwiseDisjoint-AreApart :
    (seen : List (List Text)) (ms : List Mount)
    → All IsRooted ms
    → ArePairwiseDisjoint (map rooted seen) ms
    → AreApart seen ms
ArePairwiseDisjoint-AreApart seen [] roots h = tt
ArePairwiseDisjoint-AreApart seen (m ∷ ms) (root, roots) (h, hs) =
    let same = clean-IsRooted m root in
    (
      All-IsApart (parts_of m.destination) seen
          (subst (λ d. All (IsDisjoint d) (map rooted seen)) same h),
      ArePairwiseDisjoint-AreApart (parts_of m.destination ∷ seen) ms roots
          (subst (λ d. ArePairwiseDisjoint (d ∷ map rooted seen) ms) same hs),
    )

-- When the specs are built from mounts with rooted destinations, there is one for each mount, in order,
-- with the posture of its readonly key and the transport of the config; no mount is a memory store;
-- and of any two destinations the parts of the paths differ, and, unless one is the root, neither path
-- lies below the other.
pub build_specs-ok :
    (url pem : Text) (ms : List Mount) (specs : List MountSpec)
    → All IsRooted ms
    → build_specs url pem ms ≡ ok specs
    → (specs ≡ map (spec_of url pem) ms)
      × AreApart [] ms
      × All (λ (m : Mount). m.memory_store_id ≡ none) ms
build_specs-ok url pem ms specs roots h =
    let (same, apart, scoped) = specs_made url pem ms specs h in
    (same, ArePairwiseDisjoint-AreApart [] ms roots apart, scoped)
