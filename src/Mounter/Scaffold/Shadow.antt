-- ===== src/Mounter/Scaffold/Shadow.antt =====
-- The shape of the trees that internal/mounter/scaffoldguard.go walks.
use ocu_rclone_filestore.Base.{
  ℕ, ◌+◌, ◌≤◌, Text, Bool, true, false, ◌&&◌, ◌≡◌, ◌↔◌, refl, ap, ◌∙◌, arith, Option, none, some,
  GoError, Result, ok, err, ltb,
}
use ocu_rclone_filestore.Base.Paths.{join_path}
use ocu_rclone_filestore.Mounter.Scaffold.{
  Listing, done, other, sub, unreadable, walk, and_then, unless_full,
  ensure_mountpoint_shadows_no_content,
}

-- Directories all the way down, each of which can be read.
abbrev pub is_scaffold : Listing → Bool
is_scaffold done = true
is_scaffold (other name rest) = false
is_scaffold (sub name inside rest) = is_scaffold inside && is_scaffold rest
is_scaffold (unreadable name e rest) = false

-- The entries at every depth.
abbrev pub count : Listing → ℕ
count done = 0
count (other name rest) = 1 + count rest
count (sub name inside rest) = 1 + count inside + count rest
count (unreadable name e rest) = 1 + count rest

-- A walk that met no error: a scaffold under the ceiling, whose entries it has counted.
abbrev Passes : Listing → ℕ → ℕ × Option GoError → Type 0
Passes l seen r = (is_scaffold l ≡ true) × (seen + count l ≤ 4096) × (r ≡ (seen + count l, none))

unless_full-none :
    (dir : Text) (seen : ℕ) (rest : ℕ × Option GoError)
    → (unless_full dir seen rest).1 ≡ none
    → (seen ≤ 4096) × (rest.1 ≡ none) × (unless_full dir seen rest ≡ rest)
unless_full-none dir seen rest h = ground arith

and_then-none :
    (first : ℕ × Option GoError) (rest : ℕ → ℕ × Option GoError)
    → (and_then first rest).1 ≡ none
    → (first.1 ≡ none) × (and_then first rest ≡ rest first.0)
and_then-none (n, none) rest h = (refl, refl)
and_then-none (n, some e) rest h = cc

walk-none :
    (dest dir : Text) (l : Listing) (seen : ℕ)
    → seen ≤ 4096
    → (walk dest dir l seen).1 ≡ none
    → Passes l seen (walk dest dir l seen)
unfolding walk
walk-none dest dir done seen low h = (refl, omega arith, ground arith)
walk-none dest dir (other name rest) seen low h =
    let (room, none_left, e) = unless_full-none dir (seen + 1) _ h in cc
walk-none dest dir (unreadable name e rest) seen low h =
    let (room, none_left, same) = unless_full-none dir (seen + 1) _ h in cc
walk-none dest dir (sub name inside rest) seen low h =
    let (room, passed, same) = unless_full-none dir (seen + 1) _ h in
    let (inside_passed, follows) =
      and_then-none (walk dest (join_path dir name) inside (seen + 1)) _ passed in
    let (scaffold, below, counted) =
      walk-none dest (join_path dir name) inside (seen + 1) room inside_passed in
    let on : and_then (walk dest (join_path dir name) inside (seen + 1)) (λ n. walk dest dir rest n)
        ≡ walk dest dir rest (seen + 1 + count inside) =
      follows ∙ ap (λ r. walk dest dir rest r.0) counted in
    let (scaffold', below', counted') =
      walk-none dest dir rest (seen + 1 + count inside) below (rw on at passed) in
    (
      rw (scaffold, scaffold'),
      omega arith,
      same ∙ on ∙ counted' ∙ ap (λ n. (n, none)) (omega arith),
    )

walk-Passes :
    (dest dir : Text) (l : Listing) (seen : ℕ)
    → is_scaffold l ≡ true
    → seen + count l ≤ 4096
    → walk dest dir l seen ≡ (seen + count l, none)
unfolding walk
walk-Passes dest dir done seen scaffold low = ground arith
walk-Passes dest dir (other name rest) seen scaffold low = cc
walk-Passes dest dir (unreadable name e rest) seen scaffold low = cc
walk-Passes dest dir (sub name inside rest) seen scaffold low =
    let both : (is_scaffold inside ≡ true) × (is_scaffold rest ≡ true) = ground arith in
    let first = walk-Passes dest (join_path dir name) inside (seen + 1) both.0 (omega arith) in
    let second = walk-Passes dest dir rest (seen + 1 + count inside) both.1 (omega arith) in
    let room : ltb 4096 (seen + 1) ≡ false = ground arith in
    rw (room, first) (second ∙ ap (λ n. (n, none)) (omega arith))

-- The guard lets a mount destination through exactly when it can be read, holds nothing but
-- directories that can be read, at every depth, and no more than 4096 of them.
pub ensure_mountpoint_shadows_no_content_iff :
    (dest : Text) (root : Result Listing)
    → (ensure_mountpoint_shadows_no_content dest root ≡ none)
      ↔ ((l : Listing) × (root ≡ ok l) × (is_scaffold l ≡ true) × (count l ≤ 4096))
unfolding ensure_mountpoint_shadows_no_content
ensure_mountpoint_shadows_no_content_iff dest (err e) = ((λ h. cc), (λ t. (let bad = t.1 in cc)))
ensure_mountpoint_shadows_no_content_iff dest (ok l) = (
  (λ h.
      (let (scaffold, low, counted) = walk-none dest dest l 0 (omega arith) h in
        (l, refl, scaffold, omega arith))),
  (λ t.
      (let same : ok l ≡ ok t.0 = t.1 in
        let scaffold : is_scaffold l ≡ true = ground (arith, t.2) in
        let low : count l ≤ 4096 = ground (arith, t.3) in
        ap (λ r. r.1) (walk-Passes dest dest l 0 scaffold (omega arith)))),
)
