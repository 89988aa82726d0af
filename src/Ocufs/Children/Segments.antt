-- ===== src/Ocufs/Children/Segments.antt =====
-- The segment that the depth-1 filter returns, over cleaned parts.
use ocu_rclone_filestore.Base.{
  ℕ, Text, true, false, some, ◌≡◌, ◌≢◌, ◌⊎◌, inl, inr, ◌↔◌, refl, sym, ap, ◌∙◌, subst, arith, List,
  [], ◌∷◌, ◌++◌, append_assoc, text_eq_iff, has_prefix, trim_prefix, Bool-cases, All, length,
  length-append,
}
use ocu_rclone_filestore.Base.Paths.{slash, join_slash, split_slash}
use ocu_rclone_filestore.Base.Paths.Split.{
  join_slash-append, split_slash-below, NoSlash, split_slash_of_NoSlash, split_slash-join_slash,
}
use ocu_rclone_filestore.Base.Paths.Clean.{IsName, rooted, All-NoSlash}
use ocu_rclone_filestore.Ocufs.Paths.{has_slash, child_segment}
use ocu_rclone_filestore.Ocufs.Children.Prefixes.{
  has_prefix-append, trim_prefix-append, has_prefix-split, has_slash-NoSlash, NoSlash-has_slash,
}

-- What the test of `child_segment` says when it lets a path through.
child_segment-cases :
    (parent path n : Text)
    → child_segment parent path ≡ some n
    → (has_slash n ≡ false)
      × (n ≡ trim_prefix (slash ∷ []) (trim_prefix parent path))
      × (path ≢ parent)
      × ((has_prefix (parent ++ slash ∷ []) path ≡ true) ⊎ (parent ≡ slash ∷ []))
unfolding child_segment
child_segment-cases parent path n h = (
  ground (arith, text_eq_iff path parent, text_eq_iff parent (slash ∷ [])),
  ground (arith, text_eq_iff path parent, text_eq_iff parent (slash ∷ [])),
  ground (arith, text_eq_iff path parent, text_eq_iff parent (slash ∷ [])),
  elim (Bool-cases (has_prefix (parent ++ slash ∷ []) path)) [
    | inl e ↦ inl e
    | inr e ↦ inr (ground (arith, text_eq_iff path parent, text_eq_iff parent (slash ∷ [])))
  ],
)

-- A child below a parent that is not the root, by its text.
child_segment-below :
    (parent n : Text) → NoSlash n → child_segment parent (parent ++ slash ∷ n) ≡ some n
unfolding child_segment
child_segment-below parent n plain =
    let longer : (parent ++ slash ∷ n) ≢ parent =
      λ e. absurd (omega (arith, ap length e, length-append parent (slash ∷ n))) in
    let within : has_prefix (parent ++ slash ∷ []) (parent ++ slash ∷ n) ≡ true =
      ap (has_prefix (parent ++ slash ∷ [])) (sym (append_assoc parent (slash ∷ []) n))
      ∙ has_prefix-append (parent ++ slash ∷ []) n in
    let last : trim_prefix (slash ∷ []) (trim_prefix parent (parent ++ slash ∷ n)) ≡ n =
      ap (trim_prefix (slash ∷ [])) (trim_prefix-append parent (slash ∷ n))
      ∙ trim_prefix-append (slash ∷ []) n in
    ground (arith, text_eq_iff (parent ++ slash ∷ n) parent, NoSlash-has_slash n plain)

-- A child of the root.
child_segment-top :
    (n : Text) → n ≢ [] → NoSlash n → child_segment (slash ∷ []) (slash ∷ n) ≡ some n
unfolding child_segment has_prefix trim_prefix
child_segment-top [] some_name plain = absurd (some_name refl)
child_segment-top (c ∷ n) some_name plain = ground (
  arith,
  text_eq_iff (slash ∷ c ∷ n) (slash ∷ []),
  text_eq_iff (slash ∷ []) (slash ∷ []),
  NoSlash-has_slash (c ∷ n) plain,
)

-- A path one part below its parent passes the filter, with that part.
pub child_segment-child :
    (ds : List Text) (n : Text)
    → IsName n
    → child_segment (rooted ds) (rooted (ds ++ n ∷ [])) ≡ some n
unfolding join_slash
child_segment-child [] n h = child_segment-top n h.0 h.3
child_segment-child (d ∷ ds) n h =
    rw (join_slash-append d n ds) (child_segment-below (rooted (d ∷ ds)) n h.3)

-- A text that begins with a cleaned parent and a slash splits into the parts of both.
parts_below :
    (cs ds : List Text) (t : Text)
    → All IsName cs
    → All IsName ds
    → ds ≢ []
    → NoSlash t
    → rooted cs ≡ rooted ds ++ slash ∷ t
    → cs ≡ ds ++ t ∷ []
unfolding join_slash
parts_below cs [] t hc hd n plain e = absurd (n refl)
parts_below [] (d ∷ ds) t hc hd n plain e =
    absurd (omega (arith, ap length e, length-append (join_slash (d ∷ ds)) (slash ∷ t)))
parts_below (c ∷ cs) (d ∷ ds) t hc hd n plain e =
    sym (split_slash-join_slash c cs (All-NoSlash (c ∷ cs) hc))
    ∙ ap split_slash (ground arith)
    ∙ split_slash-below d t ds (All-NoSlash (d ∷ ds) hd)
    ∙ ap (◌++◌ (d ∷ ds)) (split_slash_of_NoSlash t plain)

-- The text of proper names begins with a byte that is no slash.
join_slash-head :
    (c : Text) (cs : List Text)
    → IsName c
    → (x : ℕ) × (t : Text) × (join_slash (c ∷ cs) ≡ x ∷ t) × (x ≢ slash)
unfolding join_slash
join_slash-head [] cs h = absurd (h.0 refl)
join_slash-head (x ∷ c) [] h = (x, c, refl, h.3.0)
join_slash-head (x ∷ c) (d ∷ cs) h = (x, c ++ slash ∷ join_slash (d ∷ cs), refl, h.3.0)

trim_slash-head : (x : ℕ) (t : Text) → x ≢ slash → trim_prefix (slash ∷ []) (x ∷ t) ≡ x ∷ t
unfolding trim_prefix has_prefix
trim_slash-head x t h = ground arith

trim_slash : (t : Text) → trim_prefix (slash ∷ []) (slash ∷ t) ≡ t
trim_slash t = trim_prefix-append (slash ∷ []) t

-- Below the root the one part left is the whole path.
top_parts :
    (c : Text) (cs : List Text) (n : Text)
    → All IsName (c ∷ cs)
    → has_slash n ≡ false
    → n ≡ trim_prefix (slash ∷ []) (join_slash (c ∷ cs))
    → c ∷ cs ≡ n ∷ []
top_parts c cs n h plain e =
    let (x, t, j, ne) = join_slash-head c cs h.0 in
    let same : n ≡ join_slash (c ∷ cs) =
      e ∙ ap (trim_prefix (slash ∷ [])) j ∙ trim_slash-head x t ne ∙ sym j in
    sym (split_slash-join_slash c cs (All-NoSlash (c ∷ cs) h))
    ∙ ap split_slash (sym same)
    ∙ split_slash_of_NoSlash n (has_slash-NoSlash n plain)

no_double_slash : (cs : List Text) (t : Text) → All IsName cs → rooted cs ≡ slash ∷ slash ∷ t → ⊥
unfolding join_slash
no_double_slash [] t h e = absurd (omega (arith, ap length e))
no_double_slash (c ∷ cs) t h e = let (x, u, j, ne) = join_slash-head c cs h.0 in ground arith

rooted-top : (d : Text) (ds : List Text) → IsName d → rooted (d ∷ ds) ≢ slash ∷ []
rooted-top d ds h e = let (x, u, j, ne) = join_slash-head d ds h in ground arith

child_of_prefix :
    (cs ds : List Text) (n t : Text)
    → All IsName cs
    → All IsName ds
    → has_slash n ≡ false
    → n ≡ trim_prefix (slash ∷ []) (trim_prefix (rooted ds) (rooted cs))
    → rooted cs ≡ rooted ds ++ slash ∷ t
    → cs ≡ ds ++ n ∷ []
unfolding join_slash
child_of_prefix cs [] n t hc hd plain e p = absurd (no_double_slash cs t hc p)
child_of_prefix cs (d ∷ ds) n t hc hd plain e p =
    let same : n ≡ t =
      e
      ∙ ap (λ u. trim_prefix (slash ∷ []) (trim_prefix (rooted (d ∷ ds)) u)) p
      ∙ ap (trim_prefix (slash ∷ [])) (trim_prefix-append (rooted (d ∷ ds)) (slash ∷ t))
      ∙ trim_slash t in
    parts_below cs (d ∷ ds) n hc hd (λ q. cc) (has_slash-NoSlash n plain)
      (p ∙ ap (λ u. rooted (d ∷ ds) ++ slash ∷ u) (sym same))

child_of_root :
    (cs ds : List Text) (n : Text)
    → All IsName cs
    → All IsName ds
    → has_slash n ≡ false
    → n ≡ trim_prefix (slash ∷ []) (trim_prefix (rooted ds) (rooted cs))
    → rooted cs ≢ rooted ds
    → rooted ds ≡ slash ∷ []
    → cs ≡ ds ++ n ∷ []
unfolding join_slash
child_of_root [] [] n hc hd plain e ne p = absurd (ne refl)
child_of_root (c ∷ cs) [] n hc hd plain e ne p =
    top_parts c cs n hc plain (e ∙ ap (trim_prefix (slash ∷ [])) (trim_slash (join_slash (c ∷ cs))))
child_of_root cs (d ∷ ds) n hc hd plain e ne p = absurd (rooted-top d ds hd.0 p)

pub last_IsName : (ds : List Text) (n : Text) → All IsName (ds ++ n ∷ []) → IsName n
last_IsName [] n h = h.0
last_IsName (d ∷ ds) n h = last_IsName ds n h.1

-- The filter lets a path through, with the segment that it returns, exactly when the path has the
-- parts of the parent and that segment behind them.
pub child_segment_iff :
    (cs ds : List Text) (n : Text)
    → All IsName cs
    → All IsName ds
    → (child_segment (rooted ds) (rooted cs) ≡ some n) ↔ ((cs ≡ ds ++ n ∷ []) × IsName n)
child_segment_iff cs ds n hc hd = (
  (λ h.
      let (plain, e, ne, alt) = child_segment-cases (rooted ds) (rooted cs) n h in
      let parts : cs ≡ ds ++ n ∷ [] = elim alt [
        | inl p ↦
            let (t, q) = has_prefix-split (rooted ds ++ slash ∷ []) (rooted cs) p in
            child_of_prefix cs ds n t hc hd plain e (q ∙ append_assoc (rooted ds) (slash ∷ []) t)
        | inr p ↦ child_of_root cs ds n hc hd plain e ne p
      ] in
      (parts, last_IsName ds n (subst (All IsName) parts hc))),
  (λ h.
      subst (λ c. child_segment (rooted ds) (rooted c) ≡ some n) (sym h.0)
        (child_segment-child ds n h.1)),
)
