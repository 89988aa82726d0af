-- ===== src/Mounter/Cachedir/Writable.antt =====
-- EnsureWritableCacheDir of internal/mounter/cachedir.go.
use std.Path.{fun_ext}
use ocu_rclone_filestore.Base.{
  not, ◌&&◌, is_empty, codes, Text, Bool, true, false, ◌≡◌, ◌≢◌, inl, inr, ◌↔◌, refl, sym, subst,
  arith, Option, none, some, GoError, List, [], ◌∷◌, ◌++◌, any_of, text_eq, text_eq_iff, Bool-cases,
}
use ocu_rclone_filestore.Base.Paths.{join_path}
use ocu_rclone_filestore.Mounter.Cachedir.{
  CacheEnv, CacheAction, dir_is_writable, candidates, redirect, behind_actions, try_candidates,
  ensure_writable_cache_dir, cache_dir_after,
}

abbrev pub answers_well : Option GoError → Bool
answers_well none = true
answers_well (some e) = false

-- A directory that has a name, can be made, and takes a probe file.
abbrev pub writable : CacheEnv → Text → Bool
writable env dir =
    not (is_empty dir) && answers_well (env.mkdir_error dir) && answers_well (env.create_error dir)

-- The directories that are asked beside the current one: the cache directory of the root user, and one
-- in the temporary directory.
abbrev pub asked_dirs : CacheEnv → List Text
asked_dirs env = codes "/root/.cache/rclone" ∷ join_path env.temp_dir (codes "rclone") ∷ []

asked_candidates : (env : CacheEnv) → candidates env ≡ asked_dirs env
unfolding candidates join_path
asked_candidates env = refl

-- The verdict of the code's probe.
abbrev probed : CacheEnv → Text → Bool
probed env dir = (dir_is_writable env dir).1

probed_is_writable : (env : CacheEnv) (dir : Text) → probed env dir ≡ writable env dir
unfolding dir_is_writable
probed_is_writable env dir = ground arith

-- A probe removes the file that it made, and leaves the global alone.
probed-keeps :
    (env : CacheEnv) (dir before : Text) (rest : List CacheAction)
    → cache_dir_after before ((dir_is_writable env dir).0 ++ rest) ≡ cache_dir_after before rest
unfolding dir_is_writable cache_dir_after
probed-keeps env dir before rest = ground arith

probe-keeps :
    (env : CacheEnv) (dir before : Text)
    → cache_dir_after before (dir_is_writable env dir).0 ≡ before
unfolding dir_is_writable cache_dir_after
probe-keeps env dir before = ground arith

module _ (env : CacheEnv) (current : Text) where
  -- What an attempt comes to: the directory that the global names after it is writable on success,
  -- and the one before on an error; and success is `found`, when a global can always be set.
  abbrev pub Settled : (Text → Bool) → Bool → List CacheAction × Option GoError → Type 0
  Settled is_writable found (actions, error) =
      ((error ≡ none) → is_writable (cache_dir_after current actions) ≡ true)
      × ((error ≢ none) → cache_dir_after current actions ≡ current)
      × (((d : Text) → env.set_error d ≡ none) → (error ≡ none) ↔ (found ≡ true))

  behind-Settled :
      (found : Bool) (dir : Text) (r : List CacheAction × Option GoError)
      → Settled (probed env) found r
      → Settled (probed env) found (behind_actions (dir_is_writable env dir).0 r)
  behind-Settled found dir (actions, error) (good, bad, iff) =
      rw (probed-keeps env dir current actions) (good, bad, iff)

  redirect-Settled :
      (dir : Text) (e : Option GoError)
      → probed env dir ≡ true
      → env.set_error dir ≡ e
      → Settled (probed env) true (redirect dir e)
  unfolding cache_dir_after
  redirect-Settled dir none h set =
      ((λ _. h), (λ bad. absurd (bad refl)), λ _. (λ _. refl, λ _. refl))
  redirect-Settled dir (some f) h set =
      ((λ e. cc), (λ _. refl), λ always. absurd (ground (arith, always dir)))

  try_candidates-Settled :
      (dirs : List Text)
      → probed env current ≡ false
      → Settled (probed env) (any_of (probed env) dirs) (try_candidates env current dirs)
  unfolding try_candidates any_of cache_dir_after
  try_candidates-Settled [] stuck = ((λ e. cc), (λ _. refl), λ _. (λ e. cc, λ e. cc))
  try_candidates-Settled (dir ∷ dirs) stuck = elim (Bool-cases (text_eq dir current)) [
    | inl same ↦
        let off : probed env dir ≡ false =
          subst (λ d. probed env d ≡ false) (sym ((text_eq_iff dir current).0 same)) stuck in
        rw (same, off) (try_candidates-Settled dirs stuck)
    | inr apart ↦ elim (Bool-cases (probed env dir)) [
      | inl on ↦
          rw (apart, on)
            (behind-Settled true dir _ (redirect-Settled dir (env.set_error dir) on refl))
      | inr off ↦
          rw (apart, off)
            (behind-Settled (any_of (probed env) dirs) dir _ (try_candidates-Settled dirs stuck))
    ]
  ]

  probed-Settled :
      Settled
        (probed env)
        (any_of (probed env) (current ∷ candidates env))
        (ensure_writable_cache_dir env current)
      × ((probed env current ≡ true)
          → ((ensure_writable_cache_dir env current).1 ≡ none)
            × (cache_dir_after current (ensure_writable_cache_dir env current).0 ≡ current))
  unfolding ensure_writable_cache_dir any_of
  probed-Settled = elim (Bool-cases (probed env current)) [
    | inl on ↦
        let kept = probe-keeps env current current in
        rw on (
          ((λ _. rw (kept, on) refl), (λ bad. absurd (bad refl)), λ _. (λ _. refl, λ _. refl)),
          λ _. (refl, kept),
        )
    | inr off ↦ rw off (
      behind-Settled (any_of (probed env) (candidates env)) current _
          (try_candidates-Settled (candidates env) off),
      λ bad. cc,
    )
  ]

  -- A cache directory that is writable, that is one with a name, which can be made
  -- and takes a probe file, is kept. Otherwise the directory after a success is writable
  -- and after an error it is the one before; and there is a success, unless rclone refuses a
  -- directory, exactly when the current directory, that of the root user, or the one in the
  -- temporary directory is writable.
  pub ensure_writable_cache_dir-Settled :
      Settled
        (writable env)
        (any_of (writable env) (current ∷ asked_dirs env))
        (ensure_writable_cache_dir env current)
      × ((writable env current ≡ true)
          → ((ensure_writable_cache_dir env current).1 ≡ none)
            × (cache_dir_after current (ensure_writable_cache_dir env current).0 ≡ current))
  ensure_writable_cache_dir-Settled =
      subst
        (λ (is_writable : Text → Bool).
          Settled is_writable (any_of is_writable (current ∷ asked_dirs env))
            (ensure_writable_cache_dir env current)
          × ((is_writable current ≡ true)
              → ((ensure_writable_cache_dir env current).1 ≡ none)
                × (cache_dir_after current (ensure_writable_cache_dir env current).0 ≡ current)))
        (fun_ext (probed_is_writable env))
        (subst
          (λ (dirs : List Text).
            Settled (probed env) (any_of (probed env) (current ∷ dirs))
              (ensure_writable_cache_dir env current)
            × ((probed env current ≡ true)
                → ((ensure_writable_cache_dir env current).1 ≡ none)
                  × (cache_dir_after current (ensure_writable_cache_dir env current).0 ≡ current)))
          (asked_candidates env) probed-Settled)
