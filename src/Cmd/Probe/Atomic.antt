-- ===== src/Cmd/Probe/Atomic.antt =====
-- writeVerdict of cmd/posture-probe/main.go over the states of its two files.
use ocu_rclone_filestore.Base.{
  ℕ, Text, ◌≡◌, ◌≢◌, ◌⊎◌, inl, inr, refl, arith, Option, none, some, GoError, List, [], ◌∷◌, ◌++◌,
  All,
}
use ocu_rclone_filestore.Cmd.Probe.{
  VerdictEnv, VerdictAction, made_dir, created_temp, closed_temp, removed_temp, renamed, wrote_temp,
  VerdictRun, write_verdict,
}

-- The contents of the verdict file and of the temporary file, where `none` is a missing file.
pub record Files : Type 0 where
  pub verdict : Option Text
  pub temp : Option Text

abbrev pub appended : Option Text → Text → Option Text
appended none t = none
appended (some old) t = some (old ++ t)

abbrev pub after_action : VerdictAction → Files → Files
after_action made_dir fs = fs
after_action created_temp fs = record fs { temp = some [] }
after_action (wrote_temp t) fs = record fs { temp = appended fs.temp t }
after_action closed_temp fs = fs
after_action removed_temp fs = record fs { temp = none }
after_action renamed fs = record fs { verdict = fs.temp; temp = none }

-- The files after each action, and after all of them.
unfoldable pub states : List VerdictAction → Files → List Files
states [] fs = []
states (a ∷ actions) fs = after_action a fs ∷ states actions (after_action a fs)

unfoldable pub files_after : List VerdictAction → Files → Files
files_after [] fs = fs
files_after (a ∷ actions) fs = files_after actions (after_action a fs)

-- The temporary file is not left behind, but for a rename or a removal that failed.
abbrev pub LeavesNothing : VerdictEnv → Files → Type 0
LeavesNothing env fs = (fs.temp ≡ none) ⊎ (env.rename_error ≢ none) ⊎ (env.remove_error ≢ none)

-- One of the steps up to the rename fails.
abbrev pub Fails : VerdictEnv → Type 0
Fails env =
    (env.mkdir_error ≢ none)
    ⊎ (env.create_error ≢ none)
    ⊎ (env.write_error ≢ none)
    ⊎ (env.close_error ≢ none)
    ⊎ (env.rename_error ≢ none)

abbrev pub before : Option Text → Files
before old = record { verdict = old; temp = none }

-- A reader finds, after each action, the verdict file as it was or the whole line; at the end it is
-- the line on success and as it was on an error; no temporary file is left; and an error is that of a
-- step that failed.
abbrev pub IsAtomic : VerdictEnv → Text → Option Text → VerdictRun → Type 0
IsAtomic env line old (actions, error) =
    All (λ (fs : Files). (fs.verdict ≡ old) ⊎ (fs.verdict ≡ some line))
      (states actions (before old))
    × ((error ≡ none) → (files_after actions (before old)).verdict ≡ some line)
    × ((error ≢ none) → (files_after actions (before old)).verdict ≡ old)
    × LeavesNothing env (files_after actions (before old))
    × ((error ≡ none) ⊎ Fails env)

abbrev env_of :
    Option GoError
    → Option GoError
    → Option (ℕ × GoError)
    → Option GoError
    → Option GoError
    → Option GoError
    → VerdictEnv
env_of mk cr wr cl rm rn = record {
  mkdir_error = mk;
  create_error = cr;
  write_error = wr;
  close_error = cl;
  remove_error = rm;
  rename_error = rn;
}

atomic :
    (line : Text) (old : Option Text)
    → (mk cr : Option GoError) (wr : Option (ℕ × GoError)) (cl rm rn : Option GoError)
    → IsAtomic (env_of mk cr wr cl rm rn) line old (write_verdict (env_of mk cr wr cl rm rn) line)
unfolding write_verdict states files_after
atomic line old (some e) cr wr cl rm rn =
    (tt, (λ h. cc), (λ _. refl), inl refl, inr (inl (λ bad. cc)))
atomic line old none (some e) wr cl rm rn =
    ((inl refl, tt), (λ h. cc), (λ _. refl), inl refl, inr (inr (inl (λ bad. cc))))
atomic line old none none (some (n, e)) cl none rn = (
  (inl refl, (inl refl, (inl refl, (inl refl, (inl refl, tt))))),
  (λ h. cc),
  (λ _. refl),
  inl refl,
  inr (inr (inr (inl (λ bad. cc)))),
)
atomic line old none none (some (n, e)) cl (some f) rn = (
  (inl refl, (inl refl, (inl refl, (inl refl, tt)))),
  (λ h. cc),
  (λ _. refl),
  inr (inr (λ bad. cc)),
  inr (inr (inr (inl (λ bad. cc)))),
)
atomic line old none none none (some e) none rn = (
  (inl refl, (inl refl, (inl refl, (inl refl, (inl refl, tt))))),
  (λ h. cc),
  (λ _. refl),
  inl refl,
  inr (inr (inr (inr (inl (λ bad. cc))))),
)
atomic line old none none none (some e) (some f) rn = (
  (inl refl, (inl refl, (inl refl, (inl refl, tt)))),
  (λ h. cc),
  (λ _. refl),
  inr (inr (λ bad. cc)),
  inr (inr (inr (inr (inl (λ bad. cc))))),
)
atomic line old none none none none rm (some e) = (
  (inl refl, (inl refl, (inl refl, (inl refl, tt)))),
  (λ h. cc),
  (λ _. refl),
  inr (inl (λ bad. cc)),
  inr (inr (inr (inr (inr (λ bad. cc))))),
)
atomic line old none none none none rm none = (
  (inl refl, (inl refl, (inl refl, (inl refl, (inr (ground arith), tt))))),
  (λ _. ground arith),
  (λ bad. absurd (bad refl)),
  inl refl,
  inl refl,
)

-- Whatever fails, and however much of the line a failed write has written: a reader finds, after
-- each action, the verdict file as it was before or the whole line; after the last action it is the
-- whole line when there was no error, and as it was before when there was one; no temporary file is
-- left, unless the rename failed, or the removal that a failed write or close calls for; and there is
-- an error only when one of the steps failed, other than that removal.
pub write_verdict-IsAtomic :
    (env : VerdictEnv) (line : Text) (old : Option Text)
    → IsAtomic env line old (write_verdict env line)
write_verdict-IsAtomic env line old =
    atomic line old env.mkdir_error env.create_error env.write_error env.close_error
      env.remove_error env.rename_error
