-- ===== src/Cmd/Probe/Exit.antt =====
-- The exit code of cmd/posture-probe/main.go.
use ocu_rclone_filestore.Base.{
  List, [], ◌∷◌, ◌++◌, ◌≢◌, ℕ, Text, Bool, true, false, ◌&&◌, ◌≡◌, ◌⊎◌, inl, inr, ◌↔◌, refl, sym,
  ap, ◌∙◌, arith, Option, none, some, GoError, is, Sentinel, Result, ok, err, text_eq, text_eq_iff,
  Bool-cases,
}
use ocu_rclone_filestore.Base.Paths.{join_path}
use ocu_rclone_filestore.Cmd.Probe.{
  FileAction, made_probe, removed_probe, rootfs_probe_dir, rootfs_probe, tmpfs_probe_dir,
  tmpfs_probe, probe_text, ProbeEnv, Arm, ok_detail, open_verdict, probe_read_only_at, read_verdict,
  write_arm, probe_writable_at, VerdictEnv, VerdictAction, VerdictRun, write_verdict, verdict_line,
  code_of, run, main,
}
use ocu_rclone_filestore.Cmd.Probe.Atomic.{
  before, files_after, Fails, IsAtomic, write_verdict-IsAtomic,
}

-- A create fails with EROFS.
abbrev pub IsReadOnly : ProbeEnv → Text → Type 0
IsReadOnly env dir =
    (e : GoError) × (env.open_error (join_path dir rootfs_probe) ≡ some e)
    × (is e Sentinel.read_only_file_system ≡ true)

-- The probe's text can be written, and is read back as it was.
abbrev pub IsWritable : ProbeEnv → Text → Type 0
IsWritable env dir =
    (env.write_error (join_path dir tmpfs_probe) ≡ none)
    × (env.read_file (join_path dir tmpfs_probe) ≡ ok probe_text)

-- An arm passes exactly under this condition, and then its detail is `ok`.
abbrev pub Tests : Arm → Type 0 → Type 0
Tests (passed, detail) P = ((passed ≡ true) ↔ P) × ((passed ≡ true) → detail ≡ ok_detail)

probe_read_only_at-Tests :
    (env : ProbeEnv) (dir : Text) → Tests (probe_read_only_at env dir).1 (IsReadOnly env dir)
unfolding probe_read_only_at
probe_read_only_at-Tests env dir = of_open (env.open_error (join_path dir rootfs_probe))
  where
    of_open :
        (e : Option GoError)
        → Tests
            (open_verdict env (join_path dir rootfs_probe) e).1
            ((f : GoError) × (e ≡ some f) × (is f Sentinel.read_only_file_system ≡ true))
    of_open none = ((λ h. cc, λ (f, bad, _). absurd (ground arith)), λ h. cc)
    of_open (some e) = elim (Bool-cases (is e Sentinel.read_only_file_system)) [
      | inl h ↦ rw h ((λ _. (e, refl, h), λ _. refl), λ _. refl)
      | inr h ↦ rw h ((λ bad. cc, λ (f, same, erofs). absurd (ground arith)), λ bad. cc)
    ]

read_verdict-Tests :
    (env : ProbeEnv) (r : Result Text) → Tests (read_verdict env r) (r ≡ ok probe_text)
read_verdict-Tests env (err e) = ((λ h. cc, λ h. cc), λ h. cc)
read_verdict-Tests env (ok got) = elim (Bool-cases (text_eq got probe_text)) [
  | inl h ↦ rw h ((λ _. ap ok ((text_eq_iff got probe_text).0 h), λ _. refl), λ _. refl)
  | inr h ↦ rw h ((λ bad. cc, λ same. absurd (differ same h)), λ bad. cc)
]
  where
    differ : ok got ≡ ok probe_text → text_eq got probe_text ≡ false → ⊥
    differ same h =
        let eq : got ≡ probe_text = ground arith in
        true_false (sym ((text_eq_iff got probe_text).1 eq) ∙ h)
      where
        true_false : true ≡ false → ⊥
        true_false bad = cc

probe_writable_at-Tests :
    (env : ProbeEnv) (dir : Text) → Tests (probe_writable_at env dir).1 (IsWritable env dir)
unfolding probe_writable_at
probe_writable_at-Tests env dir = of_write (env.write_error (join_path dir tmpfs_probe))
  where
    of_write :
        (e : Option (Bool × GoError))
        → Tests
            (write_arm env (join_path dir tmpfs_probe) e).1
            ((e ≡ none) × (env.read_file (join_path dir tmpfs_probe) ≡ ok probe_text))
    of_write none =
        let ((down, up), detail) =
          read_verdict-Tests env (env.read_file (join_path dir tmpfs_probe)) in
        ((λ h. (refl, down h), λ (_, same). up same), detail)
    of_write (some e) = ((λ h. cc, λ (bad, _). cc), λ h. cc)

-- The verdict file after the actions, from before them.
abbrev pub verdict_after : Option Text → List VerdictAction → Option Text
verdict_after old actions = (files_after actions (before old)).verdict

-- What the probe of these arms comes to.
abbrev pub Outcome : VerdictEnv → Type 0 → Type 0 → Option Text → List VerdictAction × ℕ → Type 0
Outcome env P Q old (actions, code) =
    ((code ≡ 2) × Fails env × (verdict_after old actions ≡ old))
    ⊎ ((code ≡ 0) × P × Q × (verdict_after old actions ≡ some (verdict_line ok_detail ok_detail)))
    ⊎ ((code ≡ 1)
        × (P → Q → ⊥)
        × ((d : Text) × (e : Text) × (verdict_after old actions ≡ some (verdict_line d e))))

run-Outcome :
    (env : VerdictEnv) (old : Option Text) (P Q : Type 0) (files more : List FileAction) (a b : Arm)
    → Tests a P
    → Tests b Q
    → Outcome env P Q old ((run env (files, a) (more, b)).1, (run env (files, a) (more, b)).2)
unfolding run
run-Outcome env old P Q files more (p, d) (q, e) ((p_down, p_up), p_ok) ((q_down, q_up), q_ok) =
    of_verdict (write_verdict env (verdict_line d e))
      (write_verdict-IsAtomic env (verdict_line d e) old) p q p_down p_up p_ok q_down q_up q_ok
  where
    of_verdict :
        (r : VerdictRun)
        → IsAtomic env (verdict_line d e) old r
        → (p q : Bool) → ((p ≡ true) → P)
        → (P → p ≡ true)
        → ((p ≡ true) → d ≡ ok_detail)
        → ((q ≡ true) → Q)
        → (Q → q ≡ true)
        → ((q ≡ true) → e ≡ ok_detail)
        → Outcome env P Q old (code_of (p && q) r)
    of_verdict (actions, some f) (_, good, bad, _, inl clean) p q p_down p_up p_ok q_down q_up
          q_ok =
        cc
    of_verdict (actions, some f) (_, good, bad, _, inr fails) p q p_down p_up p_ok q_down q_up
          q_ok =
        inl (refl, fails, bad (λ h. cc))
    of_verdict (actions, none) (_, good, bad, _, _) true true p_down p_up p_ok q_down q_up q_ok =
        inr (inl (refl, p_down refl, q_down refl, good refl ∙ rw (p_ok refl, q_ok refl) refl))
    of_verdict (actions, none) (_, good, bad, _, _) false q p_down p_up p_ok q_down q_up q_ok =
        inr (inr (refl, (λ h k. (let no = p_up h in cc)), (d, e, good refl)))
    of_verdict (actions, none) (_, good, bad, _, _) true false p_down p_up p_ok q_down q_up q_ok =
        inr (inr (refl, (λ h k. (let no = q_up k in cc)), (d, e, good refl)))

-- The removal of each probe file is called for right after it is made.
abbrev pub AllRemoved : List FileAction → Type 0
AllRemoved [] = Unit
AllRemoved (made_probe p ∷ removed_probe q ∷ rest) = (p ≡ q) × AllRemoved rest
AllRemoved (made_probe p ∷ []) = ⊥
AllRemoved (made_probe p ∷ made_probe q ∷ rest) = ⊥
AllRemoved (removed_probe q ∷ rest) = ⊥

arms_clean_up :
    (env : ProbeEnv) (p q : Text) (e : Option GoError) (f : Option (Bool × GoError))
    → AllRemoved ((open_verdict env p e).0 ++ (write_arm env q f).0) ⊎ (f ≢ none)
arms_clean_up env p q none none = inl (refl, (refl, tt))
arms_clean_up env p q (some e) none = inl (refl, tt)
arms_clean_up env p q e (some f) = inr (λ bad. cc)

-- The probe exits with 0 only when a create under the image root fails with EROFS and its text can
-- be written under the cache tmpfs and is read back as it was, and then the verdict file says `ok`
-- twice; with 1 only when one of the two is not so, and then the verdict file has a verdict; and with
-- 2 only when a step of writing the verdict failed, the verdict file as it was. The removal of each
-- probe file that is made is called for, unless the write of one failed.
pub main-Outcome :
    (env : VerdictEnv) (probes : ProbeEnv) (old : Option Text)
    → Outcome env
        (IsReadOnly probes rootfs_probe_dir)
        (IsWritable probes tmpfs_probe_dir)
        old
        ((main env probes).1, (main env probes).2)
      × (AllRemoved (main env probes).0
          ⊎ (probes.write_error (join_path tmpfs_probe_dir tmpfs_probe) ≢ none))
unfolding main
main-Outcome env probes old =
    let a = probe_read_only_at probes rootfs_probe_dir in
    let b = probe_writable_at probes tmpfs_probe_dir in
    (
      run-Outcome env old _ _ a.0 b.0 a.1 b.1 (probe_read_only_at-Tests probes rootfs_probe_dir)
          (probe_writable_at-Tests probes tmpfs_probe_dir),
      arms_clean_up probes (join_path rootfs_probe_dir rootfs_probe)
          (join_path tmpfs_probe_dir tmpfs_probe)
          (probes.open_error (join_path rootfs_probe_dir rootfs_probe))
          (probes.write_error (join_path tmpfs_probe_dir tmpfs_probe)),
    )
