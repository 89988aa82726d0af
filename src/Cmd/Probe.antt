-- ===== src/Cmd/Probe.antt =====
-- cmd/posture-probe/main.go: the probe of the image's posture. What it does to the probe files, and
-- to the verdict file and its temporary file, are sequences of actions.
pub mod Atomic
pub mod Exit
use ocu_rclone_filestore.Base.{
  ℕ, Text, codes, Bool, true, false, ◌&&◌, Option, none, some, GoError, is, Sentinel, Result, ok,
  err, List, [], ◌∷◌, ◌++◌, is_empty, length, take, text_eq, if◌then◌else◌,
}
use ocu_rclone_filestore.Base.Paths.{slash, join_path}
use ocu_rclone_filestore.Posture.{cache_tmpfs}

abbrev pub rootfs_probe_dir : Text
rootfs_probe_dir = slash ∷ []

abbrev pub rootfs_probe : Text
rootfs_probe = codes "ocu-rootfs-probe"

abbrev pub tmpfs_probe_dir : Text
tmpfs_probe_dir = cache_tmpfs

abbrev pub tmpfs_probe : Text
tmpfs_probe = codes "ocu-tmpfs-probe"

abbrev pub probe_text : Text
probe_text = codes "ocu tmpfs writability probe\n"

-- The texts of an error and of a number, and the answers of os.OpenFile, os.WriteFile and
-- os.ReadFile for a path.
pub record ProbeEnv : Type 0 where
  pub error_text : GoError → Text
  pub decimal : ℕ → Text
  pub open_error : Text → Option GoError
  -- a write that fails may leave a file
  pub write_error : Text → Option (Bool × GoError)
  pub read_file : Text → Result Text

-- An arm: whether it passed, and the detail.
abbrev pub Arm : Type 0
Arm = Bool × Text

abbrev pub ok_detail : Text
ok_detail = codes "ok"

-- A probe file that an arm makes, and the deferred os.Remove of it, whose error is dropped.
pub data FileAction : Type 0 where
  made_probe removed_probe : Text → FileAction

abbrev pub Probed : Type 0
Probed = List FileAction × Arm

abbrev pub open_verdict : ProbeEnv → Text → Option GoError → Probed
open_verdict env probe none =
    (made_probe probe ∷ removed_probe probe ∷ [], (false, codes "writable(create-succeeded)"))
open_verdict env probe (some e) = (
  [],
  (if is e Sentinel.read_only_file_system
      then (true, ok_detail)
      else (false, codes "errno-not-erofs(" ++ env.error_text e ++ codes ")")),
)

unfoldable pub probe_read_only_at : ProbeEnv → Text → Probed
unfolding join_path
probe_read_only_at env dir =
    open_verdict env (join_path dir rootfs_probe) (env.open_error (join_path dir rootfs_probe))

abbrev pub mismatch : ProbeEnv → Text → Text
mismatch env got =
    codes "readback-mismatch("
    ++ env.decimal (length got)
    ++ codes "!="
    ++ env.decimal (length probe_text)
    ++ codes " bytes)"

abbrev pub read_verdict : ProbeEnv → Result Text → Arm
read_verdict env (err e) = (false, codes "readback-failed(" ++ env.error_text e ++ codes ")")
read_verdict env (ok got) =
    if text_eq got probe_text then (true, ok_detail) else (false, mismatch env got)

-- The removal is deferred only once the write has ended well.
abbrev pub write_arm : ProbeEnv → Text → Option (Bool × GoError) → Probed
write_arm env probe (some (left, e)) = (
  (if left then made_probe probe ∷ [] else []),
  (false, codes "write-failed(" ++ env.error_text e ++ codes ")"),
)
write_arm env probe none =
    (made_probe probe ∷ removed_probe probe ∷ [], read_verdict env (env.read_file probe))

unfoldable pub probe_writable_at : ProbeEnv → Text → Probed
unfolding join_path text_eq
probe_writable_at env dir =
    write_arm env (join_path dir tmpfs_probe) (env.write_error (join_path dir tmpfs_probe))

-- What the outside answers to writeVerdict; a failed write has written so many bytes before.
pub record VerdictEnv : Type 0 where
  pub mkdir_error : Option GoError
  pub create_error : Option GoError
  pub write_error : Option (ℕ × GoError)
  pub close_error : Option GoError
  -- os.Remove of the temporary file, whose error is dropped
  pub remove_error : Option GoError
  pub rename_error : Option GoError

pub data VerdictAction : Type 0 where
  made_dir created_temp closed_temp removed_temp renamed : VerdictAction
  wrote_temp : Text → VerdictAction

abbrev pub VerdictRun : Type 0
VerdictRun = List VerdictAction × Option GoError

abbrev pub behind_step : VerdictAction → VerdictRun → VerdictRun
behind_step a (actions, error) = (a ∷ actions, error)

abbrev pub removal : Option GoError → List VerdictAction
removal none = removed_temp ∷ []
removal (some e) = []

abbrev pub after_close : VerdictEnv → Option GoError → VerdictRun
after_close env (some e) = (removal env.remove_error, some e)
after_close env none = elim env.rename_error [ some e ↦ ([], some e) | none ↦ (renamed ∷ [], none) ]

abbrev pub after_write : VerdictEnv → Text → Option (ℕ × GoError) → VerdictRun
after_write env verdict (some (n, e)) =
    (wrote_temp (take n verdict) ∷ closed_temp ∷ removal env.remove_error, some e)
after_write env verdict none =
    behind_step (wrote_temp verdict) (behind_step closed_temp (after_close env env.close_error))

abbrev pub after_create : VerdictEnv → Text → Option GoError → VerdictRun
after_create env verdict (some e) = ([], some e)
after_create env verdict none = behind_step created_temp (after_write env verdict env.write_error)

abbrev pub after_mkdir : VerdictEnv → Text → Option GoError → VerdictRun
after_mkdir env verdict (some e) = ([], some e)
after_mkdir env verdict none = behind_step made_dir (after_create env verdict env.create_error)

unfoldable pub write_verdict : VerdictEnv → Text → VerdictRun
write_verdict env verdict = after_mkdir env verdict env.mkdir_error

unfoldable pub verdict_line : Text → Text → Text
verdict_line rootfs tmpfs =
    codes "ROOTFS_EROFS=" ++ rootfs ++ codes " TMPFS_WRITABLE=" ++ tmpfs ++ codes "\n"

abbrev pub code_of : Bool → VerdictRun → List VerdictAction × ℕ
code_of passed (actions, some e) = (actions, 2)
code_of passed (actions, none) = (actions, if passed then 0 else 1)

-- run: the actions on the probe files and on the verdict file, and the exit code; what goes to
-- stderr is left out.
unfoldable pub run : VerdictEnv → Probed → Probed → List FileAction × List VerdictAction × ℕ
unfolding write_verdict verdict_line
run env (files, (rootfs_ok, rootfs_detail)) (more, (tmpfs_ok, tmpfs_detail)) =
    let (actions, code) =
      code_of (rootfs_ok && tmpfs_ok)
        (write_verdict env (verdict_line rootfs_detail tmpfs_detail)) in
    (files ++ more, actions, code)

-- main, with the two arms of production; the path of the verdict is that of the environment
-- variable, or else the default.
unfoldable pub main : VerdictEnv → ProbeEnv → List FileAction × List VerdictAction × ℕ
unfolding run probe_read_only_at probe_writable_at
main env probes =
    run env (probe_read_only_at probes rootfs_probe_dir) (probe_writable_at probes tmpfs_probe_dir)

abbrev pub default_verdict : Text
default_verdict = codes "/run/ocu/posture-verdict"

unfoldable pub verdict_path : Text → Text
verdict_path env_val = if is_empty env_val then default_verdict else env_val
