-- ===== src/Base/Errors.antt =====
-- Go error values: the sentinels that `errors.Is` is asked about, in this repository and in the
-- rclone `fs` package, and the wrappers that `fmt.Errorf`, `errors.Join` and rclone's retry marks
-- build. A formatted message keeps its format text and its arguments apart.
use Prim.Native.Nat.{ℕ}
use Prim.Native.String.{String}
use mathlib.Core.Bool.{Bool, true, false, ◌||◌}
use mathlib.Core.List.{List}
use mathlib.Core.Logic.{◌⊎◌, inl, inr}
use mathlib.Core.Path.{◌≡◌, refl}
use ocu_rclone_filestore.Base.Int.{ℤ}
use ocu_rclone_filestore.Base.Tests.{◌==◌}
use ocu_rclone_filestore.Base.Texts.{Text}

pub data Sentinel : Type 0 where
  -- internal/brokerrpc/errors.go
  permission_denied invalid_argument not_found already_exists permanent_other : Sentinel
  -- rclone's fs package
  fs_permission_denied fs_object_not_found fs_dir_not_found fs_is_dir : Sentinel
  fs_cant_copy fs_cant_move fs_cant_dir_move fs_cant_set_mod_time : Sentinel
  -- internal/mounter/realpoint.go, io.ErrClosedPipe and syscall.ENOTCONN
  detach_did_not_return mount_method_unavailable closed_pipe not_connected : Sentinel
  -- os.IsNotExist
  not_exist : Sentinel
  -- syscall.EROFS
  read_only_file_system : Sentinel
  -- rclone's hash package
  hash_unsupported : Sentinel

abbrev pub tag : Sentinel → ℕ
tag permission_denied = 0
tag invalid_argument = 1
tag not_found = 2
tag already_exists = 3
tag permanent_other = 4
tag fs_permission_denied = 5
tag fs_object_not_found = 6
tag fs_dir_not_found = 7
tag fs_is_dir = 8
tag fs_cant_copy = 9
tag fs_cant_move = 10
tag fs_cant_dir_move = 11
tag fs_cant_set_mod_time = 12
tag detach_did_not_return = 13
tag mount_method_unavailable = 14
tag closed_pipe = 15
tag not_connected = 16
tag not_exist = 17
tag read_only_file_system = 18
tag hash_unsupported = 19

-- An argument of a format: a text, a number, or an int64.
pub data Arg : Type 0 where
  str : Text → Arg
  num : ℕ → Arg
  int : ℤ → Arg

pub data GoError : Type 0 where
  sentinel : Sentinel → GoError
  -- errors.New, and fmt.Errorf with no %w
  message : String → List Arg → GoError
  -- fmt.Errorf with one %w
  wrap : String → List Arg → GoError → GoError
  -- errors.Join, and fmt.Errorf with two %w
  join : GoError → GoError → GoError
  -- fserrors.RetryError, and fserrors.NewErrorRetryAfter with its nanoseconds
  retry : GoError → GoError
  retry_after : ℕ → GoError

-- errors.Is(err, target)
abbrev pub is : GoError → Sentinel → Bool
is (sentinel s) t = tag s == tag t
is (message m args) t = false
is (wrap m args e) t = is e t
is (join d e) t = is d t || is e t
is (retry e) t = is e t
is (retry_after d) t = false

-- The error carries rclone's retry mark somewhere in its chain.
abbrev pub is_retryable : GoError → Bool
is_retryable (sentinel s) = false
is_retryable (message m args) = false
is_retryable (wrap m args e) = is_retryable e
is_retryable (join d e) = is_retryable d || is_retryable e
is_retryable (retry e) = true
is_retryable (retry_after d) = false

-- A Go result pair `(value, error)`, where one of the two is nil.
pub data Result {ℓ} (A : Type ℓ) : Type ℓ where
  ok : A → Result A
  err : GoError → Result A

pub Result-cases {ℓ} :
    {A : Type ℓ} (r : Result A) → ((a : A) × (r ≡ ok a)) ⊎ ((e : GoError) × (r ≡ err e))
Result-cases (ok a) = inl (a, refl)
Result-cases (err e) = inr (e, refl)
