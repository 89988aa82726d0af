-- ===== src/Base.antt =====
-- Names that every component shares: those of the libraries, passed on, and the tests, list
-- operations, texts and error values of the children.
mod Tests
mod Lists
pub mod Texts
pub mod Errors
pub mod Int
pub mod Paths
pub use Tests.*
unfoldable pub use Lists.*
pub use Errors.{
  Sentinel, Arg, str, num, int, GoError, sentinel, message, wrap, join, retry, retry_after, is,
  is_retryable, Result, ok, err, Result-cases, tag,
}
pub use Texts.{Text, codes, text_eq_iff, text_eq_refl, is_empty}
unfoldable pub use Texts.{text_eq, has_prefix, trim_prefix}
pub use Prim.Native.Nat.{ℕ, zero, suc, ◌+◌, ◌-◌, ◌*◌, ◌/◌, ◌%◌, ◌^◌, ◌≤◌, ◌<◌}
pub use mathlib.Core.Path.{◌≡◌, refl, sym, ap, ◌∙◌, subst}
pub use mathlib.Core.Logic.{◌≢◌, ◌↔◌, ◌⊎◌, inl, inr}
pub use mathlib.Core.Bool.{Bool, true, false, ◌&&◌, ◌||◌, not}
pub use mathlib.Core.Option.{Option, none, some}
pub use mathlib.Core.List.{List, [], ◌∷◌, ◌++◌, map, map-append, reverse, append_assoc, append-nil}
pub use native.Mathlib.Omega.{arith}
