-- ===== src/Common.antt =====
-- The names that every module shares: those of the libraries, passed on, and the helpers of the
-- children (Boolean tests, lists over the native numbers, bytes and words, the result type).
mod Tests
mod Lists
mod Fallible
mod Buffer
mod Sets
unfoldable pub use Tests.*
unfoldable pub use Lists.*
unfoldable pub use Fallible.*
unfoldable pub use Buffer.*
unfoldable pub use Sets.*
pub use Prim.Native.Nat.{ℕ, zero, suc, ◌+◌, ◌-◌, ◌*◌, ◌/◌, ◌%◌, ◌^◌, ◌≤◌, ◌<◌, min}
pub use mathlib.Core.Path.{◌≡◌, refl, sym, ap, ◌∙◌, subst}
pub use mathlib.Core.Logic.{◌≢◌, ◌↔◌, ◌⊎◌, inl, inr}
pub use mathlib.Core.Bool.{Bool, true, false, not, ◌&&◌, ◌||◌}
pub use mathlib.Core.Option.{Option, none, some}
pub use mathlib.Core.List.{List, [], ◌∷◌, ◌++◌, map, append_assoc, append-nil}
pub use native.Mathlib.Omega.{arith}
