-- ===== src/Base.antt =====
-- What every component shares: the library names passed on, Boolean tests, signed integers and
-- Go's int32, list helpers over the native numbers, and Go's maps as association lists.
mod Tests
mod Lists
mod Int
mod Decimal
pub mod Bytes
pub mod Assoc
unfoldable pub use Tests.*
pub use Lists.*
unfoldable pub use Decimal.*
unfoldable pub use Int.*
pub use Prim.Native.Nat.{ℕ, zero, suc, ◌+◌, ◌-◌, ◌*◌, ◌/◌, ◌%◌, ◌^◌, ◌≤◌, ◌<◌}
pub use Prim.Native.String.{String}
pub use mathlib.Core.Path.{◌≡◌, refl, sym, ap, subst, ◌∙◌}
pub use mathlib.Core.Logic.{◌≢◌, ◌↔◌, ◌⊎◌, inl, inr}
pub use mathlib.Core.Bool.{Bool, true, false, not, ◌&&◌, ◌||◌}
pub use mathlib.Core.Option.{Option, none, some}
pub use mathlib.Core.List.{List, [], ◌∷◌, ◌++◌, map, append-nil, append_assoc}
pub use native.Mathlib.Omega.{arith}
