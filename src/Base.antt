-- ===== src/Base.antt =====
-- The names that every part shares: the libraries', passed on, and those of the children.
mod Tests
mod Lists
mod Integers
mod Bytes
mod Maps
mod Sorting
mod Best
mod Apart
mod Keyed
mod Search
mod Results
mod Paging
mod Spaces
mod Decimal
mod Columns
pub use Tests.*
pub use Lists.*
unfoldable pub use Integers.*
unfoldable pub use Bytes.*
unfoldable pub use Maps.*
unfoldable pub use Decimal.*
pub use Columns.*
unfoldable pub use Sorting.*
pub use Keyed.*
pub use Apart.*
unfoldable pub use Best.*
unfoldable pub use Search.*
pub use Results.*
unfoldable pub use Paging.*
unfoldable pub use Spaces.*
pub use Prim.Native.Nat.{ℕ, zero, suc, ◌+◌, ◌-◌, ◌*◌, ◌/◌, ◌%◌, ◌^◌, ◌≤◌, ◌<◌, min}
pub use mathlib.Core.Path.{◌≡◌, refl, sym, ap, subst, ◌∙◌}
pub use mathlib.Core.Logic.{◌≢◌, ◌↔◌, ◌⊎◌, inl, inr}
pub use mathlib.Core.Bool.{Bool, true, false, not, ◌&&◌, ◌||◌}
pub use mathlib.Core.Option.{Option, none, some}
pub use mathlib.Core.List.{List, [], ◌∷◌, ◌++◌, map, Memᴰ}
pub use native.Mathlib.Omega.{arith}
