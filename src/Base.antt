-- ===== src/Base.antt =====
-- Names that every module of the development shares: the libraries', passed on, and those of the
-- children (tests on numbers, lists, table queries and their laws, handlers).
pub mod Tests
pub mod Lists
pub mod Table
pub mod Queries
pub mod Keys
pub mod KeyedWrites
pub mod Apart
pub mod Reversal
pub mod Handler
pub use Tests.*
pub use Lists.*
unfoldable pub use Table.*
pub use Queries.*
pub use Keys.*
pub use KeyedWrites.*
pub use Apart.*
pub use Reversal.*
pub use Handler.*
pub use Prim.Native.Nat.{ℕ, zero, suc, ◌+◌, ◌-◌, ◌*◌, ◌/◌, ◌%◌, ◌^◌, ◌≤◌, ◌<◌}
pub use mathlib.Core.Path.{◌≡◌, refl, sym, ap, subst, ◌∙◌}
pub use mathlib.Core.Logic.{◌≢◌, ◌↔◌, ◌⊎◌, inl, inr}
pub use mathlib.Core.Bool.{Bool, true, false, not, ◌&&◌, ◌||◌}
pub use mathlib.Core.Option.{Option, none, some}
pub use mathlib.Core.List.{List, [], ◌∷◌, ◌++◌, map, reverse}
pub use native.Mathlib.Omega.{arith}
