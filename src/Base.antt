-- ===== src/Base.antt =====
-- Shared names of the development: the libraries' names passed on, tests and lists over the native
-- numbers, comparators as Rust's `Ordering`, and the ordered map that stands for a `BTreeMap`.
mod Tests
mod Lists
mod Text
mod Strings
pub mod Comparator
pub mod OrdMap
pub use Tests.*
pub use Lists.*
pub use Text.*
pub use Strings.*
pub use Prim.Native.Nat.{ℕ, zero, suc, ◌+◌, ◌-◌, ◌*◌, ◌/◌, ◌%◌, ◌^◌, ◌≤◌, ◌<◌, min, max}
pub use Prim.Native.String.{String}
pub use mathlib.Core.Path.{◌≡◌, refl, sym, ap, ◌∙◌, subst}
pub use mathlib.Core.Logic.{◌≢◌, ◌↔◌, ◌⊎◌, inl, inr}
pub use mathlib.Core.Bool.{Bool, true, false, ◌&&◌, ◌||◌, not}
pub use mathlib.Core.Option.{Option, none, some}
pub use mathlib.Core.List.{List, [], ◌∷◌, ◌++◌, map}
pub use native.Mathlib.Omega.{arith}
