-- ===== src/Base.antt =====
-- The names that the components share: the libraries', passed on, and those of the children.
-- A byte, a u16, a u32 and an instant are native numbers; widths are written out where they wrap.
mod Tests
mod Lists
mod Cells
mod Words
mod Results
pub mod Assoc
pub mod Stateful
pub mod NumSet
pub use Tests.*
pub use Lists.*
pub use Cells.*
pub use Words.*
pub use Results.*
pub use Prim.Native.Nat.{ℕ, zero, suc, ◌+◌, ◌-◌, ◌*◌, ◌/◌, ◌%◌, ◌^◌, ◌≤◌, ◌<◌, min, max}
pub use mathlib.Core.Path.{◌≡◌, refl, sym, ap, ap₂, subst, ◌∙◌}
pub use mathlib.Core.Logic.{◌≢◌, ◌↔◌, ◌⊎◌, inl, inr}
pub use mathlib.Core.Bool.{Bool, true, false, not, ◌&&◌, ◌||◌}
pub use mathlib.Core.Option.{Option, none, some}
pub use mathlib.Core.List.{List, [], ◌∷◌, ◌++◌, map, append-nil, append_assoc}
pub use native.Mathlib.Omega.{arith}
