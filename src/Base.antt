-- ===== src/Base.antt =====
-- The names that the components share: the libraries' names, passed on, tests on the native
-- numbers, Go maps and Go sets.
mod Tests
mod Maps
mod Sets
mod Sort
mod Rows
mod Tables
pub use Tests.*
unfoldable pub use Maps.*
unfoldable pub use Sets.*
unfoldable pub use Sort.*
unfoldable pub use Rows.*
unfoldable pub use Tables.*
pub use Prim.Native.Nat.{ℕ, zero, suc, ◌+◌, ◌-◌, ◌*◌, ◌/◌, ◌%◌, ◌≤◌, ◌<◌}
pub use mathlib.Core.Path.{◌≡◌, refl, sym, ap, subst, ◌∙◌}
pub use mathlib.Core.Logic.{◌≢◌, ◌↔◌, ◌⊎◌, inl, inr}
pub use mathlib.Core.Bool.{Bool, true, false, not, ◌&&◌, ◌||◌}
pub use mathlib.Core.Option.{Option, none, some}
pub use mathlib.Core.List.{List, [], ◌∷◌, ◌++◌, map}
pub use native.Mathlib.Omega.{arith}
