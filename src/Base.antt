-- ===== src/Base.antt =====
-- The names that every component shares: the libraries' names, passed on, with the Boolean
-- tests, the list functions and the text functions of the children.
mod Tests
mod Lists
mod Text
mod Maps
mod Sets
mod Trims
mod Splits
unfoldable pub use Tests.*
unfoldable pub use Lists.*
unfoldable pub use Sets.*
pub use Trims.*
pub use Splits.*
unfoldable pub use Maps.*
unfoldable pub use Text.*
pub use Prim.Native.Nat.{ℕ, zero, suc, ◌+◌, ◌-◌, ◌*◌, ◌/◌, ◌%◌, ◌≤◌, ◌<◌, min, max}
pub use mathlib.Core.Path.{◌≡◌, refl, sym, ap, ◌∙◌, subst}
pub use mathlib.Core.Logic.{◌≢◌, ◌↔◌, ◌⊎◌, inl, inr}
pub use mathlib.Core.Bool.{Bool, true, false, not, ◌&&◌, ◌||◌}
pub use mathlib.Core.Option.{Option, none, some}
pub use mathlib.Core.List.{List, [], ◌∷◌, ◌++◌, map, reverse, append_assoc, append-nil}
pub use native.Mathlib.Omega.{arith}
