-- ===== src/Base.antt =====
-- Names, tests, lists and maps that the models share. Go's `int` is a number here, a slice is a
-- list, and a Go map is an association list (Base/Maps).
mod Tests
mod Lists
pub mod Classes
pub mod Maps
pub mod Bits
pub mod Counts
pub mod Int
pub mod Distinct
pub use Tests.*
pub use Lists.*
pub use Int.{ℤ, pos, negsuc, neg, int_beq, int_eq}
pub use Classes.{Eq, ◌==◌, nat_eq, text_eq}
pub use Maps.{Map}
pub use Prim.Native.Nat.{ℕ, zero, suc, ◌+◌, ◌-◌, ◌*◌, ◌/◌, ◌%◌, ◌^◌, ◌≤◌, ◌<◌}
pub use mathlib.Core.Path.{◌≡◌, refl, sym, ap, ◌∙◌}
pub use mathlib.Core.Logic.{◌≢◌, ◌↔◌, ◌⊎◌, inl, inr}
pub use mathlib.Core.Bool.{Bool, true, false, not, ◌&&◌, ◌||◌}
pub use mathlib.Core.Option.{Option, none, some}
pub use mathlib.Core.List.{List, [], ◌∷◌, ◌++◌, map, append_assoc, append-nil}
pub use native.Mathlib.Omega.{arith}
