-- ===== src/Common.antt =====
-- Names that every part shares: the libraries', passed on, and those of the children, which model
-- what the program uses of Go itself (integers, strings, maps, decimal and base64 conversions).
mod Tests
mod Lists
pub mod Int
pub mod Text
pub mod Dict
pub mod Outcome
pub mod Progress
pub mod Decimal
pub mod Base64
pub mod Encoding
pub use Tests.*
pub use Lists.*
pub use Int.{ℤ, pos, negsuc}
pub use Prim.Native.Nat.{ℕ, zero, suc, ◌+◌, ◌-◌, ◌*◌, ◌/◌, ◌%◌, ◌^◌, ◌≤◌, ◌<◌}
pub use mathlib.Core.Path.{◌≡◌, refl, sym, ap, ◌∙◌}
pub use mathlib.Core.Logic.{◌≢◌, ◌↔◌, ◌⊎◌, inl, inr}
pub use mathlib.Core.Bool.{Bool, true, false, not, ◌&&◌, ◌||◌}
pub use mathlib.Core.Option.{Option, none, some}
pub use mathlib.Core.List.{List, [], ◌∷◌, ◌++◌, map, append-nil, append_assoc}
pub use native.Mathlib.Omega.{arith}
