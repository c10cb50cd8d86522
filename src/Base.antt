-- ===== src/Base.antt =====
-- The names that the other modules share: the libraries', passed on, the Boolean tests, results
-- with errors, and lists and bytes over the native numbers.
mod Tests
mod Outcome
mod Lists
mod Bytes
mod Int
mod Bits
mod Masks
mod Words
mod Modular
pub use Tests.*
pub use Outcome.*
pub use Lists.*
unfoldable pub use Bytes.*
unfoldable pub use Bits.*
pub use Masks.*
pub use Words.*
pub use Modular.*
unfoldable pub use Int.*
pub use Prim.Native.Nat.{ℕ, zero, suc, ◌+◌, ◌-◌, ◌*◌, ◌/◌, ◌%◌, ◌^◌, ◌≤◌, ◌<◌}
pub use mathlib.Core.Path.{◌≡◌, refl, sym, ap, ◌∙◌}
pub use mathlib.Core.Logic.{◌≢◌, ◌↔◌, ◌⊎◌, inl, inr}
pub use mathlib.Core.Bool.{Bool, true, false, not, ◌&&◌, ◌||◌}
pub use mathlib.Core.Option.{Option, none, some}
pub use mathlib.Core.List.{List, [], ◌∷◌, ◌++◌, map, append-nil, append_assoc}
pub use native.Mathlib.Omega.{arith}
