-- ===== src/Common.antt =====
-- The names that the other modules share: those of the libraries, passed on, and the children's
-- Boolean tests, lists, byte strings, integers and Go-style errors.
mod Tests
mod Lists
mod Bytes
mod Errors
mod Decimal
pub mod Int
pub use Tests.*
pub use Lists.*
unfoldable pub use Bytes.*
pub use Errors.*
unfoldable pub use Decimal.{
  digits_from, itoa, itoa_ℤ, parse_digits, parse_number, to_positive, to_negative, atoi,
}
unfoldable pub use Decimal.Laws.{IsInt64}
pub use Decimal.Laws.{atoi-itoa_ℤ}
pub use Prim.Native.Nat.{ℕ, zero, suc, ◌+◌, ◌-◌, ◌*◌, ◌/◌, ◌%◌, ◌^◌, ◌≤◌, ◌<◌}
pub use mathlib.Core.Path.{◌≡◌, refl, sym, ap, subst, ◌∙◌}
pub use mathlib.Core.Logic.{◌≢◌, ◌↔◌, ◌⊎◌, inl, inr}
pub use mathlib.Core.Bool.{Bool, true, false, not, ◌&&◌, ◌||◌}
pub use mathlib.Core.Option.{Option, none, some}
pub use mathlib.Core.List.{List, [], ◌∷◌, ◌++◌, map, reverse}
pub use native.Mathlib.Omega.{arith}
