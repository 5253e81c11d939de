-- ===== src/Prelude.antt =====
-- What every module shares: library names passed on, Boolean tests on the native numbers,
-- the list measures, and the fixed-width and clock arithmetic of the Go code.
mod Tests
mod Lists
mod Strings
pub mod Words
pub mod Decimal
pub mod Integers
pub use Tests.*
pub use Lists.*
unfoldable pub use Strings.{is_space, str_eq, str_mem, trim, lower, upper}
pub use Strings.{
  IsSolid, trim-solid, Str, codes, eq_iff, str_eq_refl, str_eq-ne, str_eq_sym, trim-trim,
  trim-lower,
}
pub use Strings.{upper-lower, lower-lower}
pub use Prim.Native.Nat.{ℕ, zero, suc, ◌+◌, ◌-◌, ◌*◌, ◌/◌, ◌%◌, ◌^◌, ◌≤◌, ◌<◌}
pub use mathlib.Core.Path.{◌≡◌, refl, sym, ap, ◌∙◌}
pub use mathlib.Core.Logic.{◌≢◌, ◌↔◌, ◌⊎◌, inl, inr}
pub use mathlib.Core.Bool.{Bool, true, false, not, ◌&&◌, ◌||◌}
pub use mathlib.Core.Option.{Option, none, some}
pub use mathlib.Core.List.{List, [], ◌∷◌, ◌++◌, map}
pub use native.Mathlib.Omega.{arith}
