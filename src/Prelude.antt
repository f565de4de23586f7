-- ===== src/Prelude.antt =====
-- The names that the other modules share: the libraries', passed on, and those of the children.
mod Tests
mod Lists
mod Text
pub mod Order
pub mod Split
pub mod Result
pub mod Integer
pub use Tests.*
pub use Lists.*
unfoldable pub use Text.{to_ascii_lowercase, eq_ignore_ascii_case, parse_usize, is_digit}
pub use Text.{
  beq, beq_refl, eq_of_beq, codes, starts_with, starts_with_refl, parse_digits, lower,
  eq_of_eq_ignore_ascii_case, eq_ignore_ascii_case_of_eq, parse_usize_of_letter,
}
pub use Prim.Native.Nat.{
  ℕ, zero, suc, ◌+◌, ◌-◌, ◌*◌, ◌/◌, ◌%◌, ◌^◌, ◌≤◌, ◌<◌, min, max, compare, Ordering,
}
pub use Prim.Native.String.{String}
pub use mathlib.Core.Path.{◌≡◌, refl, sym, ap, subst, fun_ext, ◌∙◌}
pub use mathlib.Core.Logic.{◌≢◌, ◌↔◌, ◌⊎◌, inl, inr}
pub use mathlib.Core.Bool.{Bool, true, false, not, ◌&&◌, ◌||◌}
pub use mathlib.Core.Option.{Option, none, some}
pub use mathlib.Core.List.{List, [], ◌∷◌, ◌++◌, map}
pub use native.Mathlib.Omega.{arith}
