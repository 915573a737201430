-- ===== src/Base.antt =====
-- The names that the other modules share: the libraries', passed on, and those of the children.
pub mod Tests
pub mod Lists
pub mod Word
pub mod Effect
pub mod Bits
pub mod Pow2
pub use Tests.*
pub use Lists.*
pub use Effect.*
unfoldable pub use Word.{
  usize_mod, usize_max, isize_max, add_usize, sub_usize, mul_usize, not_usize, checked_add,
  checked_mul, saturating_add, saturating_sub, saturating_mul, power_below, is_power_of_two,
  power_from, checked_next_power_of_two, IsPow2,
}
pub use Prim.Native.Nat.{ℕ, zero, suc, ◌+◌, ◌-◌, ◌*◌, ◌/◌, ◌%◌, ◌^◌, ◌≤◌, ◌<◌, min, max, bit_and}
pub use mathlib.Core.Path.{◌≡◌, refl, sym, ap, ap₂, subst, ◌∙◌}
pub use mathlib.Core.Logic.{◌≢◌, ◌↔◌, ◌⊎◌, inl, inr}
pub use mathlib.Core.Bool.{Bool, true, false, ◌&&◌, ◌||◌, not}
pub use mathlib.Core.Option.{Option, none, some}
pub use mathlib.Core.List.{List, [], ◌∷◌, ◌++◌, map}
pub use native.Mathlib.Omega.{arith}
