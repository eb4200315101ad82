-- ===== src/Base.antt =====
-- The names that the other modules share: the libraries', passed on, and those of the children.
pub mod Tests
pub mod Int
pub mod Lists
pub mod Text
pub mod Dict
pub mod Sorting
pub use Tests.*
pub use Int.*
pub use Lists.*
pub use Text.{
  Str, codes, str_beq_refl, str_beq_iff, str_eq, str_lt_asymm, str_lt_irrefl, str_lt_trans,
  str_lt_connex, trim_space_twice, is_empty,
}
unfoldable pub use Int.{◌+ℤ◌}
unfoldable pub use Text.{
  str_beq, str_lt, has_prefix, trim_left, trim_right, trim_space, to_lower, before_byte, itoa,
}
pub use Prim.Native.Nat.{ℕ, zero, suc, ◌+◌, ◌-◌, ◌*◌, ◌/◌, ◌%◌, ◌^◌, ◌≤◌, ◌<◌}
pub use Prim.Native.String.{String}
pub use mathlib.Core.Path.{◌≡◌, refl, sym, ap, subst, ◌∙◌}
pub use mathlib.Core.Logic.{◌≢◌, ◌↔◌, ◌⊎◌, inl, inr}
pub use mathlib.Core.Bool.{Bool, true, false, not, ◌&&◌, ◌||◌}
pub use mathlib.Core.Option.{Option, none, some}
pub use mathlib.Core.List.{List, [], ◌∷◌, ◌++◌, map}
pub use native.Mathlib.Omega.{arith}
