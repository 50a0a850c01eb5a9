-- ===== src/Prelude.antt =====
-- The names that the other modules share: the libraries', passed on, and those of the children.
mod Tests
mod Lists
mod Strings
pub mod Assoc
pub mod Int
pub mod Sort
pub mod Distinct
mod Results
pub use Results.*
pub use Tests.*
pub use Lists.*
pub use Strings.{
  Text, text_ltb_irrefl, text_ltb_trans, text_ltb-total, text_ltb-asym, text_ltb-not_less_trans,
  text_eq_iff, text_eq_refl, text_eq_instance,
}
unfoldable pub use Strings.{text_eq, text_ltb, is_blank, trim_space, lit}
pub use Prim.Native.Nat.{ℕ, zero, suc, ◌+◌, ◌-◌, ◌*◌, ◌/◌, ◌%◌, ◌^◌, ◌≤◌, ◌<◌, min, max}
pub use mathlib.Core.Path.{◌≡◌, refl, sym, ap, subst, fun_ext, ◌∙◌}
pub use mathlib.Core.Logic.{◌≢◌, ◌↔◌, ◌⊎◌, inl, inr}
pub use mathlib.Core.Bool.{Bool, true, false, not, ◌&&◌, ◌||◌}
pub use mathlib.Core.Option.{Option, none, some}
pub use mathlib.Core.List.{List, [], ◌∷◌, ◌++◌, map, append-nil, append_assoc}
pub use native.Mathlib.Omega.{arith}
