-- ===== src/Common.antt =====
-- The names that the other modules share: the libraries', passed on, and those of the children.
mod Tests
mod Lists
mod Keys
mod Dict
mod Clock
pub use Tests.*
pub use Lists.*
unfoldable pub use Clock.*
unfoldable pub use Keys.{str_lt, codes_lt}
pub use Keys.{str_lt_irrefl, str_lt_trans, str_lt_total, str_lt_asymm}
unfoldable pub use Dict.{Assoc, lookup, insert, remove, IsKey, IsMap}
pub use Dict.{
  lookup-insert, lookup-remove, lookup-IsKey, lookup_absent, insert-IsKey, remove-IsKey,
  insert-IsMap, remove-IsMap,
}
pub use Prim.Native.Nat.{ℕ, zero, suc, ◌+◌, ◌-◌, ◌*◌, ◌≤◌, ◌<◌, min, max}
pub use Prim.Native.String.{String}
pub use mathlib.Core.Path.{◌≡◌, refl, sym, ap, ◌∙◌}
pub use mathlib.Core.Logic.{◌≢◌, ◌↔◌, ◌⊎◌, inl, inr}
pub use mathlib.Core.Bool.{Bool, true, false, not, ◌&&◌, ◌||◌}
pub use mathlib.Core.Option.{Option, none, some}
pub use mathlib.Core.List.{List, [], ◌∷◌, ◌++◌, map}
pub use native.Mathlib.Omega.{arith}
pub use text.Mathlib.Text.{◌==◌}
pub use text.Mathlib.TextEquality.{eq_iff}
pub use text.Mathlib.TextPositions.{eq_refl}
