-- ===== src/Prelude.antt =====
-- The names that the other modules share: the libraries', passed on, and those of two children.
mod Tests
mod Lists
pub use Tests.*
unfoldable pub use Lists.{where_rows, first_row, update_where, row_count}
pub use Lists.{
  length, any, all, All, Grows, Grows-refl, Grows-append, Grows-trans, Grows-map,
  Grows-update_where,
}
pub use Lists.{In, All-map, All-In, first_row-In, In-where_rows}
pub use Lists.{All-update_where, All-append, All-first_row, first_row_sound}
pub use Lists.{
  update_where_none, length-update_where, In-Grows, Grows-In, first_row-eq-none, where_rows-In,
  All-Grows, In-update_where,
}
pub use Lists.{
  first_row-update, row_count_mono, row_count_pos, first_row-append, row_count-update_where,
}
pub use Prim.Native.Nat.{ℕ, zero, suc, ◌+◌, ◌-◌, ◌*◌, ◌/◌, ◌%◌, ◌≤◌, ◌<◌, min, max}
pub use Prim.Native.String.{String}
pub use mathlib.Core.Path.{◌≡◌, refl, sym, ap, ◌∙◌, subst}
pub use mathlib.Core.Logic.{◌≢◌, ◌↔◌, ◌⊎◌, inl, inr}
pub use mathlib.Core.Bool.{Bool, true, false, not, ◌&&◌, ◌||◌}
pub use mathlib.Core.Option.{Option, none, some}
pub use mathlib.Core.List.{List, [], ◌∷◌, ◌++◌, map}
pub use native.Mathlib.Omega.{arith}
pub use text.Mathlib.Text.{◌==◌}
pub use text.Mathlib.TextEquality.{eq_iff}
pub use text.Mathlib.TextPositions.{eq_refl}
