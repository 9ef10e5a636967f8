-- ===== src/Base.antt =====
-- The names that the other modules share: the libraries', passed on, and those of the children.
mod Tests
mod Lists
mod Texts
mod Sort
mod Int
mod Unicode
mod Errors
pub use Tests.*
pub use Lists.*
pub use Texts.{
  Text, codes, eq_text, lt_text, cut_prefix, eq_text→eq, eq_text_refl, cut_prefix-append,
  lt_text_irrefl, lt_text_trans, lt_text_total, lt_text_asym, lt_text_cotrans,
}
unfoldable pub use Texts.{join}
pub use Sort.{
  keep, IsSortedBy, IsWeakOrder, insert_stable, sort_stable-perm, sort_stable-All, keep-sort_stable,
  sort_stable-IsSortedBy, sort_stable-In, any-sort_stable, map-sort_stable,
}
unfoldable pub use Sort.{sort_stable}
pub use Int.*
unfoldable pub use Unicode.{valid_utf8, is_blank, is_trimmed, runes, trim_space, fields}
pub use Unicode.{Rune, rune, invalid, is_control, is_space}
pub use Errors.*
pub use Prim.Native.Nat.{ℕ, zero, suc, ◌+◌, ◌-◌, ◌*◌, ◌/◌, ◌%◌, ◌^◌, ◌≤◌, ◌<◌, min}
pub use Prim.Native.String.{String}
pub use mathlib.Core.Path.{◌≡◌, refl, sym, ap, ◌∙◌}
pub use mathlib.Core.Logic.{◌≢◌, ◌↔◌, ◌⊎◌, inl, inr}
pub use mathlib.Core.Bool.{Bool, true, false, not, ◌&&◌, ◌||◌}
pub use mathlib.Core.Option.{Option, none, some}
pub use mathlib.Core.List.{List, [], ◌∷◌, ◌++◌, map, reverse}
pub use native.Mathlib.Omega.{arith}
