-- ===== src/Base.antt =====
-- What the modules share: names of the libraries, tests on numbers, strings as bytes, and lists.
mod Tests
mod Strings
mod Lists
mod Dict
pub mod Decimal
pub mod Trim
pub use Tests.*
pub use Strings.{Bytes, codes, slash, is_space}
unfoldable pub use Strings.{
  eqb, has_prefix, trim_prefix, has_suffix, trim_suffix, contains, trim_left, trim_space, str_leb,
}
pub use Strings.{
  eqb→eq, eqb_refl, eqb_iff, eqb_comm, has_prefix-append, has_prefix_split, has_prefix_iff,
  has_prefix_trans, trim_prefix-append, str_leb_total, str_leb_trans, str_leb_antisymm,
  str_leb-append,
}
unfoldable pub use Lists.{any, keep, elem, insert_sorted, sort}
pub use Lists.{
  length, All, any-append, length-append, All-append, All-keep, All-map, any_found, any-sort,
  any-insert_sorted, length-sort, IsSorted, sort-IsSorted,
}
unfoldable pub use Dict.{lookup, insert, keep_keys, values}
pub use Dict.{lookup-insert, lookup-keep_keys}
pub use Prim.Native.Nat.{ℕ, zero, suc, ◌+◌, ◌-◌, ◌*◌, ◌/◌, ◌%◌, ◌^◌, ◌≤◌, ◌<◌}
pub use mathlib.Core.Path.{◌≡◌, refl, sym, ap, ◌∙◌, fun_ext}
pub use mathlib.Core.Logic.{◌≢◌, ◌↔◌, ◌⊎◌, inl, inr}
pub use mathlib.Core.Bool.{Bool, true, false, not, ◌&&◌, ◌||◌}
pub use mathlib.Core.Option.{Option, none, some}
pub use mathlib.Core.List.{List, [], ◌∷◌, ◌++◌, map, reverse, append_assoc}
pub use native.Mathlib.Omega.{arith}
