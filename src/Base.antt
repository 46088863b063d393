-- ===== src/Base.antt =====
-- The names that the other modules share: those of the libraries, passed on, and those of the
-- children: Boolean tests, lists, finite maps, byte strings, the integers.
mod Tests
mod Lists
mod Maps
mod Options
mod Sort
mod Fill
mod Bytes
pub mod Int
pub mod Result
pub use Tests.*
pub use Lists.*
pub use Options.*
pub use Bytes.*
unfoldable pub use Sort.{insert_by, sort_by}
pub use Fill.{IsBelow, length_full, length_below, length_missing}
pub use Sort.{head?, IsLeast, head-sort_by}
unfoldable pub use Maps.{lookup, insert, remove}
pub use Maps.{
  contains, IsMap, lookup-insert, lookup-insert_cases, lookup-remove, lookup_absent,
  length-insert_absent, length-insert_present, length-remove_present, length-remove_absent,
  insert-IsMap, remove-IsMap, length-remove-le, length-remove-lt, lookup_empty,
}
pub use Prim.Native.Nat.{ℕ, zero, suc, ◌+◌, ◌-◌, ◌*◌, ◌/◌, ◌%◌, ◌^◌, ◌≤◌, ◌<◌, min, max}
pub use mathlib.Core.Path.{◌≡◌, refl, sym, ap, ◌∙◌, subst}
pub use mathlib.Core.Logic.{◌≢◌, ◌↔◌, ◌⊎◌, inl, inr}
pub use mathlib.Core.Bool.{Bool, true, false, not, ◌&&◌, ◌||◌}
pub use mathlib.Core.Option.{Option, none, some}
pub use mathlib.Core.List.{List, [], ◌∷◌, ◌++◌, map, append_assoc, append-nil}
pub use native.Mathlib.Omega.{arith}
