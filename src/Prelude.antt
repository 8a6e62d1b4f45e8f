-- ===== src/Prelude.antt =====
-- The names that the other modules share: the libraries', passed on, and those of the children.
mod Tests
mod Eq
mod Lists
mod Maps
mod Results
mod Searches
mod Strings
pub use Tests.*
pub use Eq.{
  EqOps, ◌==◌, nat_eq, bool_eq, list_eq, pair_eq, eq_of_beq, beq_of_eq, ne_of_beq, beq_of_ne,
  contains-of_mem, mem_of-contains, mem-eq-contains, contains-append,
}
unfoldable pub use Eq.{contains, list_beq}
pub use Lists.*
pub use Maps.*
unfoldable pub use Maps.{lookup, insert, delete}
pub use Results.*
pub use Searches.*
pub use Strings.*
unfoldable pub use Strings.{
  has_prefix, cut, count_char, is_space, trim_left, trim_right, trim_space, split, join, text_lt,
  sort_insert, sort_strings,
}
pub use Prim.Native.Nat.{ℕ, zero, suc, ◌+◌, ◌-◌, ◌*◌, ◌/◌, ◌%◌, ◌^◌, ◌≤◌, ◌<◌}
pub use Prim.Native.String.{String}
pub use mathlib.Core.Path.{◌≡◌, refl, sym, ap, ◌∙◌, subst, fun_ext}
pub use mathlib.Core.Logic.{◌≢◌, ◌↔◌, ◌⊎◌, inl, inr}
pub use mathlib.Core.Bool.{Bool, true, false, not, ◌&&◌, ◌||◌}
pub use mathlib.Core.Option.{Option, none, some}
pub use mathlib.Core.List.{List, [], ◌∷◌, ◌++◌, map, Memᴰ}
pub use native.Mathlib.Omega.{arith}
