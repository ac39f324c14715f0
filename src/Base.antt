-- ===== src/Base.antt =====
-- The names that the other modules share: the libraries', passed on, and those of the children.
-- Booleans: tests on native numbers. Lists: lists measured by native numbers. Words: the wrap of
-- u32, u64 and i64. Int: signed integers. Assoc: `std::collections::HashMap` as an association
-- list. Sort: `slice::sort_by_key`, `dedup` and `partition_point`.
mod Booleans
mod Lists
mod Words
mod Int
mod Assoc
mod Sort
unfoldable pub use Booleans.*
unfoldable pub use Lists.*
unfoldable pub use Words.*
unfoldable pub use Int.*
unfoldable pub use Assoc.*
unfoldable pub use Sort.*
pub use Prim.Native.Nat.{ℕ, zero, suc, ◌+◌, ◌-◌, ◌*◌, ◌/◌, ◌%◌, ◌^◌, ◌≤◌, ◌<◌, min, max, bit_and}
pub use mathlib.Core.Path.{◌≡◌, refl, sym, ap, ap₂, subst, ◌∙◌}
pub use mathlib.Core.Logic.{◌≢◌, ◌↔◌, ◌⊎◌, inl, inr}
pub use mathlib.Core.Bool.{Bool, true, false, ◌&&◌, ◌||◌, not}
pub use mathlib.Core.Option.{Option, none, some}
pub use mathlib.Core.List.{List, [], ◌∷◌, ◌++◌, map, Perm, append-nil, append_assoc}
pub use native.Mathlib.Omega.{arith}
