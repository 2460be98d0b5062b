-- ===== src/Base.antt =====
-- The names that the other modules share: the libraries', passed on, and those of the children
-- Tests (Boolean tests on numbers), Lists (lists over the native numbers), Strings (strings of bytes,
-- as std::string and byte_str of core/byte.h) and Int (signed numbers).
mod Tests
mod Lists
mod Strings
mod Table
pub mod Bits
pub mod Dict
pub mod Int
pub mod Compare
pub use Tests.*
pub use Lists.*
pub use Strings.{Bytes, codes, All, IsBytes, bytes_eq_iff, All-append}
unfoldable pub use Strings.{bytes_eq, bytes_lt}
unfoldable pub use Table.{table}
pub use Table.{table_lem}
pub use Prim.Native.Nat.{ℕ, zero, suc, ◌+◌, ◌-◌, ◌*◌, ◌/◌, ◌%◌, ◌^◌, ◌≤◌, ◌<◌, min}
pub use mathlib.Core.Path.{◌≡◌, refl, sym, ap, subst, ◌∙◌}
pub use mathlib.Core.Logic.{◌≢◌, ◌↔◌, ◌⊎◌, inl, inr}
pub use mathlib.Core.Bool.{Bool, true, false, not, ◌&&◌, ◌||◌}
pub use mathlib.Core.Option.{Option, none, some}
pub use mathlib.Core.List.{List, [], ◌∷◌, ◌++◌, map, append-nil, append_assoc}
pub use native.Mathlib.Omega.{arith}
unfoldable pub use native.Mathlib.Decide.{dec_lt, ℕ_discrete}
