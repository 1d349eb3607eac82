-- ===== src/Base.antt =====
-- The names that the other modules share: the libraries', passed on, and those of the children.
mod Tests
mod Lists
mod Bytes
mod Bits
mod Results
pub use Tests.*
pub use Lists.*
unfoldable pub use Bytes.{le_bytes, from_le, get_u16, get_u32, get_u64}
pub use Bytes.{
  IsBytes, IsBytes-read, IsBytes-take, IsBytes-drop, length-le_bytes, from_le-le_bytes,
  le_bytes-from_le, put_u16, put_u32, put_u64, le_bytes-get_u16, le_bytes-get_u32, le_bytes-get_u64,
  from_le-read_lt, get_u16_lt, get_u32_lt, get_u64_lt,
}
pub use Results.*
unfoldable pub use Bits.{tag_difference}
pub use Bits.{tag_difference_iff, passes_under_lem}
unfoldable pub use Bits.{passes_under}
pub use Prim.Native.Nat.{ℕ, zero, suc, ◌+◌, ◌-◌, ◌*◌, ◌/◌, ◌%◌, ◌^◌, ◌≤◌, ◌<◌, min, max}
pub use mathlib.Core.Path.{◌≡◌, refl, sym, ap, subst, ◌∙◌}
pub use mathlib.Core.Logic.{◌≢◌, ◌↔◌, ◌⊎◌, inl, inr}
pub use mathlib.Core.Bool.{Bool, true, false, not, ◌&&◌, ◌||◌}
pub use mathlib.Core.Option.{Option, none, some}
pub use mathlib.Core.List.{List, [], ◌∷◌, ◌++◌, map, append-nil, append_assoc}
pub use native.Mathlib.Omega.{arith}
unfoldable pub use native.Mathlib.Decide.{dec_lt, dec_le, ℕ_discrete}
