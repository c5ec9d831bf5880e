-- ===== src/Prelude.antt =====
-- The names that the other modules share: the libraries', passed on, and those of the children.
mod Tests
mod Lists
mod Results
mod Digits
mod Bytes
pub mod Bits
pub mod Word
pub use Tests.*
pub use Lists.*
pub use Results.*
pub use Bits.{bit_and_three, bit_and_byte, bit_and-multiple}
pub use Bytes.{byte_of, set_byte, byte_of-set_byte}
pub use Digits.{
  bit_and_mask, bit_and_mask_high, bit_or_disjoint, bit_or_disjoint_right, bit_xor-Joins,
  bit_xor-zero, bit_xor-zero_left, power,
}
pub use Word.{u8, u16, u32, u64, sub32, not32, shl32, shr, signed_ltb, sar32}
pub use Prim.Native.Nat.{ℕ, zero, suc, ◌+◌, ◌-◌, ◌*◌, ◌/◌, ◌%◌, ◌^◌, ◌≤◌, ◌<◌, min}
pub use Prim.Native.Nat.{bit_and, bit_or, bit_xor}
pub use mathlib.Core.Path.{◌≡◌, refl, sym, ap, ap₂, subst, ◌∙◌, fun_ext}
pub use mathlib.Core.Logic.{◌≢◌, ◌↔◌, ◌⊎◌, inl, inr}
pub use mathlib.Core.Bool.{Bool, true, false, not, ◌&&◌, ◌||◌}
pub use mathlib.Core.Option.{Option, none, some}
pub use mathlib.Core.List.{List, [], ◌∷◌, ◌++◌, map}
pub use native.Mathlib.Omega.{arith}

-- A pointer: null, or to the one object of its type that the operation is handed.
pub data Ptr : Type 0 where
  null bound : Ptr

abbrev pub is_null : Ptr → Bool
is_null null = true
is_null bound = false
