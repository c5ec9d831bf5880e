-- ===== src/Prelude/Bits.antt =====
-- Masks of a fixed width, on words.
use Prim.Native.Nat.{ℕ, ◌+◌, ◌*◌, ◌/◌, ◌%◌, ◌<◌, bit_and}
use mathlib.Core.Path.{◌≡◌, ◌∙◌, ap}
use maps.Prelude.Digits.{bit_and_mask, bit_and-Joins, bit_and-zero}
use maps.Prelude.Word.{not32}
use native.Mathlib.Omega.{arith}

pub bit_and_three : (a : ℕ) → bit_and a 3 ≡ a % 4
bit_and_three a = bit_and_mask 2 a

-- The mask of a byte keeps a byte.
pub bit_and_byte : (x : ℕ) → x < 256 → bit_and x 0xff ≡ x
bit_and_byte x h = bit_and_mask 8 x ∙ omega arith

-- A mask that clears the two low bits of a word.
pub bit_and-multiple : (value : ℕ) → bit_and value (not32 0x3) % 4 ≡ 0
bit_and-multiple value =
    let parts : value ≡ value / 4 * 4 + value % 4 = omega arith in
    let joined = bit_and-Joins 2 (value / 4) 1073741823 (value % 4) 0 (omega arith) (omega arith) in
    let low = bit_and-zero (value % 4) in
    let split : bit_and value (not32 0x3)
        ≡ bit_and (value / 4) 1073741823 * 4 + bit_and (value % 4) 0 =
      ap (λ v. bit_and v (not32 0x3)) parts ∙ joined in
    omega (arith, split, low)
