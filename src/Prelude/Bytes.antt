-- ===== src/Prelude/Bytes.antt =====
-- One byte of a word replaced by shifts and masks, as the bus does it.
use Prim.Native.Nat.{ℕ, zero, suc, ◌+◌, ◌*◌, ◌-◌, ◌/◌, ◌%◌, ◌<◌, bit_and, bit_or}
use mathlib.Core.Path.{◌≡◌, ◌∙◌, sym, ap, ap₂}
use maps.Prelude.Tests.{◌==◌, if◌then◌else◌}
use maps.Prelude.Word.{not32, shl32, shr}
use maps.Prelude.Digits.{
  power, bit_and-Joins, bit_or-Joins, bit_and_mask, bit_and-zero, bit_or-zero, bit_or_disjoint,
  power_pos,
}
use native.Mathlib.Nat.{div-add-mod', mod-lt, mod-mod}
use native.Mathlib.Omega.{arith}

-- Byte `i` of a word, from the lowest on.
abbrev pub byte_of : ℕ → ℕ → ℕ
byte_of w i = shr w (i * 8) % 256

-- The byte cleared, and put.
abbrev pub set_byte : ℕ → ℕ → ℕ → ℕ
set_byte w i v = bit_or (bit_and w (not32 (shl32 0xff (i * 8)))) (shl32 v (i * 8))

module _ (k t w : ℕ) where
  abbrev p : ℕ
  p = power k

  abbrev above : ℕ
  above = w / p / 256 % power t

  cleared : bit_and w ((power t - 1) * 256 * p + (p - 1)) ≡ above * 256 * p + w % p
  cleared =
      let pos = power_pos k in
      let parts : w ≡ w / p * p + w % p = sym (div-add-mod' w p) in
      let parts' : w / p ≡ w / p / 256 * 256 + w / p % 256 = omega arith in
      let mask' : (power t - 1) * 256 ≡ (power t - 1) * 256 + 0 = omega arith in
      let upper : bit_and (w / p) ((power t - 1) * 256) ≡ above * 256 =
        ap₂ bit_and parts' mask'
        ∙ bit_and-Joins 8 (w / p / 256) (power t - 1) (w / p % 256) 0 (omega arith) (omega arith)
        ∙ ap₂ (λ x y. x * 256 + y) (bit_and_mask t (w / p / 256)) (bit_and-zero (w / p % 256))
        ∙ omega arith in
      ap (λ x. bit_and x ((power t - 1) * 256 * p + (p - 1))) parts
      ∙ bit_and-Joins k (w / p) ((power t - 1) * 256) (w % p) (p - 1) (mod-lt w pos)
          (omega (arith, pos))
      ∙ ap₂ (λ x y. x * p + y) upper (bit_and_mask k (w % p) ∙ mod-mod w p)

  replaced :
      (v : ℕ)
      → v < 256
      → bit_or (bit_and w ((power t - 1) * 256 * p + (p - 1))) (v * p)
        ≡ (above * 256 + v) * p + w % p
  replaced v h =
      let pos = power_pos k in
      let byte : v * p ≡ v * p + 0 = omega arith in
      let free : above * 256 % 256 ≡ 0 = omega arith in
      ap₂ bit_or cleared byte
      ∙ bit_or-Joins k (above * 256) v (w % p) 0 (mod-lt w pos) pos
      ∙ ap₂ (λ x y. x * p + y) (bit_or_disjoint 8 (above * 256) v free h) (bit_or-zero (w % p))

-- The word with the byte put, for each of the four.
abbrev placed : ℕ → ℕ → ℕ → ℕ → ℕ → ℕ
placed k t w v p = (w / p / 256 % power t * 256 + v) * p + w % p

set_byte_zero : (w v : ℕ) → v < 256 → set_byte w 0 v ≡ placed 0 24 w v 1
set_byte_zero w v h =
    let shifted : shl32 v 0 ≡ v * 1 = omega arith in
    ap (λ x. bit_or (bit_and w (not32 (shl32 0xff 0))) x) shifted ∙ replaced 0 24 w v h

set_byte_one : (w v : ℕ) → v < 256 → set_byte w 1 v ≡ placed 8 16 w v 256
set_byte_one w v h =
    let shifted : shl32 v 8 ≡ v * 256 = omega arith in
    ap (λ x. bit_or (bit_and w (not32 (shl32 0xff 8))) x) shifted ∙ replaced 8 16 w v h

set_byte_two : (w v : ℕ) → v < 256 → set_byte w 2 v ≡ placed 16 8 w v 65536
set_byte_two w v h =
    let shifted : shl32 v 16 ≡ v * 65536 = omega arith in
    ap (λ x. bit_or (bit_and w (not32 (shl32 0xff 16))) x) shifted ∙ replaced 16 8 w v h

set_byte_three : (w v : ℕ) → v < 256 → set_byte w 3 v ≡ placed 24 0 w v 16777216
set_byte_three w v h =
    let shifted : shl32 v 24 ≡ v * 16777216 = omega arith in
    ap (λ x. bit_or (bit_and w (not32 (shl32 0xff 24))) x) shifted ∙ replaced 24 0 w v h

bytes_zero :
    (w v j : ℕ)
    → j < 4
    → v < 256
    → byte_of (placed 0 24 w v 1) j ≡ (if 0 == j then v else byte_of w j)
bytes_zero w v zero h hv = omega arith
bytes_zero w v (suc zero) h hv = omega arith
bytes_zero w v (suc (suc zero)) h hv = omega arith
bytes_zero w v (suc (suc (suc zero))) h hv = omega arith
bytes_zero w v (suc (suc (suc (suc j)))) h hv = absurd (omega arith)

bytes_one :
    (w v j : ℕ)
    → j < 4
    → v < 256
    → byte_of (placed 8 16 w v 256) j ≡ (if 1 == j then v else byte_of w j)
bytes_one w v zero h hv = omega arith
bytes_one w v (suc zero) h hv = omega arith
bytes_one w v (suc (suc zero)) h hv = omega arith
bytes_one w v (suc (suc (suc zero))) h hv = omega arith
bytes_one w v (suc (suc (suc (suc j)))) h hv = absurd (omega arith)

bytes_two :
    (w v j : ℕ)
    → j < 4
    → v < 256
    → byte_of (placed 16 8 w v 65536) j ≡ (if 2 == j then v else byte_of w j)
bytes_two w v zero h hv = omega arith
bytes_two w v (suc zero) h hv = omega arith
bytes_two w v (suc (suc zero)) h hv = omega arith
bytes_two w v (suc (suc (suc zero))) h hv = omega arith
bytes_two w v (suc (suc (suc (suc j)))) h hv = absurd (omega arith)

bytes_three :
    (w v j : ℕ)
    → j < 4
    → v < 256
    → byte_of (placed 24 0 w v 16777216) j ≡ (if 3 == j then v else byte_of w j)
bytes_three w v zero h hv = omega arith
bytes_three w v (suc zero) h hv = omega arith
bytes_three w v (suc (suc zero)) h hv = omega arith
bytes_three w v (suc (suc (suc zero))) h hv = omega arith
bytes_three w v (suc (suc (suc (suc j)))) h hv = absurd (omega arith)

-- Byte by byte: the byte has the new value, and the others are as before.
pub byte_of-set_byte :
    (w i j v : ℕ)
    → i < 4
    → j < 4
    → v < 256
    → byte_of (set_byte w i v) j ≡ (if i == j then v else byte_of w j)
byte_of-set_byte w zero j v hi hj hv =
    ap (λ x. byte_of x j) (set_byte_zero w v hv) ∙ bytes_zero w v j hj hv
byte_of-set_byte w (suc zero) j v hi hj hv =
    ap (λ x. byte_of x j) (set_byte_one w v hv) ∙ bytes_one w v j hj hv
byte_of-set_byte w (suc (suc zero)) j v hi hj hv =
    ap (λ x. byte_of x j) (set_byte_two w v hv) ∙ bytes_two w v j hj hv
byte_of-set_byte w (suc (suc (suc zero))) j v hi hj hv =
    ap (λ x. byte_of x j) (set_byte_three w v hv) ∙ bytes_three w v j hj hv
byte_of-set_byte w (suc (suc (suc (suc i)))) j v hi hj hv = absurd (omega arith)
