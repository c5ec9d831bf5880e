-- ===== src/Cpu/Decode.antt =====
-- The fields and immediates of an instruction.
use maps.Prelude.{ℕ, ◌-◌, ◌*◌, ◌^◌, bit_and, bit_or, bit_xor, sub32, shr, u32}

unfoldable pub opcode_of : ℕ → ℕ
opcode_of inst = bit_and inst 0x7f

unfoldable pub rd_of : ℕ → ℕ
rd_of inst = bit_and (shr inst 7) 0x1f

unfoldable pub funct3_of : ℕ → ℕ
funct3_of inst = bit_and (shr inst 12) 0x7

unfoldable pub rs1_of : ℕ → ℕ
rs1_of inst = bit_and (shr inst 15) 0x1f

unfoldable pub rs2_of : ℕ → ℕ
rs2_of inst = bit_and (shr inst 20) 0x1f

unfoldable pub funct7_of : ℕ → ℕ
funct7_of inst = bit_and (shr inst 25) 0x7f

unfoldable pub sign_extend : ℕ → ℕ → ℕ
sign_extend value bits = let sign = u32 (2 ^ (bits - 1)) in sub32 (bit_xor value sign) sign

unfoldable pub imm_i : ℕ → ℕ
imm_i inst = sign_extend (shr inst 20) 12

unfoldable pub imm_s : ℕ → ℕ
imm_s inst =
    sign_extend (bit_or (bit_and (shr inst 7) 0x1f) (u32 (bit_and (shr inst 25) 0x7f * 2 ^ 5))) 12

unfoldable pub imm_b : ℕ → ℕ
imm_b inst =
    sign_extend
      (bit_or
        (bit_or
          (bit_or (u32 (bit_and (shr inst 31) 0x1 * 2 ^ 12))
            (u32 (bit_and (shr inst 7) 0x1 * 2 ^ 11)))
          (u32 (bit_and (shr inst 25) 0x3f * 2 ^ 5)))
        (u32 (bit_and (shr inst 8) 0xf * 2 ^ 1)))
      13

unfoldable pub imm_u : ℕ → ℕ
imm_u inst = bit_and inst 0xfffff000

unfoldable pub imm_j : ℕ → ℕ
imm_j inst =
    sign_extend
      (bit_or
        (bit_or
          (bit_or (u32 (bit_and (shr inst 31) 0x1 * 2 ^ 20))
            (u32 (bit_and (shr inst 12) 0xff * 2 ^ 12)))
          (u32 (bit_and (shr inst 20) 0x1 * 2 ^ 11)))
        (u32 (bit_and (shr inst 21) 0x3ff * 2 ^ 1)))
      21
