-- ===== src/Cpu/Immediates.antt =====
-- The immediates of the five formats of RV32I, which `Cpu` takes from the bits of the word, in terms
-- of the fields.
use maps.Prelude.{
  ℕ, ◌+◌, ◌*◌, ◌/◌, ◌%◌, ◌<◌, ◌≡◌, ◌^◌, ap, ap₂, ◌∙◌, arith, u32, shr, bit_and, bit_or, power,
  bit_and_mask, bit_and_mask_high, bit_or_disjoint, bit_or_disjoint_right,
}
use maps.Cpu.Decode.{sign_extend, imm_i, imm_s, imm_b, imm_u, imm_j}
use maps.Cpu.Fields.{Fields, IsInstruction, assembled, signed_word, extended}

-- The four parts of a branch's or a jump's offset, at distinct bits.
joined_parts :
    (i j k a b c d : ℕ)
    → a % power i ≡ 0
    → b < power i
    → (a + b) % power j ≡ 0
    → c < power j
    → (a + b + c) % power k ≡ 0
    → d < power k
    → bit_or (bit_or (bit_or a b) c) d ≡ a + b + c + d
joined_parts i j k a b c d ha hb hab hc habc hd =
    ap (λ x. bit_or (bit_or x c) d) (bit_or_disjoint i a b ha hb)
    ∙ ap (λ x. bit_or x d) (bit_or_disjoint j (a + b) c hab hc)
    ∙ bit_or_disjoint k (a + b + c) d habc hd

-- The bits of the branch's and of the jump's offset, in the order of their weights.
abbrev pub branch_bits : Fields → ℕ
branch_bits f = f.rd / 2 * 2 + f.funct7 % 64 * 32 + f.rd % 2 * 2048 + f.funct7 / 64 * 4096

abbrev pub jump_bits : Fields → ℕ
jump_bits f =
    f.rs2 / 2 * 2
    + f.funct7 % 64 * 32
    + f.rs2 % 2 * 2048
    + (f.funct3 + f.rs1 * 8) * 4096
    + f.funct7 / 64 * 1048576

module _ (f : Fields) (ok : IsInstruction f) where
  abbrev w : ℕ
  w = assembled f

  pub imm_i_lem : imm_i w ≡ signed_word 2048 (f.rs2 + 32 * f.funct7)
  unfolding imm_i sign_extend
  imm_i_lem =
      let a = ok.opcode_fits in
      let b = ok.rd_fits in
      let c = ok.funct3_fits in
      let d = ok.rs1_fits in
      let e = ok.rs2_fits in
      let g = ok.funct7_fits in
      let bits : shr w 20 ≡ f.rs2 + 32 * f.funct7 = omega (arith, a, b, c, d) in
      ap (λ v. sign_extend v 12) bits
      ∙ extended 11 (f.rs2 + 32 * f.funct7) (omega (arith, e, g)) (omega arith)

  pub imm_s_lem : imm_s w ≡ signed_word 2048 (f.rd + 32 * f.funct7)
  unfolding imm_s sign_extend
  imm_s_lem =
      let a = ok.opcode_fits in
      let b = ok.rd_fits in
      let c = ok.funct3_fits in
      let d = ok.rs1_fits in
      let e = ok.rs2_fits in
      let g = ok.funct7_fits in
      let low : bit_and (shr w 7) 0x1f ≡ f.rd = bit_and_mask 5 (shr w 7) ∙ omega (arith, a, b) in
      let high : u32 (bit_and (shr w 25) 0x7f * 2 ^ 5) ≡ 32 * f.funct7 =
        ap (λ x. u32 (x * 2 ^ 5)) (bit_and_mask 7 (shr w 25)) ∙ omega (arith, a, b, c, d, e, g) in
      ap (λ v. sign_extend v 12)
        (ap₂ bit_or low high
          ∙ bit_or_disjoint_right 5 (32 * f.funct7) f.rd (omega arith) (omega (arith, b)))
      ∙ extended 11 (f.rd + 32 * f.funct7) (omega (arith, b, g)) (omega arith)

  pub imm_u_lem : imm_u w ≡ w / 4096 * 4096
  unfolding imm_u
  imm_u_lem =
      let a = ok.opcode_fits in
      let b = ok.rd_fits in
      let c = ok.funct3_fits in
      let d = ok.rs1_fits in
      let e = ok.rs2_fits in
      let g = ok.funct7_fits in bit_and_mask_high 12 20 w ∙ omega (arith, a, b, c, d, e, g)

  pub imm_b_lem : imm_b w ≡ signed_word 4096 (branch_bits f)
  unfolding imm_b sign_extend
  imm_b_lem =
      let a = ok.opcode_fits in
      let b = ok.rd_fits in
      let c = ok.funct3_fits in
      let d = ok.rs1_fits in
      let e = ok.rs2_fits in
      let g = ok.funct7_fits in
      let b12 : u32 (bit_and (shr w 31) 0x1 * 2 ^ 12) ≡ f.funct7 / 64 * 4096 =
        ap (λ x. u32 (x * 2 ^ 12)) (bit_and_mask 1 (shr w 31)) ∙ omega (arith, a, b, c, d, e, g) in
      let b11 : u32 (bit_and (shr w 7) 0x1 * 2 ^ 11) ≡ f.rd % 2 * 2048 =
        ap (λ x. u32 (x * 2 ^ 11)) (bit_and_mask 1 (shr w 7)) ∙ omega (arith, a, b) in
      let b5 : u32 (bit_and (shr w 25) 0x3f * 2 ^ 5) ≡ f.funct7 % 64 * 32 =
        ap (λ x. u32 (x * 2 ^ 5)) (bit_and_mask 6 (shr w 25)) ∙ omega (arith, a, b, c, d, e, g) in
      let b1 : u32 (bit_and (shr w 8) 0xf * 2 ^ 1) ≡ f.rd / 2 * 2 =
        ap (λ x. u32 (x * 2 ^ 1)) (bit_and_mask 4 (shr w 8)) ∙ omega (arith, a, b) in
      let whole =
        joined_parts 12 11 5 (f.funct7 / 64 * 4096) (f.rd % 2 * 2048) (f.funct7 % 64 * 32)
          (f.rd / 2 * 2) (omega arith) (omega arith) (omega arith) (omega arith) (omega arith)
          (omega (arith, b)) in
      ap (λ v. sign_extend v 13)
        (ap₂ bit_or (ap₂ bit_or (ap₂ bit_or b12 b11) b5) b1 ∙ whole ∙ omega arith)
      ∙ extended 12 (branch_bits f) (omega (arith, b, g)) (omega arith)

  pub imm_j_lem : imm_j w ≡ signed_word 1048576 (jump_bits f)
  unfolding imm_j sign_extend
  imm_j_lem =
      let a = ok.opcode_fits in
      let b = ok.rd_fits in
      let c = ok.funct3_fits in
      let d = ok.rs1_fits in
      let e = ok.rs2_fits in
      let g = ok.funct7_fits in
      let b20 : u32 (bit_and (shr w 31) 0x1 * 2 ^ 20) ≡ f.funct7 / 64 * 1048576 =
        ap (λ x. u32 (x * 2 ^ 20)) (bit_and_mask 1 (shr w 31)) ∙ omega (arith, a, b, c, d, e, g) in
      let b12 : u32 (bit_and (shr w 12) 0xff * 2 ^ 12) ≡ (f.funct3 + f.rs1 * 8) * 4096 =
        ap (λ x. u32 (x * 2 ^ 12)) (bit_and_mask 8 (shr w 12)) ∙ omega (arith, a, b, c, d) in
      let b11 : u32 (bit_and (shr w 20) 0x1 * 2 ^ 11) ≡ f.rs2 % 2 * 2048 =
        ap (λ x. u32 (x * 2 ^ 11)) (bit_and_mask 1 (shr w 20)) ∙ omega (arith, a, b, c, d, e) in
      let b1 : u32 (bit_and (shr w 21) 0x3ff * 2 ^ 1) ≡ f.rs2 / 2 * 2 + f.funct7 % 64 * 32 =
        ap (λ x. u32 (x * 2 ^ 1)) (bit_and_mask 10 (shr w 21)) ∙ omega (arith, a, b, c, d, e, g) in
      let whole =
        joined_parts 20 12 11 (f.funct7 / 64 * 1048576) ((f.funct3 + f.rs1 * 8) * 4096)
          (f.rs2 % 2 * 2048) (f.rs2 / 2 * 2 + f.funct7 % 64 * 32) (omega arith)
          (omega (arith, c, d)) (omega arith) (omega arith) (omega arith) (omega (arith, e)) in
      ap (λ v. sign_extend v 21)
        (ap₂ bit_or (ap₂ bit_or (ap₂ bit_or b20 b12) b11) b1 ∙ whole ∙ omega arith)
      ∙ extended 20 (jump_bits f) (omega (arith, c, d, e, g)) (omega arith)

  -- The immediate of each format, as `Cpu` takes it from the word assembled of six fields in
  -- range, is the number with the bits that RV32I gives them: 12 signed bits of `rs2` and
  -- `funct7` (loads and arithmetic), of `rd` and `funct7` (stores), 13 signed even bits
  -- (branches), 21 signed even bits (jumps), and the upper 20 bits of the word (LUI, AUIPC).
  pub immediates :
      (imm_i w ≡ signed_word 2048 (f.rs2 + 32 * f.funct7))
      × (imm_s w ≡ signed_word 2048 (f.rd + 32 * f.funct7))
      × (imm_b w ≡ signed_word 4096 (branch_bits f))
      × (imm_j w ≡ signed_word 1048576 (jump_bits f))
      × (imm_u w ≡ w / 4096 * 4096)
  immediates = (imm_i_lem, imm_s_lem, imm_b_lem, imm_j_lem, imm_u_lem)

-- The fields of a branch and of a jump by an offset, and the immediates that they come back as.
abbrev pub branch_by : ℕ → ℕ → ℕ → ℕ → Fields
branch_by offset funct3 rs1 rs2 = record {
  opcode = 0x63;
  rd = offset / 2 % 16 * 2 + offset / 2048 % 2;
  funct3 = funct3;
  rs1 = rs1;
  rs2 = rs2;
  funct7 = offset / 32 % 64 + offset / 4096 * 64;
}

abbrev pub jump_by : ℕ → ℕ → Fields
jump_by offset rd = record {
  opcode = 0x6f;
  rd = rd;
  funct3 = offset / 4096 % 8;
  rs1 = offset / 32768 % 32;
  rs2 = offset / 2 % 16 * 2 + offset / 2048 % 2;
  funct7 = offset / 32 % 64 + offset / 1048576 * 64;
}

-- A branch is encoded with any even offset of 13 bits and a jump with any even offset of 21
-- bits; decoding gives the offset back, sign-extended to 32 bits.
pub offsets :
    (branch jump funct3 rd rs1 rs2 : ℕ)
    → branch < 8192
    → branch % 2 ≡ 0
    → jump < 2097152
    → jump % 2 ≡ 0
    → funct3 < 8
    → rd < 32
    → rs1 < 32
    → rs2 < 32
    → (imm_b (assembled (branch_by branch funct3 rs1 rs2)) ≡ signed_word 4096 branch)
      × (imm_j (assembled (jump_by jump rd)) ≡ signed_word 1048576 jump)
offsets branch jump funct3 rd rs1 rs2 hb eb hj ej h3 hd h1 h2 =
    let b = branch_by branch funct3 rs1 rs2 in
    let j = jump_by jump rd in
    let bits : branch_bits b ≡ branch = omega (arith, hb, eb) in
    let jits : jump_bits j ≡ jump = omega (arith, hj, ej) in
    (
      imm_b_lem b (record {
        opcode_fits = omega arith;
        rd_fits = omega arith;
        funct3_fits = h3;
        rs1_fits = h1;
        rs2_fits = h2;
        funct7_fits = omega (arith, hb);
      })
          ∙ ap (signed_word 4096) bits,
      imm_j_lem j (record {
        opcode_fits = omega arith;
        rd_fits = hd;
        funct3_fits = omega arith;
        rs1_fits = omega arith;
        rs2_fits = omega arith;
        funct7_fits = omega (arith, hj);
      })
          ∙ ap (signed_word 1048576) jits,
    )
