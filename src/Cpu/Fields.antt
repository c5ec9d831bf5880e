-- ===== src/Cpu/Fields.antt =====
-- The fields of an instruction word and its sign-extended immediates, by arithmetic.
use maps.Prelude.{
  ℕ, ◌+◌, ◌*◌, ◌-◌, ◌<◌, ◌≤◌, ◌≡◌, ◌^◌, ap₂, ◌∙◌, sym, arith, ltb, if◌then◌else◌, sub32, shr,
  bit_xor, power, bit_and_mask, bit_xor-Joins, bit_xor-zero, lt_or_le, inl, inr,
}
use maps.Cpu.Decode.{opcode_of, rd_of, funct3_of, rs1_of, rs2_of, funct7_of}

-- An instruction of RV32I by its six fields.
pub record Fields : Type 0 where
  pub opcode : ℕ
  pub rd : ℕ
  pub funct3 : ℕ
  pub rs1 : ℕ
  pub rs2 : ℕ
  pub funct7 : ℕ

pub record IsInstruction (f : Fields) : Type 0 where
  pub opcode_fits : f.opcode < 128
  pub rd_fits : f.rd < 32
  pub funct3_fits : f.funct3 < 8
  pub rs1_fits : f.rs1 < 32
  pub rs2_fits : f.rs2 < 32
  pub funct7_fits : f.funct7 < 128

-- The word of the fields.
abbrev pub assembled : Fields → ℕ
assembled f =
    f.opcode + 128 * f.rd + 4096 * f.funct3 + 32768 * f.rs1 + 1048576 * f.rs2 + 33554432 * f.funct7

-- The value of `bits` bits, as a signed number on 32 bits.
abbrev pub signed_word : ℕ → ℕ → ℕ
signed_word half value = if ltb value half then value else value + 2 ^ 32 - 2 * half

module _ (k value : ℕ) (fits : value < power k * 2) (small : power k ≤ 2 ^ 31) where
  abbrev half : ℕ
  half = power k

  flipped_low : value < half → bit_xor value half ≡ half + value
  flipped_low h =
      let ev : 0 * half + value ≡ value = omega arith in
      let es : 1 * half + 0 ≡ half = omega arith in
      let joined = bit_xor-Joins k 0 1 value 0 h (omega arith) in
      let low = bit_xor-zero value in ap₂ bit_xor (sym ev) (sym es) ∙ joined ∙ omega (arith, low)

  flipped_high : half ≤ value → bit_xor value half ≡ value - half
  flipped_high h =
      let ev : 1 * half + (value - half) ≡ value = omega arith in
      let es : 1 * half + 0 ≡ half = omega arith in
      let joined = bit_xor-Joins k 1 1 (value - half) 0 (omega arith) (omega arith) in
      let low = bit_xor-zero (value - half) in
      ap₂ bit_xor (sym ev) (sym es) ∙ joined ∙ omega (arith, low)

  -- The exclusive or with the sign bit and the subtraction sign-extend.
  pub extended : sub32 (bit_xor value half) half ≡ signed_word half value
  extended = elim (lt_or_le value half) [
    | inl low ↦ ground (arith, flipped_low low)
    | inr high ↦ ground (arith, flipped_high high)
  ]

module _ (f : Fields) (ok : IsInstruction f) where
  abbrev w : ℕ
  w = assembled f

  -- The six fields of an instruction, each in its range, are decoded from the word that they are
  -- assembled to.
  pub decoded :
      (opcode_of w ≡ f.opcode)
      × (rd_of w ≡ f.rd)
      × (funct3_of w ≡ f.funct3)
      × (rs1_of w ≡ f.rs1)
      × (rs2_of w ≡ f.rs2)
      × (funct7_of w ≡ f.funct7)
  unfolding opcode_of rd_of funct3_of rs1_of rs2_of funct7_of
  decoded =
      let a = ok.opcode_fits in
      let b = ok.rd_fits in
      let c = ok.funct3_fits in
      let d = ok.rs1_fits in
      let e = ok.rs2_fits in
      let g = ok.funct7_fits in
      (
        bit_and_mask 7 w ∙ omega (arith, a),
        bit_and_mask 5 (shr w 7) ∙ omega (arith, a, b),
        bit_and_mask 3 (shr w 12) ∙ omega (arith, a, b, c),
        bit_and_mask 5 (shr w 15) ∙ omega (arith, a, b, c, d),
        bit_and_mask 5 (shr w 20) ∙ omega (arith, a, b, c, d, e),
        bit_and_mask 7 (shr w 25) ∙ omega (arith, a, b, c, d, e, g),
      )
