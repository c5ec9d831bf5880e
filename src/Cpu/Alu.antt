-- ===== src/Cpu/Alu.antt =====
-- The comparisons of the branches and the two arithmetic groups of `execute`; `none` is a
-- `funct3`, `funct7` pair that is refused.
use maps.Prelude.{
  ℕ, ◌+◌, Bool, not, Option, none, some, ltb, ◌==◌, if◌then◌else◌, u32, sub32, shl32, shr, sar32,
  signed_ltb, bit_and, bit_or, bit_xor,
}

unfoldable pub branch_taken : ℕ → ℕ → ℕ → Option Bool
branch_taken funct3 x y =
    if funct3 == 0x0
    then some (x == y)
    else if funct3 == 0x1
    then some (not (x == y))
    else if funct3 == 0x4
    then some (signed_ltb x y)
    else if funct3 == 0x5
    then some (not (signed_ltb x y))
    else if funct3 == 0x6
    then some (ltb x y)
    else if funct3 == 0x7
    then some (not (ltb x y))
    else none

abbrev flag : Bool → ℕ
flag b = if b then 1 else 0

-- `case 0x13`; `shamt` is the `rs2` field.
unfoldable pub alu_imm : ℕ → ℕ → ℕ → ℕ → ℕ → Option ℕ
alu_imm funct3 funct7 x imm shamt =
    if funct3 == 0x0
    then some (u32 (x + imm))
    else if funct3 == 0x2
    then some (flag (signed_ltb x imm))
    else if funct3 == 0x3
    then some (flag (ltb x imm))
    else if funct3 == 0x4
    then some (bit_xor x imm)
    else if funct3 == 0x6
    then some (bit_or x imm)
    else if funct3 == 0x7
    then some (bit_and x imm)
    else if funct3 == 0x1
    then (if funct7 == 0x00 then some (shl32 x shamt) else none)
    else if funct3 == 0x5
    then (if funct7 == 0x00
        then some (shr x shamt)
        else if funct7 == 0x20
        then some (sar32 x shamt)
        else none)
    else none

-- `case 0x33`.
unfoldable pub alu_reg : ℕ → ℕ → ℕ → ℕ → Option ℕ
alu_reg funct3 funct7 x y =
    if funct3 == 0x0
    then (if funct7 == 0x00
        then some (u32 (x + y))
        else if funct7 == 0x20
        then some (sub32 x y)
        else none)
    else if funct3 == 0x5
    then (if funct7 == 0x00
        then some (shr x (bit_and y 0x1f))
        else if funct7 == 0x20
        then some (sar32 x (bit_and y 0x1f))
        else none)
    else if not (funct7 == 0x00)
    then none
    else if funct3 == 0x1
    then some (shl32 x (bit_and y 0x1f))
    else if funct3 == 0x2
    then some (flag (signed_ltb x y))
    else if funct3 == 0x3
    then some (flag (ltb x y))
    else if funct3 == 0x4
    then some (bit_xor x y)
    else if funct3 == 0x6
    then some (bit_or x y)
    else if funct3 == 0x7
    then some (bit_and x y)
    else none
