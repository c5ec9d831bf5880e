-- ===== src/Cpu/Tests.antt =====
-- A step that writes x0, and the word of a branch.
use maps.Prelude.{◌≡◌, refl, true, some, [], ◌∷◌, bound, arith}
use maps.Bus.{Bus, Store, read32}
use maps.Cpu.{CpuRun, step, execute, retire}
use maps.Cpu.State.{Cpu, make}
use maps.Cpu.Aligned.{HasTraps, IsAligned, step-IsAligned}
use maps.Cpu.Trap.{Returns, ecall-mret}
use maps.Cpu.Zero.{IsValid, step-IsValid}
use maps.Cpu.Fields.{Fields, IsInstruction, decoded}
use maps.Cpu.Immediates.{branch_by, immediates, offsets}
use maps.Cpu.Decode.{
  opcode_of, rd_of, funct3_of, rs1_of, rs2_of, funct7_of, imm_i, imm_s, imm_b, imm_u, imm_j,
}
use maps.Memory
use maps.Npu.Device

abbrev bus : Bus
bus = record { memory = bound; npu = bound; console_output = bound }

-- `lui x0, 5`.
abbrev code : Store
code = record { memory = record { words = 0x00005037 ∷ [] }; npu = Device.make; console = [] }

abbrev after : CpuRun
after = record { cpu = record (make bound) { pc = 4 }; store = code; done = true }

lui_runs : step bus (make bound) code ≡ some after
unfolding step read32 execute retire Memory.size Memory.read opcode_of rd_of
lui_runs = refl

step-IsValid_example : IsValid after.cpu
step-IsValid_example = step-IsValid bus (make bound) code after refl lui_runs refl

lui_HasTraps : HasTraps (make bound)
lui_HasTraps = record { vector = refl; return_to = refl }

step-IsAligned_example : IsAligned after.cpu
step-IsAligned_example = step-IsAligned bus (make bound) code after lui_HasTraps lui_runs refl

-- `bne x1, x2, -8`.
abbrev bne : Fields
bne = branch_by 8184 1 1 2

bne_ok : IsInstruction bne
bne_ok = record {
  opcode_fits = omega arith;
  rd_fits = omega arith;
  funct3_fits = omega arith;
  rs1_fits = omega arith;
  rs2_fits = omega arith;
  funct7_fits = omega arith;
}

decoded_example :
    (opcode_of 0xfe209ce3 ≡ 0x63)
    × (rd_of 0xfe209ce3 ≡ 25)
    × (funct3_of 0xfe209ce3 ≡ 1)
    × (rs1_of 0xfe209ce3 ≡ 1)
    × (rs2_of 0xfe209ce3 ≡ 2)
    × (funct7_of 0xfe209ce3 ≡ 127)
decoded_example = decoded bne bne_ok

immediates_example :
    (imm_i 0xfe209ce3 ≡ 0xffffffe2)
    × (imm_s 0xfe209ce3 ≡ 0xfffffff9)
    × (imm_b 0xfe209ce3 ≡ 0xfffffff8)
    × (imm_j 0xfe209ce3 ≡ 0xfff097e2)
    × (imm_u 0xfe209ce3 ≡ 0xfe209000)
immediates_example = immediates bne bne_ok

offsets_example : (imm_b 0xfe209ce3 ≡ 0xfffffff8) × (imm_j 0x004000ef ≡ 4)
offsets_example =
    offsets 8184 4 1 1 1 2 (omega arith) refl (omega arith) refl (omega arith) (omega arith)
      (omega arith) (omega arith)

-- `ecall` at 0 with the handler at 4, which is `mret`.
abbrev handler : Store
handler = record {
  memory = record { words = 0x00000073 ∷ 0x30200073 ∷ [] };
  npu = Device.make;
  console = [];
}

abbrev calls : Cpu
calls = record (make bound) { mtvec = 4 }

ecall-mret_example : (t : CpuRun) × (r : CpuRun) × Returns bus calls handler t r
unfolding read32 Memory.size Memory.read
ecall-mret_example =
    ecall-mret bus calls handler
      (record { on = refl; sound = refl; free = refl; on_bus = refl; pc_aligned = refl }) refl
      (λ e. omega (arith, e)) refl refl refl
