-- ===== src/Cpu.antt =====
-- `Cpu`, an RV32I core with four CSRs: src/maps-sim/src/cpu/cpu.cpp and include/cpu/cpu.h. The
-- objects behind its bus are handed to the operations as the bus's `Store`; `none` is a store that
-- starts an NPU run which does not end.
pub mod State
pub mod Decode
pub mod Alu
pub mod Zero
pub mod Aligned
pub mod Fields
pub mod Immediates
pub mod Trap
pub mod Tests
pub mod Ends
use maps.Prelude.{
  ℕ, zero, suc, ◌+◌, ◌-◌, ◌/◌, ◌%◌, ◌^◌, Bool, true, false, not, ◌&&◌, ◌||◌, Option, none, some,
  List, Ptr, is_null, ltb, leb, ◌==◌, if◌then◌else◌, u8, u16, u32, signed_ltb, bit_and, bit_or,
  not32, replicate,
}
use maps.Bus.{Bus, Store}
use maps.Bus
use State.{Cpu, reg_at, put}
use Decode.{
  sign_extend, imm_i, imm_s, imm_b, imm_u, imm_j, opcode_of, rd_of, funct3_of, rs1_of, rs2_of,
  funct7_of,
}
use Alu.{alu_imm, alu_reg, branch_taken}

-- The CPU, the objects behind the bus, `next_pc` and the result of `execute`.
pub record Exec : Type 0 where
  pub cpu : Cpu
  pub store : Store
  pub next_pc : ℕ
  pub done : Bool

abbrev pub read_csr : ℕ → Cpu → Option ℕ
read_csr addr c =
    if addr == 0x300
    then some c.mstatus
    else if addr == 0x305
    then some c.mtvec
    else if addr == 0x341
    then some c.mepc
    else if addr == 0x342
    then some c.mcause
    else none

abbrev pub write_csr : ℕ → ℕ → Cpu → Cpu × Bool
write_csr addr value c =
    if addr == 0x300
    then (record c { mstatus = value }, true)
    else if addr == 0x305
    then (record c { mtvec = bit_and value (not32 0x3) }, true)
    else if addr == 0x341
    then (record c { mepc = bit_and value (not32 0x3) }, true)
    else if addr == 0x342
    then (record c { mcause = value }, true)
    else (c, false)

-- The value that a load puts into `rd`.
pub load_value : Bus → Store → ℕ → ℕ → Option ℕ
load_value b s funct3 addr =
    if funct3 == 0x0
    then elim (Bus.read8 b s addr) [ none ↦ none | some v ↦ some (sign_extend v 8) ]
    else if funct3 == 0x1
    then elim (Bus.read16 b s addr) [ none ↦ none | some v ↦ some (sign_extend v 16) ]
    else if funct3 == 0x2
    then Bus.read32 b s addr
    else if funct3 == 0x4
    then Bus.read8 b s addr
    else if funct3 == 0x5
    then Bus.read16 b s addr
    else none

pub store_value : Bus → ℕ → ℕ → ℕ → Store → Option (Store × Bool)
store_value b funct3 addr value s =
    if funct3 == 0x0
    then some (Bus.write8 b addr (u8 (bit_and value 0xff)) s)
    else if funct3 == 0x1
    then some (Bus.write16 b addr (u16 (bit_and value 0xffff)) s)
    else if funct3 == 0x2
    then Bus.write32 b addr value s
    else some (s, false)

-- The ways an instruction ends: refused, with `rd` written, or with a jump, which fails at a
-- target that is not a multiple of 4.
abbrev pub refuse : Cpu → Store → ℕ → Option Exec
refuse c s next = some (record { cpu = c; store = s; next_pc = next; done = false })

abbrev pub result : Option ℕ → ℕ → Cpu → Store → ℕ → Option Exec
result none rd c s next = refuse c s next
result (some v) rd c s next =
    some (record { cpu = put rd v c; store = s; next_pc = next; done = true })

abbrev pub jump : Cpu → Store → ℕ → Option Exec
jump c s target = some (record { cpu = c; store = s; next_pc = target; done = target % 4 == 0 })

-- `case 0x63`.
pub exec_branch : ℕ → Cpu → Store → ℕ → Option Exec
exec_branch inst c s next =
    elim (branch_taken (funct3_of inst) (reg_at c (rs1_of inst)) (reg_at c (rs2_of inst))) [
      | none ↦ refuse c s next
      | some true ↦ jump c s (u32 (c.pc + imm_b inst))
      | some false ↦ some (record { cpu = c; store = s; next_pc = next; done = true })
    ]

-- `case 0x23`.
pub exec_store : Bus → ℕ → Cpu → Store → ℕ → Option Exec
exec_store b inst c s next =
    elim (store_value b (funct3_of inst) (u32 (reg_at c (rs1_of inst) + imm_s inst))
      (reg_at c (rs2_of inst)) s) [
        | none ↦ none
        | some (s', ok) ↦ some (record { cpu = c; store = s'; next_pc = next; done = ok })
      ]

-- `new_value` by `funct3`, 1 to 3 or 5 to 7; 4 has none.
abbrev pub csr_value : ℕ → ℕ → ℕ → Option ℕ
csr_value funct3 old operand =
    if funct3 == 0x1 || funct3 == 0x5
    then some operand
    else if funct3 == 0x2 || funct3 == 0x6
    then some (bit_or old operand)
    else if funct3 == 0x3 || funct3 == 0x7
    then some (bit_and old (not32 operand))
    else none

-- The end of a CSR instruction, from `new_value` on.
pub csr_write : ℕ → ℕ → ℕ → Cpu → Store → ℕ → Option Exec
csr_write inst old new c s next =
    let funct3 = funct3_of inst in
    let rs1 = rs1_of inst in
    let c' = if rd_of inst == 0 then c else put (rd_of inst) old c in
    if ((funct3 == 0x2 || funct3 == 0x3) && rs1 == 0)
      || ((funct3 == 0x6 || funct3 == 0x7) && rs1 == 0)
    then some (record { cpu = c'; store = s; next_pc = next; done = true })
    else (let (c'', ok) = write_csr (inst / 2 ^ 20) new c' in
        some (record { cpu = c''; store = s; next_pc = next; done = ok }))

pub exec_csr : ℕ → Cpu → Store → ℕ → Option Exec
unfolding csr_write
exec_csr inst c s next =
    let funct3 = funct3_of inst in
    let operand = if leb 5 funct3 then rs1_of inst else reg_at c (rs1_of inst) in
    elim (read_csr (inst / 2 ^ 20) c) [
      | none ↦ refuse c s next
      | some old ↦ elim (csr_value funct3 old operand) [
        | none ↦ refuse c s next
        | some new ↦ csr_write inst old new c s next
      ]
    ]

-- `case 0x73`: ECALL, MRET and the CSR instructions.
pub exec_system : ℕ → Cpu → Store → ℕ → Option Exec
unfolding exec_csr
exec_system inst c s next =
    if inst == 0x00000073
    then (if not (c.mtvec == 0)
        then some (record {
          cpu = record c { mepc = u32 (c.pc + 4); mcause = 11 };
          store = s;
          next_pc = c.mtvec;
          done = true;
        })
        else some (record {
          cpu = record c { ecall_pending = true };
          store = s;
          next_pc = next;
          done = true;
        }))
    else if inst == 0x30200073
    then jump c s c.mepc
    else if leb 1 (funct3_of inst) && leb (funct3_of inst) 7
    then exec_csr inst c s next
    else refuse c s next

unfoldable pub execute : Bus → ℕ → Cpu → Store → ℕ → Option Exec
unfolding exec_branch exec_store exec_system load_value store_value
execute b inst c s next =
    let opcode = opcode_of inst in
    let rd = rd_of inst in
    let funct3 = funct3_of inst in
    let x = reg_at c (rs1_of inst) in
    let y = reg_at c (rs2_of inst) in
    if opcode == 0x37
    then result (some (imm_u inst)) rd c s next
    else if opcode == 0x17
    then result (some (u32 (c.pc + imm_u inst))) rd c s next
    else if opcode == 0x6f
    then jump (put rd (u32 (c.pc + 4)) c) s (u32 (c.pc + imm_j inst))
    else if opcode == 0x67
    then (if not (funct3 == 0)
        then refuse c s next
        else jump (put rd (u32 (c.pc + 4)) c) s (bit_and (u32 (x + imm_i inst)) (not32 1)))
    else if opcode == 0x63
    then exec_branch inst c s next
    else if opcode == 0x03
    then result (load_value b s funct3 (u32 (x + imm_i inst))) rd c s next
    else if opcode == 0x23
    then exec_store b inst c s next
    else if opcode == 0x13
    then result (alu_imm funct3 (funct7_of inst) x (imm_i inst) (rs2_of inst)) rd c s next
    else if opcode == 0x33
    then result (alu_reg funct3 (funct7_of inst) x y) rd c s next
    else if opcode == 0x73
    then exec_system inst c s next
    else refuse c s next

-- The CPU, the objects behind the bus, and the result of `step` and `run`.
pub record CpuRun : Type 0 where
  pub cpu : Cpu
  pub store : Store
  pub done : Bool

-- `faulted_ = true; return false;`.
abbrev pub fault : Cpu → Store → Option CpuRun
fault c s = some (record { cpu = record c { faulted = true }; store = s; done = false })

-- What `step` does after `execute`.
unfoldable pub retire : Exec → Option CpuRun
retire e =
    if e.done
    then some (record {
      cpu = record (put 0 0 e.cpu) { pc = e.next_pc };
      store = e.store;
      done = not e.cpu.faulted;
    })
    else fault e.cpu e.store

unfoldable pub step : Bus → Cpu → Store → Option CpuRun
unfolding execute retire
step b c s =
    if c.halted || c.faulted || c.ecall_pending || is_null c.bus || not (c.pc % 4 == 0)
    then some (record { cpu = record c { faulted = not c.halted }; store = s; done = false })
    else elim (Bus.read32 b s c.pc) [
      | none ↦ fault c s
      | some inst ↦ elim (execute b inst c s (u32 (c.pc + 4))) [ none ↦ none | some e ↦ retire e ]
    ]

abbrev pub halt : Cpu → Cpu
halt c = record c { halted = true; ecall_pending = false }

abbrev pub clear_ecall : Cpu → Cpu
clear_ecall c = record c { ecall_pending = false }

-- `Cpu::run` with the steps that are left.
unfoldable pub run : Bus → ℕ → Cpu → Store → Option CpuRun
run b zero c s = some (record { cpu = c; store = s; done = c.halted && not c.faulted })
run b (suc n) c s = elim (c.halted || c.faulted) [
  | true ↦ some (record { cpu = c; store = s; done = c.halted && not c.faulted })
  | false ↦ elim (step b c s) [
    | none ↦ none
    | some r ↦ elim r.done [
      | false ↦ some r
      | true ↦ run b n (if r.cpu.ecall_pending then halt r.cpu else r.cpu) r.store
    ]
  ]
]
