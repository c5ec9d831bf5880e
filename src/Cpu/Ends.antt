-- ===== src/Cpu/Ends.antt =====
-- The steps and the runs of the CPU end.
use maps.Prelude.{
  ℕ, true, false, not, ◌||◌, ◌&&◌, Option, none, some, Ends, ended, Ends-if, Ends-bind, is_null,
  ◌==◌, ◌%◌, ◌+◌, leb, u32, Option-cases, inl, inr, if◌then◌else◌, ◌/◌, ◌^◌,
}
use maps.Bus
use maps.Bus.{Bus, Store}
use maps.Bus.Ends.{bus_write32-Ends}
use maps.Cpu.{
  Exec, result, exec_branch, exec_store, store_value, exec_csr, csr_write, exec_system, execute,
  retire, step, read_csr, csr_value,
}
use maps.Cpu.Decode.{opcode_of, funct3_of, rs1_of, rs2_of}
use maps.Cpu.Alu.{branch_taken}
use maps.Cpu.State.{Cpu, reg_at}

store_value-Ends :
    (b : Bus) (funct3 addr value : ℕ) (s : Store) → Ends (store_value b funct3 addr value s)
unfolding store_value
store_value-Ends b funct3 addr value s = Ends-if (funct3 == 0x0) _ _ (ended _) (
    Ends-if (funct3 == 0x1) _ _ (ended _)
      (Ends-if (funct3 == 0x2) _ _ (bus_write32-Ends b addr value s) (ended _)))

exec_store-Ends :
    (b : Bus) (inst : ℕ) (c : Cpu) (s : Store) (next : ℕ) → Ends (exec_store b inst c s next)
unfolding exec_store
exec_store-Ends b inst c s next = Ends-bind _ _ (store_value-Ends b _ _ _ s) (λ r. ended _)

result-Ends :
    (value : Option ℕ) (rd : ℕ) (c : Cpu) (s : Store) (next : ℕ) → Ends (result value rd c s next)
result-Ends none rd c s next = ended _
result-Ends (some v) rd c s next = ended _

exec_branch-Ends : (inst : ℕ) (c : Cpu) (s : Store) (next : ℕ) → Ends (exec_branch inst c s next)
unfolding exec_branch
exec_branch-Ends inst c s next =
    elim (Option-cases
      (branch_taken (funct3_of inst) (reg_at c (rs1_of inst)) (reg_at c (rs2_of inst)))) [
        | inl e ↦ rw (e, exec_branch) (ended _)
        | inr (true, e) ↦ rw (e, exec_branch) (ended _)
        | inr (false, e) ↦ rw (e, exec_branch) (ended _)
      ]

csr_write-Ends :
    (inst old new : ℕ) (c : Cpu) (s : Store) (next : ℕ) → Ends (csr_write inst old new c s next)
unfolding csr_write
csr_write-Ends inst old new c s next = Ends-if _ _ _ (ended _) (ended _)

exec_csr-Ends : (inst : ℕ) (c : Cpu) (s : Store) (next : ℕ) → Ends (exec_csr inst c s next)
unfolding exec_csr
exec_csr-Ends inst c s next =
    let operand = if leb 5 (funct3_of inst) then rs1_of inst else reg_at c (rs1_of inst) in
    elim (Option-cases (read_csr (inst / 2 ^ 20) c)) [
      | inl e ↦ rw (e, exec_csr) (ended _)
      | inr (old, e) ↦
          rw (e, exec_csr)
            (elim (Option-cases (csr_value (funct3_of inst) old operand)) [
              | inl e' ↦ rw (e', exec_csr) (ended _)
              | inr (new, e') ↦ rw (e', exec_csr) (csr_write-Ends inst old new c s next)
            ])
    ]

exec_system-Ends : (inst : ℕ) (c : Cpu) (s : Store) (next : ℕ) → Ends (exec_system inst c s next)
unfolding exec_system
exec_system-Ends inst c s next =
    Ends-if (inst == 0x00000073) _ _ (Ends-if (not (c.mtvec == 0)) _ _ (ended _) (ended _)) (
      Ends-if (inst == 0x30200073) _ _ (ended _) (
        Ends-if (leb 1 (funct3_of inst) && leb (funct3_of inst) 7) _ _ (exec_csr-Ends inst c s next)
          (ended _)))

execute-Ends :
    (b : Bus) (inst : ℕ) (c : Cpu) (s : Store) (next : ℕ) → Ends (execute b inst c s next)
unfolding execute
execute-Ends b inst c s next =
    let op = opcode_of inst in
    Ends-if (op == 0x37) _ _ (ended _) (
      Ends-if (op == 0x17) _ _ (ended _) (
        Ends-if (op == 0x6f) _ _ (ended _) (
          Ends-if (op == 0x67) _ _ (Ends-if (not (funct3_of inst == 0)) _ _ (ended _) (ended _)) (
            Ends-if (op == 0x63) _ _ (exec_branch-Ends inst c s next) (
              Ends-if (op == 0x03) _ _ (result-Ends _ _ c s next) (
                Ends-if (op == 0x23) _ _ (exec_store-Ends b inst c s next) (
                  Ends-if (op == 0x13) _ _ (result-Ends _ _ c s next) (
                    Ends-if (op == 0x33) _ _ (result-Ends _ _ c s next)
                      (Ends-if (op == 0x73) _ _ (exec_system-Ends inst c s next) (ended _))))))))))

retire-Ends : (e : Exec) → Ends (retire e)
unfolding retire
retire-Ends e = Ends-if e.done _ _ (ended _) (ended _)

pub step-Ends : (b : Bus) (c : Cpu) (s : Store) → Ends (step b c s)
unfolding step
step-Ends b c s =
    Ends-if (c.halted || c.faulted || c.ecall_pending || is_null c.bus || not (c.pc % 4 == 0)) _ _
      (ended _)
      (elim (Option-cases (Bus.read32 b s c.pc)) [
        | inl e ↦ rw e (ended _)
        | inr (inst, e) ↦
            rw e (Ends-bind _ retire (execute-Ends b inst c s (u32 (c.pc + 4))) retire-Ends)
      ])
