-- ===== src/Cpu/Zero.antt =====
-- Register x0: `step` clears it after each instruction, whatever the instruction wrote.
use maps.Prelude.{
  ℕ, ◌≡◌, refl, Bool, true, false, not, ◌||◌, ◌&&◌, Option, none, some, is_null, ◌==◌, ◌%◌, ◌+◌,
  leb, u32, Option-cases, Bool-cases, inl, inr, sym, length, length-set, get_or-set_self,
  if◌then◌else◌, ◌/◌, ◌^◌, ◌<◌, subst, arith, ◌∙◌,
}
use maps.Bus
use maps.Bus.{Bus, Store}
use maps.Cpu.{
  Exec, CpuRun, result, exec_branch, exec_store, store_value, exec_csr, csr_write, exec_system,
  csr_value, read_csr, write_csr, execute, retire, step,
}
use maps.Cpu.Alu.{branch_taken}
use maps.Cpu.Decode.{opcode_of, funct3_of, rd_of, rs1_of, rs2_of, imm_s, imm_u}
use maps.Cpu.State.{Cpu, reg_at, put}

-- A CPU between two instructions: 32 registers, the first of them 0, and no fault.
pub record IsValid (c : Cpu) : Type 0 where
  pub registers : length c.regs ≡ 32
  pub zero_register : reg_at c 0 ≡ 0
  pub not_faulted : c.faulted ≡ false

-- An instruction keeps the number of registers.
Keeps : ℕ → Option Exec → Type 0
Keeps n none = Unit {0}
Keeps n (some e) = length e.cpu.regs ≡ n

Keeps-if :
    (n : ℕ) (b : Bool) (x y : Option Exec) → Keeps n x → Keeps n y → Keeps n (if b then x else y)
Keeps-if n true x y hx hy = hx
Keeps-if n false x y hx hy = hy

result-Keeps :
    (value : Option ℕ) (rd : ℕ) (c : Cpu) (s : Store) (next : ℕ)
    → Keeps (length c.regs) (result value rd c s next)
unfolding Keeps
result-Keeps none rd c s next = refl
result-Keeps (some v) rd c s next = length-set c.regs rd v

exec_branch-Keeps :
    (inst : ℕ) (c : Cpu) (s : Store) (next : ℕ) → Keeps (length c.regs) (exec_branch inst c s next)
unfolding exec_branch Keeps
exec_branch-Keeps inst c s next =
    elim (Option-cases
      (branch_taken (funct3_of inst) (reg_at c (rs1_of inst)) (reg_at c (rs2_of inst)))) [
        | inl e ↦ rw (e, exec_branch) refl
        | inr (true, e) ↦ rw (e, exec_branch) refl
        | inr (false, e) ↦ rw (e, exec_branch) refl
      ]

exec_store-Keeps :
    (b : Bus) (inst : ℕ) (c : Cpu) (s : Store) (next : ℕ)
    → Keeps (length c.regs) (exec_store b inst c s next)
unfolding exec_store Keeps
exec_store-Keeps b inst c s next =
    elim (Option-cases (
      store_value b (funct3_of inst) (u32 (reg_at c (rs1_of inst) + imm_s inst))
        (reg_at c (rs2_of inst)) s)) [
          | inl e ↦ rw (e, exec_store) tt
          | inr (r, e) ↦ rw (e, exec_store) refl
        ]

write_csr-length :
    (addr value : ℕ) (c : Cpu) → length ((write_csr addr value c).0.regs) ≡ length c.regs
write_csr-length addr value c = ground arith

read_back-length :
    (rd old : ℕ) (c : Cpu) → length ((if rd == 0 then c else put rd old c).regs) ≡ length c.regs
read_back-length rd old c = ground (arith, length-set c.regs rd old)

csr_write-Keeps :
    (inst old new : ℕ) (c : Cpu) (s : Store) (next : ℕ)
    → Keeps (length c.regs) (csr_write inst old new c s next)
unfolding csr_write Keeps
csr_write-Keeps inst old new c s next =
    let c' = if rd_of inst == 0 then c else put (rd_of inst) old c in
    let kept = read_back-length (rd_of inst) old c in
    let funct3 = funct3_of inst in
    let reads_only =
      ((funct3 == 0x2 || funct3 == 0x3) && rs1_of inst == 0)
      || ((funct3 == 0x6 || funct3 == 0x7) && rs1_of inst == 0) in
    elim (Bool-cases reads_only) [
      | inl e ↦ rw (e, csr_write) kept
      | inr e ↦ rw (e, csr_write) (write_csr-length (inst / 2 ^ 20) new c' ∙ kept)
    ]

exec_csr-Keeps :
    (inst : ℕ) (c : Cpu) (s : Store) (next : ℕ) → Keeps (length c.regs) (exec_csr inst c s next)
unfolding exec_csr Keeps
exec_csr-Keeps inst c s next =
    let operand = if leb 5 (funct3_of inst) then rs1_of inst else reg_at c (rs1_of inst) in
    elim (Option-cases (read_csr (inst / 2 ^ 20) c)) [
      | inl e ↦ rw (e, exec_csr) refl
      | inr (old, e) ↦
          rw (e, exec_csr)
            (elim (Option-cases (csr_value (funct3_of inst) old operand)) [
              | inl e' ↦ rw (e', exec_csr) refl
              | inr (new, e') ↦ rw (e', exec_csr) (csr_write-Keeps inst old new c s next)
            ])
    ]

exec_system-Keeps :
    (inst : ℕ) (c : Cpu) (s : Store) (next : ℕ) → Keeps (length c.regs) (exec_system inst c s next)
unfolding exec_system Keeps
exec_system-Keeps inst c s next =
    let n = length c.regs in
    Keeps-if n (inst == 0x00000073) _ _ (Keeps-if n (not (c.mtvec == 0)) _ _ refl refl) (
      Keeps-if n (inst == 0x30200073) _ _ refl (
        Keeps-if n (leb 1 (funct3_of inst) && leb (funct3_of inst) 7) _ _
          (exec_csr-Keeps inst c s next) refl))

execute-Keeps :
    (b : Bus) (inst : ℕ) (c : Cpu) (s : Store) (next : ℕ)
    → Keeps (length c.regs) (execute b inst c s next)
unfolding execute Keeps
execute-Keeps b inst c s next =
    let n = length c.regs in
    let op = opcode_of inst in
    let linked = length-set c.regs (rd_of inst) (u32 (c.pc + 4)) in
    Keeps-if n (op == 0x37) _ _ (result-Keeps (some (imm_u inst)) (rd_of inst) c s next) (
      Keeps-if n (op == 0x17) _ _
        (result-Keeps (some (u32 (c.pc + imm_u inst))) (rd_of inst) c s next)
        (Keeps-if n (op == 0x6f) _ _ linked (
          Keeps-if n (op == 0x67) _ _ (Keeps-if n (not (funct3_of inst == 0)) _ _ refl linked) (
            Keeps-if n (op == 0x63) _ _ (exec_branch-Keeps inst c s next) (
              Keeps-if n (op == 0x03) _ _ (result-Keeps _ (rd_of inst) c s next) (
                Keeps-if n (op == 0x23) _ _ (exec_store-Keeps b inst c s next) (
                  Keeps-if n (op == 0x13) _ _ (result-Keeps _ (rd_of inst) c s next) (
                    Keeps-if n (op == 0x33) _ _ (result-Keeps _ (rd_of inst) c s next)
                      (Keeps-if n (op == 0x73) _ _ (exec_system-Keeps inst c s next) refl)))))))))

-- A successful result leaves a valid CPU.
Leaves : Option CpuRun → Type 0
Leaves none = Unit {0}
Leaves (some r) = r.done ≡ true → IsValid r.cpu

retire-Leaves : (e : Exec) → length e.cpu.regs ≡ 32 → Leaves (retire e)
unfolding retire Leaves
retire-Leaves e h = elim (Bool-cases e.done) [
  | inr d ↦ rw (d, retire) (λ x. cc)
  | inl d ↦
      rw (d, retire)
        (λ x. record {
          registers = length-set e.cpu.regs 0 0 ∙ h;
          zero_register =
              get_or-set_self e.cpu.regs 0 0 0 (subst (λ n. 0 < n) (sym h) (omega arith));
          not_faulted = ground (arith, x);
        })
]

executed-Leaves :
    (e : Option Exec) → Keeps 32 e → Leaves (elim e [ none ↦ none | some x ↦ retire x ])
unfolding Leaves Keeps
executed-Leaves none h = tt
executed-Leaves (some x) h = retire-Leaves x h

step-Leaves : (b : Bus) (c : Cpu) (s : Store) → length c.regs ≡ 32 → Leaves (step b c s)
unfolding step Leaves
step-Leaves b c s h =
    let guard = c.halted || c.faulted || c.ecall_pending || is_null c.bus || not (c.pc % 4 == 0) in
    elim (Bool-cases guard) [
      | inl g ↦ rw (g, step) (λ x. cc)
      | inr g ↦
          rw (g, step)
            (elim (Option-cases (Bus.read32 b s c.pc)) [
              | inl e ↦ rw (e, step) (λ x. cc)
              | inr (inst, e) ↦
                  rw (e, step)
                    (executed-Leaves (execute b inst c s (u32 (c.pc + 4))) (
                      subst (λ n. Keeps n (execute b inst c s (u32 (c.pc + 4)))) h
                        (execute-Keeps b inst c s (u32 (c.pc + 4)))))
            ])
    ]

-- A step that succeeds, on a CPU with 32 registers, leaves 32 registers, x0 equal to 0 whatever the
-- instruction wrote to it, and no fault.
pub step-IsValid :
    (b : Bus) (c : Cpu) (s : Store) (r : CpuRun)
    → length c.regs ≡ 32
    → step b c s ≡ some r
    → r.done ≡ true
    → IsValid r.cpu
unfolding Leaves
step-IsValid b c s r h e d = subst Leaves e (step-Leaves b c s h) d
