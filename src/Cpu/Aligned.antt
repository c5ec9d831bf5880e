-- ===== src/Cpu/Aligned.antt =====
-- The addresses that the CPU can jump to: the program counter, the trap vector and the return address.
use maps.Prelude.{
  ℕ, ◌≡◌, Bool, true, false, not, ◌||◌, ◌&&◌, Option, none, some, is_null, ◌==◌, ◌%◌, ◌+◌, ◌/◌, ◌^◌,
  leb, u32, Option-cases, Bool-cases, inl, inr, if◌then◌else◌, subst, arith, bit_and,
  bit_and-multiple, not32, ==→eq,
}
use maps.Bus
use maps.Bus.{Bus, Store}
use maps.Cpu.{
  Exec, CpuRun, result, jump, exec_branch, exec_store, store_value, exec_csr, csr_write,
  exec_system, csr_value, load_value, read_csr, write_csr, execute, retire, step,
}
use maps.Cpu.Alu.{branch_taken, alu_imm, alu_reg}
use maps.Cpu.Decode.{
  opcode_of, funct3_of, rd_of, rs1_of, rs2_of, funct7_of, imm_b, imm_i, imm_j, imm_s, imm_u,
}
use maps.Cpu.State.{Cpu, reg_at, put}

-- The two CSRs that hold addresses.
pub record HasTraps (c : Cpu) : Type 0 where
  pub vector : c.mtvec % 4 ≡ 0
  pub return_to : c.mepc % 4 ≡ 0

-- All three.
pub record IsAligned (c : Cpu) : Type 0 where
  pub pc_aligned : c.pc % 4 ≡ 0
  pub traps : HasTraps c

-- An instruction that succeeds leads to an aligned address, and keeps the CSRs aligned.
Leads : Option Exec → Type 0
Leads none = Unit {0}
Leads (some e) = e.done ≡ true → (e.next_pc % 4 ≡ 0) × HasTraps e.cpu

Leads-if : (b : Bool) (x y : Option Exec) → Leads x → Leads y → Leads (if b then x else y)
Leads-if true x y hx hy = hx
Leads-if false x y hx hy = hy

module _ (c : Cpu) (traps : HasTraps c) (s : Store) (next : ℕ) (on : next % 4 ≡ 0) where
  refused : Leads (some (record { cpu = c; store = s; next_pc = next; done = false }))
  unfolding Leads
  refused e = cc

  result-Leads : (value : Option ℕ) (rd : ℕ) → Leads (result value rd c s next)
  unfolding Leads
  result-Leads none rd = λ e. cc
  result-Leads (some v) rd =
      λ e. (on, record { vector = traps.vector; return_to = traps.return_to })

  jump-Leads : (c' : Cpu) (target : ℕ) → HasTraps c' → Leads (jump c' s target)
  unfolding Leads
  jump-Leads c' target h = λ e. (==→eq (target % 4) 0 e, h)

  put-HasTraps : (rd v : ℕ) → HasTraps (put rd v c)
  put-HasTraps rd v = record { vector = traps.vector; return_to = traps.return_to }

  exec_branch-Leads : (inst : ℕ) → Leads (exec_branch inst c s next)
  unfolding exec_branch Leads
  exec_branch-Leads inst =
      elim (Option-cases
        (branch_taken (funct3_of inst) (reg_at c (rs1_of inst)) (reg_at c (rs2_of inst)))) [
          | inl e ↦ rw (e, exec_branch) (λ x. cc)
          | inr (true, e) ↦
              rw (e, exec_branch) (λ x. (==→eq (u32 (c.pc + imm_b inst) % 4) 0 x, traps))
          | inr (false, e) ↦ rw (e, exec_branch) (λ x. (on, traps))
        ]

  exec_store-Leads : (b : Bus) (inst : ℕ) → Leads (exec_store b inst c s next)
  unfolding exec_store Leads
  exec_store-Leads b inst =
      elim (Option-cases (
        store_value b (funct3_of inst) (u32 (reg_at c (rs1_of inst) + imm_s inst))
          (reg_at c (rs2_of inst)) s)) [
            | inl e ↦ rw (e, exec_store) tt
            | inr (r, e) ↦ rw (e, exec_store) (λ x. (on, traps))
          ]

  write_csr-HasTraps :
      (addr value : ℕ) (c' : Cpu) → HasTraps c' → HasTraps (write_csr addr value c').0
  write_csr-HasTraps addr value c' h = record {
    vector = ground (arith, h.vector, bit_and-multiple value);
    return_to = ground (arith, h.return_to, bit_and-multiple value);
  }

  read_back-HasTraps : (rd old : ℕ) → HasTraps (if rd == 0 then c else put rd old c)
  read_back-HasTraps rd old = record {
    vector = ground (arith, traps.vector);
    return_to = ground (arith, traps.return_to);
  }

  csr_write-Leads : (inst old new : ℕ) → Leads (csr_write inst old new c s next)
  unfolding csr_write Leads
  csr_write-Leads inst old new =
      let c' = if rd_of inst == 0 then c else put (rd_of inst) old c in
      let kept = read_back-HasTraps (rd_of inst) old in
      let funct3 = funct3_of inst in
      let reads_only =
        ((funct3 == 0x2 || funct3 == 0x3) && rs1_of inst == 0)
        || ((funct3 == 0x6 || funct3 == 0x7) && rs1_of inst == 0) in
      elim (Bool-cases reads_only) [
        | inl e ↦ rw (e, csr_write) (λ x. (on, kept))
        | inr e ↦ rw (e, csr_write) (λ x. (on, write_csr-HasTraps (inst / 2 ^ 20) new c' kept))
      ]

  exec_csr-Leads : (inst : ℕ) → Leads (exec_csr inst c s next)
  unfolding exec_csr Leads
  exec_csr-Leads inst =
      let operand = if leb 5 (funct3_of inst) then rs1_of inst else reg_at c (rs1_of inst) in
      elim (Option-cases (read_csr (inst / 2 ^ 20) c)) [
        | inl e ↦ rw (e, exec_csr) (λ x. cc)
        | inr (old, e) ↦
            rw (e, exec_csr)
              (elim (Option-cases (csr_value (funct3_of inst) old operand)) [
                | inl e' ↦ rw (e', exec_csr) (λ x. cc)
                | inr (new, e') ↦ rw (e', exec_csr) (csr_write-Leads inst old new)
              ])
      ]

  exec_system-Leads : (inst : ℕ) → c.pc % 4 ≡ 0 → Leads (exec_system inst c s next)
  unfolding exec_system Leads
  exec_system-Leads inst pc =
      Leads-if (inst == 0x00000073) _ _
        (Leads-if (not (c.mtvec == 0)) _ _
          (λ x. (traps.vector, record { vector = traps.vector; return_to = omega (arith, pc) }))
          (λ x. (on, record { vector = traps.vector; return_to = traps.return_to })))
        (Leads-if (inst == 0x30200073) _ _ (jump-Leads c c.mepc traps) (
          Leads-if (leb 1 (funct3_of inst) && leb (funct3_of inst) 7) _ _ (exec_csr-Leads inst)
            refused))

  execute-Leads : (b : Bus) (inst : ℕ) → c.pc % 4 ≡ 0 → Leads (execute b inst c s next)
  unfolding execute
  execute-Leads b inst pc =
      let op = opcode_of inst in
      let rd = rd_of inst in
      let funct3 = funct3_of inst in
      let x = reg_at c (rs1_of inst) in
      let y = reg_at c (rs2_of inst) in
      let c' = put rd (u32 (c.pc + 4)) c in
      let linked = put-HasTraps rd (u32 (c.pc + 4)) in
      let far = jump-Leads c' (u32 (c.pc + imm_j inst)) linked in
      let near = jump-Leads c' (bit_and (u32 (x + imm_i inst)) (not32 1)) linked in
      let loaded = load_value b s funct3 (u32 (x + imm_i inst)) in
      let computed = alu_imm funct3 (funct7_of inst) x (imm_i inst) (rs2_of inst) in
      Leads-if (op == 0x37) _ _ (result-Leads (some (imm_u inst)) rd) (
        Leads-if (op == 0x17) _ _ (result-Leads (some (u32 (c.pc + imm_u inst))) rd) (
          Leads-if (op == 0x6f) _ _ far (
            Leads-if (op == 0x67) _ _ (Leads-if (not (funct3 == 0)) _ _ refused near) (
              Leads-if (op == 0x63) _ _ (exec_branch-Leads inst) (
                Leads-if (op == 0x03) _ _ (result-Leads loaded rd) (
                  Leads-if (op == 0x23) _ _ (exec_store-Leads b inst) (
                    Leads-if (op == 0x13) _ _ (result-Leads computed rd) (
                      Leads-if (op == 0x33) _ _
                        (result-Leads (alu_reg funct3 (funct7_of inst) x y) rd)
                        (Leads-if (op == 0x73) _ _ (exec_system-Leads inst pc) refused)))))))))

-- A successful result leaves aligned addresses.
Leaves : Option CpuRun → Type 0
Leaves none = Unit {0}
Leaves (some r) = r.done ≡ true → IsAligned r.cpu

executed-Leaves : (e : Option Exec) → Leads e → Leaves (elim e [ none ↦ none | some x ↦ retire x ])
unfolding Leaves Leads retire
executed-Leaves none h = tt
executed-Leaves (some x) h = elim (Bool-cases x.done) [
  | inr d ↦ rw (d, retire) (λ y. cc)
  | inl d ↦
      let (next, traps) = h d in
      rw (d, retire)
        (λ y. record {
          pc_aligned = next;
          traps = record { vector = traps.vector; return_to = traps.return_to };
        })
]

step-Leaves : (b : Bus) (c : Cpu) (s : Store) → HasTraps c → Leaves (step b c s)
unfolding step Leaves
step-Leaves b c s traps =
    let guard = c.halted || c.faulted || c.ecall_pending || is_null c.bus || not (c.pc % 4 == 0) in
    elim (Bool-cases guard) [
      | inl g ↦ rw (g, step) (λ x. cc)
      | inr g ↦
          let pc : c.pc % 4 ≡ 0 = ground (arith, g) in
          rw (g, step)
            (elim (Option-cases (Bus.read32 b s c.pc)) [
              | inl e ↦ rw (e, step) (λ x. cc)
              | inr (inst, e) ↦
                  rw (e, step)
                    (executed-Leaves (execute b inst c s (u32 (c.pc + 4)))
                      (execute-Leads c traps s (u32 (c.pc + 4)) (omega (arith, pc)) b inst pc))
            ])
    ]

-- A step that succeeds, on a CPU whose trap vector and return address are multiples of 4, leaves all
-- three addresses multiples of 4: the program counter, whatever the instruction jumped to, the trap
-- vector and the return address, whatever was written to their CSRs.
pub step-IsAligned :
    (b : Bus) (c : Cpu) (s : Store) (r : CpuRun)
    → HasTraps c
    → step b c s ≡ some r
    → r.done ≡ true
    → IsAligned r.cpu
unfolding Leaves
step-IsAligned b c s r traps e d = subst Leaves e (step-Leaves b c s traps) d
