-- ===== src/Cpu/Trap.antt =====
-- ECALL and MRET: the trap to a handler and the return from it.
use maps.Prelude.{
  ℕ, ◌≡◌, ◌≢◌, ◌∙◌, refl, true, false, not, ◌||◌, none, some, bound, is_null, ◌==◌, ◌%◌, ◌+◌, u32,
  arith, eq→==, sym, zero, suc, List, [], ◌∷◌, get_or, set,
}
use maps.Bus
use maps.Bus.{Bus, Store}
use maps.Cpu.{CpuRun, exec_system, execute, retire, step}
use maps.Cpu.Decode.{opcode_of}
use maps.Cpu.State.{Cpu, reg_at}

-- A CPU that can take a step: on, without a pending call, on a bus, at an aligned address.
pub record IsReady (c : Cpu) : Type 0 where
  pub on : c.halted ≡ false
  pub sound : c.faulted ≡ false
  pub free : c.ecall_pending ≡ false
  pub on_bus : c.bus ≡ bound
  pub pc_aligned : c.pc % 4 ≡ 0

module _ (b : Bus) (c : Cpu) (s : Store) (ready : IsReady c) where
  can_step :
      (c.halted || c.faulted || c.ecall_pending || is_null c.bus || not (c.pc % 4 == 0)) ≡ false
  can_step = ground (arith, ready.on, ready.sound, ready.free, ready.on_bus, ready.pc_aligned)

  -- A step at a fetched instruction.
  fetched :
      (inst : ℕ)
      → Bus.read32 b s c.pc ≡ some inst
      → step b c s ≡ elim (execute b inst c s (u32 (c.pc + 4))) [ none ↦ none | some e ↦ retire e ]
  unfolding step
  fetched inst e = rw (can_step, step) (rw (e, step) refl)

  -- The CPU in the handler.
  abbrev pub trapped : Cpu
  trapped = record c { regs = set c.regs 0 0; pc = c.mtvec; mepc = u32 (c.pc + 4); mcause = 11 }

  pub step-trapped :
      Bus.read32 b s c.pc ≡ some 0x00000073
      → c.mtvec ≢ 0
      → step b c s ≡ some (record { cpu = trapped; store = s; done = true })
  unfolding execute exec_system retire opcode_of
  step-trapped e vector =
      let set_up : (c.mtvec == 0) ≡ false = ground (arith, vector) in
      fetched 0x00000073 e ∙ rw (set_up, execute) (rw (ready.sound, execute) refl)

  pub step-pending :
      Bus.read32 b s c.pc ≡ some 0x00000073
      → c.mtvec ≡ 0
      → step b c s
        ≡ some (record {
          cpu = record c { regs = set c.regs 0 0; pc = u32 (c.pc + 4); ecall_pending = true };
          store = s;
          done = true;
        })
  unfolding execute exec_system retire opcode_of
  step-pending e vector =
      let set_up : (c.mtvec == 0) ≡ true = eq→== c.mtvec 0 vector in
      fetched 0x00000073 e ∙ rw (set_up, execute) (rw (ready.sound, execute) refl)

  pub step-returned :
      Bus.read32 b s c.pc ≡ some 0x30200073
      → c.mepc % 4 ≡ 0
      → step b c s
        ≡ some (record {
          cpu = record c { regs = set c.regs 0 0; pc = c.mepc };
          store = s;
          done = true;
        })
  unfolding execute exec_system retire opcode_of
  step-returned e aligned =
      let ok : (c.mepc % 4 == 0) ≡ true = eq→== (c.mepc % 4) 0 aligned in
      fetched 0x30200073 e ∙ rw (ok, execute) (rw (ready.sound, execute) refl)

-- Clearing x0 changes no register where x0 is 0 already.
cleared :
    (regs : List ℕ) → get_or regs 0 0 ≡ 0 → (i : ℕ) → get_or (set regs 0 0) i 0 ≡ get_or regs i 0
cleared [] zero_register i = refl
cleared (x ∷ regs) zero_register zero = sym zero_register
cleared (x ∷ regs) zero_register (suc i) = refl

-- What a call of an empty handler does: `t` is the state in the handler, `r` the one after it.
pub record Returns (b : Bus) (c : Cpu) (s : Store) (t r : CpuRun) : Type 0 where
  pub enters : step b c s ≡ some t
  pub leaves : step b t.cpu t.store ≡ some r
  pub in_handler : t.cpu.pc ≡ c.mtvec
  pub cause : t.cpu.mcause ≡ 11
  pub continues : r.done ≡ true
  pub resumed : r.cpu.pc ≡ u32 (c.pc + 4)
  pub registers : (i : ℕ) → reg_at r.cpu i ≡ reg_at c i
  pub same_store : r.store ≡ s
  pub ready : IsReady r.cpu

-- With a trap vector that is set, aligned and holds MRET, an ECALL of a CPU that can take a step
-- enters the handler with cause 11 and the step after it resumes at the next instruction, with
-- every register and the memory as before the call, and the CPU can take a step again.
pub ecall-mret :
    (b : Bus) (c : Cpu) (s : Store)
    → IsReady c
    → reg_at c 0 ≡ 0
    → c.mtvec ≢ 0
    → c.mtvec % 4 ≡ 0
    → Bus.read32 b s c.pc ≡ some 0x00000073
    → Bus.read32 b s c.mtvec ≡ some 0x30200073
    → (t : CpuRun) × (r : CpuRun) × Returns b c s t r
ecall-mret b c s ready zero_register vector vector_aligned call return =
    let t = trapped b c s ready in
    let in_handler : IsReady t = record {
      on = ready.on;
      sound = ready.sound;
      free = ready.free;
      on_bus = ready.on_bus;
      pc_aligned = vector_aligned;
    } in
    let back : u32 (c.pc + 4) % 4 ≡ 0 = omega (arith, ready.pc_aligned) in
    (
      _,
      _,
      record {
        enters = step-trapped b c s ready call vector;
        leaves = step-returned b t s in_handler return back;
        in_handler = refl;
        cause = refl;
        continues = refl;
        resumed = refl;
        registers = λ i.
            cleared (set c.regs 0 0) (cleared c.regs zero_register 0 ∙ zero_register) i
            ∙ cleared c.regs zero_register i;
        same_store = refl;
        ready = record {
          on = ready.on;
          sound = ready.sound;
          free = ready.free;
          on_bus = ready.on_bus;
          pc_aligned = back;
        };
      },
    )
