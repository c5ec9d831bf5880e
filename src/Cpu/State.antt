-- ===== src/Cpu/State.antt =====
-- The state of `Cpu`, its constructor, `reset` and register access.
use maps.Prelude.{
  ℕ, Bool, false, not, ◌&&◌, List, Ptr, get_or, set, replicate, ltb, ◌==◌, if◌then◌else◌,
}

pub record Cpu : Type 0 where
  pub bus : Ptr
  pub regs : List ℕ
  pub pc : ℕ
  pub halted : Bool
  pub faulted : Bool
  pub ecall_pending : Bool
  pub mstatus : ℕ
  pub mtvec : ℕ
  pub mepc : ℕ
  pub mcause : ℕ

abbrev pub make : Ptr → Cpu
make bus = record {
  bus = bus;
  regs = replicate 32 0;
  pc = 0;
  halted = false;
  faulted = false;
  ecall_pending = false;
  mstatus = 0;
  mtvec = 0;
  mepc = 0;
  mcause = 0;
}

abbrev pub bind_bus : Ptr → Cpu → Cpu
bind_bus bus c = record c { bus = bus }

abbrev pub reset : ℕ → Cpu → Cpu
reset pc c = record c {
  regs = replicate 32 0;
  pc = pc;
  halted = false;
  faulted = false;
  ecall_pending = false;
  mstatus = 0;
  mtvec = 0;
  mepc = 0;
  mcause = 0;
}

-- `regs_[index]`, and a write to it.
abbrev pub reg_at : Cpu → ℕ → ℕ
reg_at c index = get_or c.regs index 0

abbrev pub put : ℕ → ℕ → Cpu → Cpu
put index value c = record c { regs = set c.regs index value }

-- The member functions `reg` and `set_reg`.
abbrev pub reg : Cpu → ℕ → ℕ
reg c index = if ltb index 32 then reg_at c index else 0

abbrev pub set_reg : ℕ → ℕ → Cpu → Cpu
set_reg index value c = if not (index == 0) && ltb index 32 then put index value c else c
