-- ===== src/Machine/Syscall.antt =====
-- The system calls of a program on the machine: what an ECALL with no trap vector does.
use maps.Prelude.{
  ℕ, suc, ◌≡◌, refl, Bool, true, false, ◌||◌, some, ◌==◌, ◌+◌, u32, if◌then◌else◌, arith, set,
}
use maps.Bus
use maps.Bus.{Bus, Store}
use maps.Cpu.State.{reg}
use maps.Cpu.Trap.{IsReady, step-pending}
use maps.Machine.{Machine, run, handle_syscall, reg_a7}

-- The machine at an ECALL, and the machine that the call is handled on.
pub record IsCall (m : Machine) : Type 0 where
  pub ready : IsReady m.cpu
  pub no_vector : m.cpu.mtvec ≡ 0
  pub fetches : Bus.read32 m.bus m.store m.cpu.pc ≡ some 0x00000073

abbrev pub calling : Machine → Machine
calling m = record m {
  cpu = record m.cpu { regs = set m.cpu.regs 0 0; pc = u32 (m.cpu.pc + 4); ecall_pending = true };
}

-- `handle_syscall` returns true on every path.
both-true :
    (b : Bool) (x y : Machine × Bool) → x.1 ≡ true → y.1 ≡ true → (if b then x else y).1 ≡ true
both-true true x y hx hy = hx
both-true false x y hx hy = hy

handle_syscall-true : (m : Machine) → (handle_syscall m).1 ≡ true
unfolding handle_syscall
handle_syscall-true m =
    let number = reg m.cpu reg_a7 in
    both-true (number == 0) _ _ refl
      (both-true (number == 1) _ _ refl (both-true (number == 2) _ _ refl refl))

module _ (m : Machine) (call : IsCall m) where
  -- A step of the run at an ECALL hands the machine to `handle_syscall` and goes on.
  pub run-handles : (n : ℕ) → run (suc n) m ≡ run n (handle_syscall (calling m)).0
  unfolding run
  run-handles n =
      let on : (m.cpu.halted || m.cpu.faulted) ≡ false =
        ground (arith, call.ready.on, call.ready.sound) in
      let stepped = step-pending m.bus m.cpu m.store call.ready call.fetches call.no_vector in
      rw (on, run) (rw (stepped, run) (rw (handle_syscall-true (calling m), run) refl))
