-- ===== src/Machine/Zero.antt =====
-- Register x0 in a run of the machine, system calls included.
use maps.Prelude.{
  ℕ, zero, suc, ◌≡◌, refl, Bool, true, false, ◌||◌, Option, none, some, ◌∙◌, subst, arith,
  length-set, get_or-set_ne, ◌==◌, if◌then◌else◌,
}
use maps.Cpu
use maps.Cpu.{CpuRun, halt}
use maps.Cpu.State.{Cpu, reg}
use maps.Cpu.Zero.{IsValid, step-IsValid}
use maps.Machine.{
  Machine, run, handle_syscall, answer, syscall_exit, syscall_putchar, syscall_write, reg_a0,
  reg_a7,
}

answer-IsValid : (value : ℕ) (c : Cpu) → IsValid c → IsValid (answer value c)
answer-IsValid value c ok = record {
  registers = length-set c.regs reg_a0 value ∙ ok.registers;
  zero_register = get_or-set_ne c.regs reg_a0 0 value 0 (λ e. omega (arith, e)) ∙ ok.zero_register;
  not_faulted = ok.not_faulted;
}

IsValid-if :
    (b : Bool) (x y : Machine × Bool)
    → IsValid x.0.cpu
    → IsValid y.0.cpu
    → IsValid (if b then x else y).0.cpu
IsValid-if true x y hx hy = hx
IsValid-if false x y hx hy = hy

handle_syscall-IsValid : (m : Machine) → IsValid m.cpu → IsValid (handle_syscall m).0.cpu
unfolding handle_syscall
handle_syscall-IsValid m ok =
    let number = reg m.cpu reg_a7 in
    IsValid-if (number == syscall_exit) _ _
      (record {
        registers = ok.registers;
        zero_register = ok.zero_register;
        not_faulted = ok.not_faulted;
      })
      (IsValid-if (number == syscall_putchar) _ _ (answer-IsValid 1 m.cpu ok) (
        IsValid-if (number == syscall_write) _ _ (answer-IsValid _ m.cpu ok)
          (answer-IsValid 0xffffffff m.cpu ok)))

-- A run that succeeds leaves a valid CPU.
Settles : Option (Machine × Bool) → Type 0
Settles none = Unit {0}
Settles (some (m, ok)) = ok ≡ true → IsValid m.cpu

Settles-split :
    (b : Bool) (x y : Option (Machine × Bool))
    → (b ≡ true → Settles x)
    → (b ≡ false → Settles y)
    → Settles (elim b [ true ↦ x | false ↦ y ])
Settles-split true x y hx hy = hx refl
Settles-split false x y hx hy = hy refl

Settles-bind :
    (o : Option CpuRun) (f : CpuRun → Option (Machine × Bool))
    → ((r : CpuRun) → o ≡ some r → Settles (f r))
    → Settles (elim o [ none ↦ none | some r ↦ f r ])
unfolding Settles
Settles-bind none f h = tt
Settles-bind (some r) f h = h r refl

run-Settles : (n : ℕ) (m : Machine) → IsValid m.cpu → Settles (run n m)
unfolding run Settles
run-Settles zero m ok = λ _. ok
run-Settles (suc n) m ok =
    Settles-split (m.cpu.halted || m.cpu.faulted) _ _ (λ _ _. ok)
      (λ _. Settles-bind (Cpu.step m.bus m.cpu m.store) _ (λ r e.
        let m' : Machine = record m { cpu = r.cpu; store = r.store } in
        Settles-split r.done _ _
          (λ d.
            let valid = step-IsValid m.bus m.cpu m.store r ok.registers e d in
            Settles-split r.cpu.ecall_pending _ _
              (λ _.
                Settles-split (handle_syscall m').1 _ _
                  (λ _. run-Settles n (handle_syscall m').0 (handle_syscall-IsValid m' valid))
                  (λ _ x. handle_syscall-IsValid m' valid))
              (λ _. run-Settles n m' valid))
          (λ _ x. cc)))

-- A run of the machine that succeeds keeps its CPU valid, through instructions, traps and system
-- calls: 32 registers, x0 equal to 0 and no fault.
pub run-IsValid :
    (max_steps : ℕ) (m m' : Machine)
    → IsValid m.cpu
    → run max_steps m ≡ some (m', true)
    → IsValid m'.cpu
unfolding Settles
run-IsValid max_steps m m' ok e = subst Settles e (run-Settles max_steps m ok) refl
