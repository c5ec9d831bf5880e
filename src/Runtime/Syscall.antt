-- ===== src/Runtime/Syscall.antt =====
-- The system calls of a C program: src/maps-sim/src/runtime/syscall.c, as it is compiled for RISC-V.
-- A program is a function over the machine that runs it. The inline assembly puts its operands into
-- a0, a1 and a7 and executes ECALL, which the machine hands to `handle_syscall` where no trap vector
-- is set; other registers are those of the code around.
pub mod Effects
use maps.Prelude.{ℕ, true, Option, none, some, if◌then◌else◌, u8}
use maps.Bus.{Bus, Store}
use maps.Cpu.State.{reg, set_reg}
use maps.Machine.{
  Machine, handle_syscall, reg_a0, reg_a1, reg_a7, syscall_exit, syscall_putchar, syscall_write,
}
use maps.Runtime.Access

-- `none`: a loop does not end. `(m, none)`: the CPU is halted or has faulted.
abbrev pub Program : Type 0 → Type 0
Program A = Machine → Option (Machine × Option A)

abbrev pub pure : {A : Type 0} → A → Program A
pure a m = some (m, some a)

-- What follows an outcome.
abbrev pub after :
    {A B : Type 0} → (A → Program B) → Option (Machine × Option A) → Option (Machine × Option B)
after f none = none
after f (some (m, none)) = some (m, none)
after f (some (m, some a)) = f a m

infixl 5 ◌>>=◌ ◌>>◌
abbrev pub ◌>>=◌ : {A B : Type 0} → Program A → (A → Program B) → Program B
◌>>=◌ p f m = after f (p m)

abbrev pub ◌>>◌ : {A B : Type 0} → Program A → Program B → Program B
p >> q = p >>= λ _. q

-- Code that only loads and stores; a refused one faults the CPU.
abbrev pub on_machine :
    {A : Type 0} → Machine → Option (Store × Option A) → Option (Machine × Option A)
on_machine m none = none
on_machine m (some (s, none)) =
    some (record m { store = s; cpu = record (m.cpu) { faulted = true } }, none)
on_machine m (some (s, some a)) = some (record m { store = s }, some a)

abbrev pub on_bus : {A : Type 0} → (Bus → Access.M A) → Program A
on_bus code m = on_machine m (code m.bus m.store)

-- The ECALL, with its operands in place.
abbrev pub ecall : Program ℕ
ecall m =
    let (m', _) = handle_syscall m in
    some (m', if m'.cpu.halted then none else some (reg m'.cpu reg_a0))

unfoldable pub maps_ecall1 : (number arg0 : ℕ) → Program ℕ
maps_ecall1 number arg0 m =
    ecall (record m { cpu = set_reg reg_a7 number (set_reg reg_a0 arg0 m.cpu) })

unfoldable pub maps_ecall2 : (number arg0 arg1 : ℕ) → Program ℕ
maps_ecall2 number arg0 arg1 m =
    ecall
      (record m { cpu = set_reg reg_a7 number (set_reg reg_a1 arg1 (set_reg reg_a0 arg0 m.cpu)) })

-- `for (;;) {}`.
abbrev pub forever : Program (Unit {0})
forever m = none

unfoldable pub sys_exit : ℕ → Program (Unit {0})
sys_exit code = maps_ecall1 syscall_exit code >> forever

unfoldable pub sys_putchar : ℕ → Program ℕ
sys_putchar ch = maps_ecall1 syscall_putchar (u8 ch)

unfoldable pub sys_write : ℕ → ℕ → Program ℕ
sys_write text len = maps_ecall2 syscall_write text len
