-- ===== src/Runtime/Syscall/Effects.antt =====
-- What the system calls do to the machine.
use maps.Prelude.{
  ℕ, ◌≡◌, ◌∙◌, ap, ap₂, refl, sym, subst, Bool, Option, true, false, some, none, List, ◌++◌, ◌<◌,
  ◌+◌, u8, arith, length, length-set, set, get_or-set_self, get_or-set_ne, if◌then◌else◌, bit_and,
  bit_and_mask, [], ◌∷◌,
}
use maps.Cpu.{halt}
use maps.Cpu.State.{Cpu, reg, set_reg}
use maps.Bus.{Store}
use maps.Machine.{Machine, handle_syscall, answer, push_back}
use maps.Machine.Text.{IsText, write_loop-text}
use maps.Runtime.Syscall.{
  Program, after, maps_ecall1, maps_ecall2, sys_exit, sys_putchar, sys_write,
}

-- A machine in the middle of a program.
pub record IsRunning (m : Machine) : Type 0 where
  pub registers : length m.cpu.regs ≡ 32
  pub on : m.cpu.halted ≡ false

-- The operands of a call in the registers.
module _ (c : Cpu) (long : length c.regs ≡ 32) (number arg0 arg1 : ℕ) where
  abbrev operands : Cpu
  operands = set_reg 17 number (set_reg 11 arg1 (set_reg 10 arg0 c))

  pub length-operands : length operands.regs ≡ 32
  length-operands =
      length-set (set (set c.regs 10 arg0) 11 arg1) 17 number
      ∙ length-set (set c.regs 10 arg0) 11 arg1
      ∙ length-set c.regs 10 arg0
      ∙ long

  pub operands_a7 : reg operands 17 ≡ number
  operands_a7 =
      let one = length-set (set c.regs 10 arg0) 11 arg1 in
      let two = length-set c.regs 10 arg0 in
      get_or-set_self (set (set c.regs 10 arg0) 11 arg1) 17 number 0 (omega (arith, one, two, long))

  pub operands_a1 : reg operands 11 ≡ arg1
  operands_a1 =
      let two = length-set c.regs 10 arg0 in
      get_or-set_ne (set (set c.regs 10 arg0) 11 arg1) 17 11 number 0 (λ e. omega (arith, e))
      ∙ get_or-set_self (set c.regs 10 arg0) 11 arg1 0 (omega (arith, two, long))

  pub operands_a0 : reg operands 10 ≡ arg0
  operands_a0 =
      get_or-set_ne (set (set c.regs 10 arg0) 11 arg1) 17 10 number 0 (λ e. omega (arith, e))
      ∙ get_or-set_ne (set c.regs 10 arg0) 11 10 arg1 0 (λ e. omega (arith, e))
      ∙ get_or-set_self c.regs 10 arg0 0 (omega (arith, long))

-- The machine after a call that is answered: only the console and registers differ.
pub record Says (m m' : Machine) (text : List ℕ) : Type 0 where
  pub same_bus : m'.bus ≡ m.bus
  pub said : m'.store ≡ record (m.store) { console = m.store.console ++ text }
  pub same_code : m'.exit_code ≡ m.exit_code
  pub running : IsRunning m'

-- The calls on operands in the registers.
handle_write :
    (m : Machine) (addr : ℕ) (text : List ℕ)
    → reg m.cpu 17 ≡ 2
    → reg m.cpu 10 ≡ addr
    → reg m.cpu 11 ≡ length text
    → IsText m.bus m.store addr text
    → handle_syscall m ≡ (
      record m {
        store = record (m.store) { console = m.store.console ++ text };
        cpu = answer (length text) m.cpu;
      },
      true,
    )
unfolding handle_syscall
handle_write m addr text a7 a0 a1 t =
    let at : addr + 0 ≡ addr = omega arith in
    let loop =
      write_loop-text m.bus addr 0 m.store text
        (subst (λ a. IsText m.bus m.store a text) (sym at) t) in
    rw (a7, a0, a1, handle_syscall)
      (ap
        (λ (r : Store × Bool). (
          record m { store = r.0; cpu = answer (if r.1 then length text else 0xffffffff) m.cpu },
          true,
        ))
        loop)

handle_putchar :
    (m : Machine) (ch : ℕ)
    → reg m.cpu 17 ≡ 1
    → reg m.cpu 10 ≡ ch
    → handle_syscall m
      ≡ (record m { store = push_back (u8 (bit_and ch 0xff)) m.store; cpu = answer 1 m.cpu }, true)
unfolding handle_syscall
handle_putchar m ch a7 a0 = rw (a7, a0, handle_syscall) refl

handle_exit :
    (m : Machine) (code : ℕ)
    → reg m.cpu 17 ≡ 0
    → reg m.cpu 10 ≡ code
    → handle_syscall m ≡ (record m { exit_code = code; cpu = halt m.cpu }, true)
unfolding handle_syscall
handle_exit m code a7 a0 = rw (a7, a0, handle_syscall) refl

-- What the ECALL makes of the machine's answer.
abbrev outcome : Machine × Bool → Option (Machine × Option ℕ)
outcome p = some (p.0, if p.0.cpu.halted then none else some (reg p.0.cpu 10))

module _ (m : Machine) (running : IsRunning m) where
  -- The machine after a call that is answered.
  abbrev answered : Cpu → List ℕ → ℕ → Machine
  answered c text value = record m {
    store = record (m.store) { console = m.store.console ++ text };
    cpu = answer value c;
  }

  answered-Says :
      (c : Cpu) (text : List ℕ) (value : ℕ)
      → length c.regs ≡ 32
      → c.halted ≡ false
      → (outcome (answered c text value, true) ≡ some (answered c text value, some value))
        × Says m (answered c text value) text
  answered-Says c text value long on = (
    ap₂ (λ h v. some (answered c text value, if h then none else some v)) on
        (get_or-set_self c.regs 10 value 0 (omega (arith, long))),
    record {
      same_bus = refl;
      said = refl;
      same_code = refl;
      running = record { registers = length-set c.regs 10 value ∙ long; on = on };
    },
  )

  -- A text in memory goes to the console, and the answer is its length.
  pub sys_write-Says :
      (addr : ℕ) (text : List ℕ)
      → IsText m.bus m.store addr text
      → (m' : Machine) × (sys_write addr (length text) m ≡ some (m', some (length text)))
        × Says m m' text
  unfolding sys_write maps_ecall2
  sys_write-Says addr text t =
      let len = length text in
      let long = running.registers in
      let c = operands m.cpu long 2 addr len in
      let (done, says) =
        answered-Says c text len (length-operands m.cpu long 2 addr len) running.on in
      (
        answered c text len,
        ap outcome (
              handle_write (record m { cpu = c }) addr text (operands_a7 m.cpu long 2 addr len)
                (operands_a0 m.cpu long 2 addr len) (operands_a1 m.cpu long 2 addr len) t)
            ∙ done,
        says,
      )

  -- The two operands of the other calls.
  abbrev operand : ℕ → ℕ → Cpu
  operand number arg0 = set_reg 17 number (set_reg 10 arg0 m.cpu)

  length-operand : (number arg0 : ℕ) → length ((operand number arg0).regs) ≡ 32
  length-operand number arg0 =
      length-set (set m.cpu.regs 10 arg0) 17 number
      ∙ length-set m.cpu.regs 10 arg0
      ∙ running.registers

  operand_a7 : (number arg0 : ℕ) → reg (operand number arg0) 17 ≡ number
  operand_a7 number arg0 =
      get_or-set_self (set m.cpu.regs 10 arg0) 17 number 0
        (omega (arith, length-set m.cpu.regs 10 arg0, running.registers))

  operand_a0 : (number arg0 : ℕ) → reg (operand number arg0) 10 ≡ arg0
  operand_a0 number arg0 =
      get_or-set_ne (set m.cpu.regs 10 arg0) 17 10 number 0 (λ e. omega (arith, e))
      ∙ get_or-set_self m.cpu.regs 10 arg0 0 (omega (arith, running.registers))

  -- A character goes to the console, and the answer is 1.
  pub sys_putchar-Says :
      (ch : ℕ)
      → ch < 256
      → (m' : Machine) × (sys_putchar ch m ≡ some (m', some 1)) × Says m m' (ch ∷ [])
  unfolding sys_putchar maps_ecall1
  sys_putchar-Says ch byte =
      let c = operand 1 (u8 ch) in
      let (done, says) = answered-Says c (ch ∷ []) 1 (length-operand 1 (u8 ch)) running.on in
      let same : u8 (bit_and (u8 ch) 0xff) ≡ ch = omega (arith, byte, bit_and_mask 8 (u8 ch)) in
      let said =
        λ (x : ℕ). outcome (record m { store = push_back x m.store; cpu = answer 1 c }, true) in
      (
        answered c (ch ∷ []) 1,
        ap outcome (
              handle_putchar (record m { cpu = c }) (u8 ch) (operand_a7 1 (u8 ch))
                (operand_a0 1 (u8 ch)))
            ∙ ap said same
            ∙ done,
        says,
      )

  -- The exit call does not return, and its code is that of the machine.
  pub sys_exit-stops :
      (code : ℕ)
      → (m' : Machine) × (sys_exit code m ≡ some (m', none))
        × (m'.exit_code ≡ code)
        × (m'.cpu.halted ≡ true)
        × (m'.store ≡ m.store)
  unfolding sys_exit maps_ecall1
  sys_exit-stops code =
      let c = operand 0 code in
      (
        record m { exit_code = code; cpu = halt c },
        ap (λ p. after forever_on (outcome p))
            (handle_exit (record m { cpu = c }) code (operand_a7 0 code) (operand_a0 0 code)),
        refl,
        refl,
        refl,
      )
    where
      forever_on : ℕ → Program (Unit {0})
      forever_on value m = none
