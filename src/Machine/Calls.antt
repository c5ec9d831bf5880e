-- ===== src/Machine/Calls.antt =====
-- What each system call gives the program: `handle_syscall` in a run of the machine.
use maps.Prelude.{
  ℕ, zero, suc, ◌≡◌, ◌≢◌, ◌∙◌, ap, refl, sym, subst, Bool, true, false, none, some, List, [], ◌∷◌,
  ◌++◌, ◌==◌, ◌%◌, ◌+◌, ◌<◌, ◌≤◌, u8, u32, bit_and, bit_and_mask, if◌then◌else◌, arith, ==→eq, ◌||◌,
  set, get_or, length, length-set, get_or-set_self, get_or-set_ne,
}
use maps.Bus
use maps.Bus.{Bus, Store}
use maps.Cpu.State.{reg, reg_at}
use maps.Cpu.{halt}
use maps.Cpu.Zero.{IsValid}
use maps.Machine.{Machine, run, handle_syscall, write_loop, push_back, answer}
use maps.Machine.Text.{IsText, Written, complete, stopped, write_loop-Written, append_nil}
use maps.Machine.Syscall.{IsCall, calling, run-handles}

-- What a call other than exit writes to the console and answers in a0.
pub data Effect (m : Machine) : List ℕ → ℕ → Type 0 where
  putchar : reg m.cpu 17 ≡ 1 → Effect m (reg m.cpu 10 % 256 ∷ []) 1
  write :
      (text : List ℕ)
      → reg m.cpu 17 ≡ 2
      → length text ≡ reg m.cpu 11
      → IsText m.bus m.store (reg m.cpu 10) text
      → Effect m text (reg m.cpu 11)
  write_stops :
      (text : List ℕ)
      → reg m.cpu 17 ≡ 2
      → length text < reg m.cpu 11
      → IsText m.bus m.store (reg m.cpu 10) text
      → Bus.read8 m.bus m.store (u32 (reg m.cpu 10 + length text)) ≡ none
      → Effect m text 0xffffffff
  unknown : 3 ≤ reg m.cpu 17 → Effect m [] 0xffffffff

-- A call that is answered: the next machine stands at the next instruction, with the text on the
-- console and the answer in a0, and is otherwise as before.
pub record Answers (m m' : Machine) (text : List ℕ) (value : ℕ) : Type 0 where
  pub resumed : m'.cpu.pc ≡ u32 (m.cpu.pc + 4)
  pub console : m'.store.console ≡ m.store.console ++ text
  pub memory : m'.store.memory ≡ m.store.memory
  pub device : m'.store.npu ≡ m.store.npu
  pub answered : reg_at m'.cpu 10 ≡ value
  pub registers : (i : ℕ) → i ≢ 10 → reg_at m'.cpu i ≡ reg_at m.cpu i
  pub not_pending : m'.cpu.ecall_pending ≡ false
  pub still_on : m'.cpu.halted ≡ m.cpu.halted
  pub not_faulted : m'.cpu.faulted ≡ m.cpu.faulted
  pub mstatus : m'.cpu.mstatus ≡ m.cpu.mstatus
  pub mtvec : m'.cpu.mtvec ≡ m.cpu.mtvec
  pub mepc : m'.cpu.mepc ≡ m.cpu.mepc
  pub mcause : m'.cpu.mcause ≡ m.cpu.mcause
  pub cpu_bus : m'.cpu.bus ≡ m.cpu.bus
  pub same_bus : m'.bus ≡ m.bus
  pub exit_code : m'.exit_code ≡ m.exit_code
  pub valid : IsValid m'.cpu

module _ (m : Machine) (valid : IsValid m.cpu) where
  cleared_reg : (i : ℕ) → reg_at (calling m).cpu i ≡ reg_at m.cpu i
  cleared_reg zero =
      get_or-set_self m.cpu.regs 0 0 0 (omega (arith, valid.registers)) ∙ sym valid.zero_register
  cleared_reg (suc i) = get_or-set_ne m.cpu.regs 0 (suc i) 0 0 (λ e. omega (arith, e))

  answer-Answers :
      (text : List ℕ) (value : ℕ)
      → Answers m
          (record (calling m) {
            store = record m.store { console = m.store.console ++ text };
            cpu = answer value (calling m).cpu;
          })
          text
          value
  answer-Answers text value =
      let regs = set m.cpu.regs 0 0 in
      let long : length regs ≡ 32 = length-set m.cpu.regs 0 0 ∙ valid.registers in
      let kept : (i : ℕ) → i ≢ 10 → get_or (set regs 10 value) i 0 ≡ reg_at m.cpu i =
        λ i ne. get_or-set_ne regs 10 i value 0 (λ e. ne (sym e)) ∙ cleared_reg i in
      record {
        resumed = refl;
        console = refl;
        memory = refl;
        device = refl;
        answered = get_or-set_self regs 10 value 0 (omega (arith, long));
        registers = kept;
        not_pending = refl;
        still_on = refl;
        not_faulted = refl;
        mstatus = refl;
        mtvec = refl;
        mepc = refl;
        mcause = refl;
        cpu_bus = refl;
        same_bus = refl;
        exit_code = refl;
        valid = record {
          registers = length-set regs 10 value ∙ long;
          zero_register = kept 0 (λ e. omega (arith, e)) ∙ valid.zero_register;
          not_faulted = valid.not_faulted;
        };
      }

  -- `number` and the arguments as `handle_syscall` reads them.
  abbrev a0 : ℕ
  a0 = reg m.cpu 10

  abbrev with_console : List ℕ → Store
  with_console text = record m.store { console = m.store.console ++ text }

  abbrev answered_with : List ℕ → ℕ → Machine
  answered_with text value = record (calling m) {
    store = with_console text;
    cpu = answer value (calling m).cpu;
  }

  -- The state after `handle_syscall` for each call but exit.
  Handled : Machine → Type 0
  Handled m' = (text : List ℕ) × (value : ℕ) × Effect m text value × Answers m m' text value

  -- The machine after the write call of `len` bytes at `addr`.
  abbrev written : ℕ → ℕ → Machine
  written addr len =
      let (s, whole) = write_loop m.bus addr 0 len m.store in
      record (calling m) {
        store = s;
        cpu = answer (if whole then len else 0xffffffff) (calling m).cpu;
      }

  write-Handled :
      reg m.cpu 17 ≡ 2
      → (r : Store × Bool) → Written m.bus a0 (reg m.cpu 11) m.store r
      → Handled (record (calling m) {
        store = r.0;
        cpu = answer (if r.1 then reg m.cpu 11 else 0xffffffff) (calling m).cpu;
      })
  unfolding Handled
  write-Handled number r (complete text l t) =
      (text, reg m.cpu 11, write text number l t, answer-Answers text (reg m.cpu 11))
  write-Handled number r (stopped text l t end) =
      (text, 0xffffffff, write_stops text number l t end, answer-Answers text 0xffffffff)

  written-Handled : reg m.cpu 17 ≡ 2 → Handled (written a0 (reg m.cpu 11))
  written-Handled number =
      let len = reg m.cpu 11 in
      let at : a0 + 0 ≡ a0 = omega arith in
      write-Handled number (write_loop m.bus a0 0 len m.store) (
        subst (λ a. Written m.bus a len m.store (write_loop m.bus a0 0 len m.store)) at
          (write_loop-Written m.bus a0 0 len m.store))

  Handled-if :
      (b : Bool) (x y : Machine × Bool)
      → (b ≡ true → Handled x.0)
      → (b ≡ false → Handled y.0)
      → Handled (if b then x else y).0
  Handled-if true x y hx hy = hx refl
  Handled-if false x y hx hy = hy refl

  handle_syscall-Handled : reg m.cpu 17 ≢ 0 → Handled (handle_syscall (calling m)).0
  unfolding handle_syscall Handled
  handle_syscall-Handled not_exit =
      let n : reg (calling m).cpu 17 ≡ reg m.cpu 17 = cleared_reg 17 in
      let x : reg (calling m).cpu 10 ≡ a0 = cleared_reg 10 in
      let y : reg (calling m).cpu 11 ≡ reg m.cpu 11 = cleared_reg 11 in
      let number = reg (calling m).cpu 17 in
      Handled-if (number == 0) _ _ (λ e. absurd (not_exit (sym n ∙ ==→eq number 0 e)))
        (λ e0.
          Handled-if (number == 1) _ _
            (λ e.
              let ch : a0 % 256 ≡ u8 (bit_and (reg (calling m).cpu 10) 0xff) =
                omega (arith, bit_and_mask 8 (reg (calling m).cpu 10), x) in
              subst
                (λ v. Handled (record (calling m) {
                  store = push_back v m.store;
                  cpu = answer 1 (calling m).cpu;
                }))
                ch
                (
                  a0 % 256 ∷ [],
                  1,
                  putchar (sym n ∙ ==→eq number 1 e),
                  answer-Answers (a0 % 256 ∷ []) 1,
                ))
            (λ e1.
              Handled-if (number == 2) _ _
                (λ e.
                  subst (λ p. Handled (written p (reg (calling m).cpu 11))) (sym x)
                    (subst (λ q. Handled (written a0 q)) (sym y)
                      (written-Handled (sym n ∙ ==→eq number 2 e))))
                (λ e2.
                  subst
                    (λ c. Handled (record (calling m) {
                      store = record m.store { console = c };
                      cpu = answer 0xffffffff (calling m).cpu;
                    }))
                    (append_nil m.store.console)
                    (
                      [],
                      0xffffffff,
                      unknown (ground (arith, n, e0, e1, e2)),
                      answer-Answers [] 0xffffffff,
                    ))))

-- A run at an ECALL with no trap vector and a call other than exit goes on, in one step, from a
-- machine that differs in what the call is for: putchar writes the byte of a0 and answers 1, write
-- writes the a1 bytes at a0 and answers their number, or those before the first that cannot be read
-- and answers -1, and any other number answers -1. The program counter is at the next instruction,
-- the call is no longer pending, and memory, NPU, buses, exit code, the four CSRs, the flags `halted`
-- and `faulted` and all registers but a0 are as before.
pub run-Answers :
    (m : Machine)
    → IsCall m
    → IsValid m.cpu
    → reg m.cpu 17 ≢ 0
    → (n : ℕ)
    → (m' : Machine) × (text : List ℕ) × (value : ℕ) × Effect m text value
      × Answers m m' text value
      × (run (suc n) m ≡ run n m')
unfolding Handled
run-Answers m call valid not_exit n =
    let (text, value, effect, answers) = handle_syscall-Handled m valid not_exit in
    (_, text, value, effect, answers, run-handles m call n)

run-halted :
    (n : ℕ) (m : Machine) → m.cpu.halted ≡ true → m.cpu.faulted ≡ false → run n m ≡ some (m, true)
unfolding run
run-halted zero m halted sound = ap (λ b. some (m, b)) (ground (arith, halted, sound))
run-halted (suc n) m halted sound =
    let off : (m.cpu.halted || m.cpu.faulted) ≡ true = ground (arith, halted, sound) in
    rw (off, run) (ap (λ b. some (m, b)) (ground (arith, halted, sound)))

-- A run at an ECALL with no trap vector and a7 = 0 ends with success, the CPU halted, a0 as the
-- exit code, and memory, NPU and console as they were.
pub run-exits :
    (m : Machine)
    → IsCall m
    → IsValid m.cpu
    → reg m.cpu 17 ≡ 0
    → (n : ℕ)
    → (m' : Machine) × (run (suc n) m ≡ some (m', true))
      × (m'.exit_code ≡ reg m.cpu 10)
      × (m'.store ≡ m.store)
      × (m'.cpu.halted ≡ true)
unfolding run handle_syscall
run-exits m call valid exit n =
    let number : reg (calling m).cpu 17 ≡ 0 = cleared_reg m valid 17 ∙ exit in
    let ended : (handle_syscall (calling m)).0
        ≡ record (calling m) { exit_code = reg (calling m).cpu 10; cpu = halt (calling m).cpu } =
      rw (number, handle_syscall) refl in
    let m' : Machine = record (calling m) {
      exit_code = reg (calling m).cpu 10;
      cpu = halt (calling m).cpu;
    } in
    (
      m',
      run-handles m call n ∙ ap (run n) ended ∙ run-halted n m' refl valid.not_faulted,
      cleared_reg m valid 10,
      refl,
      refl,
    )
