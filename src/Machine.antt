-- ===== src/Machine.antt =====
-- `Machine`: src/maps-sim/src/system/machine.cpp. It owns the memory, the bus, the CPU, the NPU and
-- the console text; every pointer between them leads to these, which make one `Store`.
pub mod Ends
pub mod Zero
pub mod Syscall
pub mod Text
pub mod Calls
pub mod Tests
use maps.Prelude.{
  ℕ, zero, suc, ◌+◌, Bool, true, false, not, ◌&&◌, ◌||◌, Option, none, some, [], ◌∷◌, ◌++◌, bound,
  ◌==◌, if◌then◌else◌, u8, u32, bit_and,
}
use maps.Memory
use maps.Npu.Config.{dram_sizes}
use maps.Npu.Device
use maps.Bus.{Bus, Store}
use maps.Bus
use maps.Cpu.State.{Cpu, reg, set_reg}
use maps.Cpu.State
use maps.Cpu.{halt, clear_ecall}
use maps.Cpu

pub record Machine : Type 0 where
  pub bus : Bus
  pub cpu : Cpu
  pub store : Store
  pub exit_code : ℕ

abbrev pub bound_bus : Bus
bound_bus = record { memory = bound; npu = bound; console_output = bound }

-- The constructor, over a memory of any capacity.
unfoldable pub make_with : ℕ → Machine
make_with capacity =
    let mem = Memory.make capacity in
    record {
      bus = bound_bus;
      cpu = State.make bound;
      store = record { memory = mem; npu = Device.bind_memory bound mem Device.make; console = [] };
      exit_code = 0;
    }

unfoldable pub make : Machine
make = make_with dram_sizes

unfoldable pub reset : ℕ → Machine → Machine
reset pc m =
    let mem = m.store.memory in
    record {
      bus = bound_bus;
      cpu = State.reset pc (State.bind_bus bound m.cpu);
      store = record {
        memory = mem;
        npu = Device.bind_memory bound mem (Device.reset mem m.store.npu);
        console = [];
      };
      exit_code = 0;
    }

-- The register numbers, and the syscall numbers of include/runtime/syscall.h.
abbrev pub reg_a0 : ℕ
reg_a0 = 10

abbrev pub reg_a1 : ℕ
reg_a1 = 11

abbrev pub reg_a7 : ℕ
reg_a7 = 17

abbrev pub syscall_exit : ℕ
syscall_exit = 0

abbrev pub syscall_putchar : ℕ
syscall_putchar = 1

abbrev pub syscall_write : ℕ
syscall_write = 2

abbrev pub push_back : ℕ → Store → Store
push_back ch s = record s { console = s.console ++ (ch ∷ []) }

-- The loop of `MAPS_SYSCALL_WRITE` from byte `i` on, `n` bytes; the result is false where a byte
-- cannot be read.
unfoldable pub write_loop : Bus → ℕ → ℕ → ℕ → Store → Store × Bool
write_loop b arg0 i zero s = (s, true)
write_loop b arg0 i (suc n) s = elim (Bus.read8 b s (u32 (arg0 + i))) [
  | none ↦ (s, false)
  | some ch ↦ write_loop b arg0 (i + 1) n (push_back ch s)
]

-- `cpu_.set_reg(REG_A0, value); cpu_.clear_ecall();`.
abbrev pub answer : ℕ → Cpu → Cpu
answer value c = clear_ecall (set_reg reg_a0 value c)

unfoldable pub handle_syscall : Machine → Machine × Bool
handle_syscall m =
    let number = reg m.cpu reg_a7 in
    let arg0 = reg m.cpu reg_a0 in
    let arg1 = reg m.cpu reg_a1 in
    if number == syscall_exit
    then (record m { exit_code = arg0; cpu = halt m.cpu }, true)
    else if number == syscall_putchar
    then (
      record m { store = push_back (u8 (bit_and arg0 0xff)) m.store; cpu = answer 1 m.cpu },
      true,
    )
    else if number == syscall_write
    then (let (s, complete) = write_loop m.bus arg0 0 arg1 m.store in
        (record m { store = s; cpu = answer (if complete then arg1 else 0xffffffff) m.cpu }, true))
    else (record m { cpu = answer 0xffffffff m.cpu }, true)

-- `run` with the steps that are left; `none` is an NPU run that does not end.
unfoldable pub run : ℕ → Machine → Option (Machine × Bool)
run zero m = some (m, m.cpu.halted && not m.cpu.faulted)
run (suc n) m = elim (m.cpu.halted || m.cpu.faulted) [
  | true ↦ some (m, m.cpu.halted && not m.cpu.faulted)
  | false ↦ elim (Cpu.step m.bus m.cpu m.store) [
    | none ↦ none
    | some r ↦
        let m' = record m { cpu = r.cpu; store = r.store } in
        elim r.done [
          | false ↦ some (m', false)
          | true ↦ elim r.cpu.ecall_pending [
            | false ↦ run n m'
            | true ↦
                let (m'', handled) = handle_syscall m' in
                elim handled [ true ↦ run n m'' | false ↦ some (m'', false) ]
          ]
        ]
  ]
]
