-- ===== src/Machine/Tests.antt =====
-- Runs of the machine: after its construction, of a program that exits, and of one that writes.
use maps.Prelude.{◌≡◌, refl, true, some, ℕ, List, [], ◌∷◌, set, replicate, arith, Ends}
use maps.Bus.{read32}
use maps.Cpu.{step, execute, retire}
use maps.Cpu.Decode.{opcode_of}
use maps.Cpu.State
use maps.Cpu.Zero.{IsValid}
use maps.Machine.{Machine, make, run, bound_bus, handle_syscall}
use maps.Machine.Syscall.{IsCall}
use maps.Machine.Calls.{Effect, Answers, run-Answers, run-exits}
use maps.Machine.Ends.{run-Ends}
use maps.Machine.Zero.{run-IsValid}
use maps.Memory
use maps.Npu.Device
use maps.Prelude.{bound}

run-Ends_example : Ends (run 100 make)
run-Ends_example = run-Ends 100 make

-- `ecall` with a7 = 0.
abbrev exits : Machine
exits = record {
  bus = bound_bus;
  cpu = State.make bound;
  store = record { memory = record { words = 0x00000073 ∷ [] }; npu = Device.make; console = [] };
  exit_code = 7;
}

abbrev exited : Machine
exited = record exits { cpu = record (State.make bound) { pc = 4; halted = true }; exit_code = 0 }

exits_runs : run 5 exits ≡ some (exited, true)
unfolding run step read32 execute retire handle_syscall Memory.size Memory.read opcode_of
exits_runs = refl

make-IsValid : IsValid (State.make bound)
make-IsValid = record { registers = refl; zero_register = refl; not_faulted = refl }

run-IsValid_example : IsValid exited.cpu
run-IsValid_example = run-IsValid 5 exits exited make-IsValid exits_runs

-- `ecall` with a7 = 2, a0 = 0 and a1 = 5: the second byte past the word is not memory.
abbrev writes : Machine
writes = record exits {
  cpu = record (State.make bound) { regs = set (set (replicate 32 0) 17 2) 11 5 };
}

exits-IsCall : IsCall exits
unfolding read32 Memory.size Memory.read
exits-IsCall = record {
  ready = record { on = refl; sound = refl; free = refl; on_bus = refl; pc_aligned = refl };
  no_vector = refl;
  fetches = refl;
}

writes-IsCall : IsCall writes
unfolding read32 Memory.size Memory.read
writes-IsCall = record {
  ready = record { on = refl; sound = refl; free = refl; on_bus = refl; pc_aligned = refl };
  no_vector = refl;
  fetches = refl;
}

run-Answers_example :
    (m' : Machine) × (text : List ℕ) × (value : ℕ) × Effect writes text value
    × Answers writes m' text value
    × (run 5 writes ≡ run 4 m')
run-Answers_example =
    run-Answers writes writes-IsCall
      (record { registers = refl; zero_register = refl; not_faulted = refl })
      (λ e. omega (arith, e)) 4

run-exits_example :
    (m' : Machine) × (run 5 exits ≡ some (m', true))
    × (m'.exit_code ≡ 0)
    × (m'.store ≡ exits.store)
    × (m'.cpu.halted ≡ true)
run-exits_example = run-exits exits exits-IsCall make-IsValid refl 4
