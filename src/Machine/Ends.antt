-- ===== src/Machine/Ends.antt =====
-- The runs of the machine end.
use maps.Prelude.{ℕ, zero, suc, ◌||◌, Ends, ended, Ends-bind, Ends-split}
use maps.Cpu
use maps.Cpu.{CpuRun}
use maps.Cpu.Ends.{step-Ends}
use maps.Machine.{Machine, run, handle_syscall}

-- The machine after a step of its CPU.
abbrev after_step : Machine → CpuRun → Machine
after_step m r = record m { cpu = r.cpu; store = r.store }

-- A run of the machine ends, with a result after at most `max_steps` steps, whatever the registers,
-- the memory and the devices hold: no program can make the simulated NPU run for ever.
pub run-Ends : (max_steps : ℕ) (m : Machine) → Ends (run max_steps m)
unfolding run
run-Ends zero m = ended _
run-Ends (suc n) m = Ends-split (m.cpu.halted || m.cpu.faulted) _ _ (ended _) (
    Ends-bind (Cpu.step m.bus m.cpu m.store) _ (step-Ends m.bus m.cpu m.store) (λ r.
      let m' = after_step m r in
      Ends-split r.done _ _
        (Ends-split r.cpu.ecall_pending _ _
          (Ends-split (handle_syscall m').1 _ _ (run-Ends n (handle_syscall m').0) (ended _))
          (run-Ends n m'))
        (ended _)))
