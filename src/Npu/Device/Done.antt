-- ===== src/Npu/Device/Done.antt =====
-- The state of the device after a start command that succeeds.
use maps.Prelude.{
  ◌≡◌, ap, ◌∙◌, Bool, true, false, none, some, Option, is_null, Bool-cases, inl, inr,
}
use maps.Memory.{Memory}
use maps.Npu.Controller
use maps.Npu.Controller.Done.{run-Reports, Reports, state_of}
use maps.Npu.Controller.Monad.{Npu}
use maps.Npu.Descriptor
use maps.Npu.Descriptor.{Descriptor, load_from_memory, validate}
use maps.Npu.Descriptor.Valid.{load_from_memory-loaded}
use maps.Npu.Device.{NpuDevice, DeviceRun, run_controller, start}
use maps.Npu.Status.{NpuState}

-- A success leaves the device DONE.
abbrev pub Answers : Option DeviceRun → Type 0
Answers none = Unit {0}
Answers (some r) = r.done ≡ true → r.device.controller.state ≡ NpuState.done

run_controller-Answers : (d : NpuDevice) (mem : Memory) → Answers (run_controller d mem)
unfolding run_controller
run_controller-Answers d mem = answers (Controller.run s) (run-Reports s)
  where
    s : Npu
    s = record { controller = d.controller; memory = mem }

    answers :
        (o : Option (Npu × Bool))
        → Reports o
        → Answers (elim o [
          | none ↦ none
          | some (s, done) ↦ some (record {
            device = record d { controller = s.controller };
            memory = s.memory;
            done = done;
          })
        ])
    answers none h = tt
    answers (some (s, done)) h = λ e. h ∙ ap state_of e

pub start-Answers : (d : NpuDevice) (mem : Memory) → Answers (start d mem)
unfolding start Controller.submit
start-Answers d mem =
    let desc = (load_from_memory mem d.desc_addr Descriptor.make).0 in
    let loaded = load_from_memory-loaded mem d.desc_addr in
    elim (Bool-cases (is_null d.memory)) [
      | inl n ↦ rw n (λ e. absurd (false_not_true e))
      | inr n ↦
          rw (n, loaded)
            (elim (Bool-cases (validate desc)) [
              | inl v ↦ rw v (run_controller-Answers _ mem)
              | inr v ↦ rw v (λ e. absurd (false_not_true e))
            ])
    ]
  where
    false_not_true : false ≡ true → ⊥
    false_not_true e = cc
