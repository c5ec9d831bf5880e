-- ===== src/Npu/Device/Protocol.antt =====
-- The device as a program sees it: the states that writes to its registers lead to, and what the
-- status and the error registers read there.
use maps.Prelude.{
  ℕ, ◌≡◌, ◌≢◌, ◌↔◌, ap, refl, subst, Bool, true, false, ◌&&◌, none, some, Option, Ptr, is_null,
  ◌==◌, arith, if◌then◌else◌,
}
use maps.Memory.{Memory}
use maps.Npu.Controller
use maps.Npu.Controller.Error.{
  Fits, IsSettled, Leaves, run-Leaves, submit-IsSettled, bind_memory-IsSettled, made-IsSettled,
  reset-IsSettled,
}
use maps.Npu.Controller.Monad.{Controller, Npu}
use maps.Npu.Descriptor
use maps.Npu.Descriptor.{Descriptor, load_from_memory}
use maps.Npu.Device.{
  NpuDevice, DeviceRun, make, bind_memory, reset, run_controller, start, write32, read32,
}
use maps.Npu.Device.Reg
use maps.Npu.Status.{NpuState, NpuError, state_word, error_word}

-- The devices that can be met, each with the memory behind it: a new one, and what follows from a
-- bind, a reset, a write to a register, or a write of the program to its memory.
pub data Reached : NpuDevice → Memory → Type 0 where
  made : (mem : Memory) → Reached make mem
  rebound :
      (p : Ptr) (d : NpuDevice) (mem : Memory) → Reached d mem → Reached (bind_memory p mem d) mem
  was_reset : (d : NpuDevice) (mem : Memory) → Reached d mem → Reached (reset mem d) mem
  written :
      (offset value : ℕ) (d : NpuDevice) (mem : Memory) (r : DeviceRun)
      → Reached d mem
      → write32 offset value d mem ≡ some r
      → Reached r.device r.memory
  stored : (d : NpuDevice) (mem mem' : Memory) → Reached d mem → Reached d mem'

-- A result with a settled controller.
Settles : Option DeviceRun → Type 0
Settles none = Unit {0}
Settles (some r) = IsSettled r.device.controller

Settles-if :
    (b : Bool) (x y : Option DeviceRun) → Settles x → Settles y → Settles (if b then x else y)
Settles-if true x y hx hy = hx
Settles-if false x y hx hy = hy

ran-Settles :
    (d : NpuDevice) (o : Option (Npu × Bool))
    → Leaves o
    → Settles (elim o [
      | none ↦ none
      | some (s, done) ↦ some (record {
        device = record d { controller = s.controller };
        memory = s.memory;
        done = done;
      })
    ])
unfolding Settles
ran-Settles d none h = tt
ran-Settles d (some (s, ok)) h = h

IsSettled-if :
    (b : Bool) (x y : Controller) → IsSettled x → IsSettled y → IsSettled (if b then x else y)
IsSettled-if true x y hx hy = hx
IsSettled-if false x y hx hy = hy

device_reset-IsSettled : (mem : Memory) (d : NpuDevice) → IsSettled (reset mem d).controller
unfolding reset
device_reset-IsSettled mem d =
    let settled = reset-IsSettled mem d.controller in
    IsSettled-if (is_null d.memory) _ _ settled
      (bind_memory-IsSettled d.memory mem (Controller.reset mem d.controller) settled)

start-Settles : (d : NpuDevice) (mem : Memory) → IsSettled d.controller → Settles (start d mem)
unfolding start run_controller Settles
start-Settles d mem h =
    let (desc, loaded) = Descriptor.load_from_memory mem d.desc_addr Descriptor.make in
    let (c, accepted) = Controller.submit desc d.controller in
    Settles-if (is_null d.memory) _ _ h (
      Settles-if (loaded && accepted) _ _
        (ran-Settles (record d { controller = c }) _
          (run-Leaves (record { controller = c; memory = mem })))
        (submit-IsSettled desc d.controller))

write32-Settles :
    (offset value : ℕ) (d : NpuDevice) (mem : Memory)
    → IsSettled d.controller
    → Settles (write32 offset value d mem)
unfolding write32 Settles
write32-Settles offset value d mem h = Settles-if (offset == Reg.desc_addr) _ _ h (
    Settles-if (offset == Reg.cmd) _ _
      (Settles-if (value == Reg.cmd_start) _ _ (start-Settles d mem h)
        (Settles-if (value == Reg.cmd_reset) _ _ (device_reset-IsSettled mem d) h))
      h)

reached-IsSettled : (d : NpuDevice) (mem : Memory) → Reached d mem → IsSettled d.controller
unfolding make bind_memory Settles
reached-IsSettled d mem (made m) = made-IsSettled
reached-IsSettled d mem (rebound p d' m h) =
    bind_memory-IsSettled p m d'.controller (reached-IsSettled d' m h)
reached-IsSettled d mem (was_reset d' m h) = device_reset-IsSettled m d'
reached-IsSettled d mem (written offset value d' mem' r h e) =
    subst Settles e (write32-Settles offset value d' mem' (reached-IsSettled d' mem' h))
reached-IsSettled d mem (stored d' m m' h) = reached-IsSettled d' m h

words_Fit :
    (state : NpuState) (e : NpuError)
    → Fits state e
    → (state_word state ≢ 1) × ((error_word e ≡ 0) ↔ (state_word state ≢ 3))
unfolding Fits
words_Fit NpuState.idle e h =
    (λ x. omega (arith, x), (λ _ x. omega (arith, x), λ _. ap error_word h))
words_Fit NpuState.busy e h = absurd h
words_Fit NpuState.done e h =
    (λ x. omega (arith, x), (λ _ x. omega (arith, x), λ _. ap error_word h))
words_Fit NpuState.error NpuError.no_error h = absurd (h refl)
words_Fit NpuState.error NpuError.invalid_desc h =
    (λ x. omega (arith, x), (λ x. omega (arith, x), λ x. absurd (x refl)))
words_Fit NpuState.error NpuError.out_of_range h =
    (λ x. omega (arith, x), (λ x. omega (arith, x), λ x. absurd (x refl)))
words_Fit NpuState.error NpuError.buffer_fail h =
    (λ x. omega (arith, x), (λ x. omega (arith, x), λ x. absurd (x refl)))

-- On every device that is reached from a new one by binds, resets, writes to its registers and
-- writes to the memory, the status register and the error register can be read, the status is never
-- BUSY, and the error register reads 0 exactly where the status is not ERROR.
pub reached-registers :
    (d : NpuDevice) (mem : Memory)
    → Reached d mem
    → (status : ℕ) × (code : ℕ) × (read32 Reg.status d ≡ some status)
      × (read32 Reg.error d ≡ some code)
      × (status ≢ 1)
      × ((code ≡ 0) ↔ (status ≢ 3))
unfolding read32 IsSettled
reached-registers d mem h =
    let c = d.controller in
    let (not_busy, same) = words_Fit c.state c.error (reached-IsSettled d mem h) in
    (state_word c.state, error_word c.error, refl, refl, not_busy, same)
