-- ===== src/Npu/Device/Ends.antt =====
-- The operations of the device end, whatever the device and the memory hold.
use maps.Prelude.{
  ℕ, ◌≡◌, Bool, true, ◌&&◌, Ends, ended, Ends-if, is_null, Bool-cases, inl, inr, arith, ◌==◌,
}
use maps.Memory.{Memory}
use maps.Npu.Controller
use maps.Npu.Controller.Ends.{run_small-Ends, submit-IsSmall}
use maps.Npu.Descriptor
use maps.Npu.Descriptor.Valid.{load_from_memory-IsSmall}
use maps.Npu.Device.{NpuDevice, run_controller, start, write32}
use maps.Npu.Device.Reg
use maps.Npu.Schedule.Plan.{IsSmall}

run_controller-Ends :
    (d : NpuDevice) (m : Memory) → IsSmall d.controller.current_desc → Ends (run_controller d m)
unfolding run_controller
run_controller-Ends d m small =
    let (r, e) = run_small-Ends (record { controller = d.controller; memory = m }) small in
    rw (e, run_controller) (ended _)

make-IsSmall : IsSmall Descriptor.make
make-IsSmall = omega arith

both-right : (x y : Bool) → (x && y) ≡ true → y ≡ true
both-right x y h = ground arith

start-Ends : (d : NpuDevice) (m : Memory) → Ends (start d m)
unfolding start
start-Ends d m =
    let loaded = Descriptor.load_from_memory m d.desc_addr Descriptor.make in
    let submitted = Controller.submit loaded.0 d.controller in
    Ends-if (is_null d.memory) _ _ (ended _) (elim (Bool-cases (loaded.1 && submitted.1)) [
      | inr e ↦ rw e (ended _)
      | inl e ↦ rw e (
          run_controller-Ends _ m (
            submit-IsSmall loaded.0 d.controller
              (load_from_memory-IsSmall m d.desc_addr Descriptor.make make-IsSmall)
              (both-right loaded.1 submitted.1 e)))
    ])

-- Every write to a register ends, whatever the device and the memory hold: the descriptor that a
-- start command loads from memory cannot make the loops of the scheduler wrap around.
pub write32-Ends : (offset value : ℕ) (d : NpuDevice) (m : Memory) → Ends (write32 offset value d m)
unfolding write32
write32-Ends offset value d m = Ends-if (offset == Reg.desc_addr) _ _ (ended _) (
    Ends-if (offset == Reg.cmd) _ _
      (Ends-if (value == Reg.cmd_start) _ _ (start-Ends d m)
        (Ends-if (value == Reg.cmd_reset) _ _ (ended _) (ended _)))
      (ended _))
