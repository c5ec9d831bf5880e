-- ===== src/Npu/Device.antt =====
-- `NpuDevice`, the controller behind its registers: src/maps-sim/src/npu/device.cpp. The device and
-- the memory that its pointers lead to are handed to the operations that touch memory.
pub mod Reg
pub mod Ends
pub mod Gemm
pub mod Done
pub mod Protocol
pub mod Tests
use maps.Prelude.{
  ℕ, ◌%◌, ◌/◌, ◌^◌, Bool, true, false, ◌&&◌, Option, none, some, Ptr, null, bound, is_null, ◌==◌,
  if◌then◌else◌,
}
use maps.Memory.{Memory}
use maps.Npu.Controller
use maps.Npu.Controller.Monad.{Controller, Npu}
use maps.Npu.Descriptor
use maps.Npu.Status.{state_word, error_word}

pub record NpuDevice : Type 0 where
  pub controller : Controller
  pub memory : Ptr
  pub desc_addr : ℕ

unfoldable pub make : NpuDevice
make = record { controller = Controller.make; memory = null; desc_addr = 0 }

unfoldable pub bind_memory : Ptr → Memory → NpuDevice → NpuDevice
bind_memory memory mem d = record d {
  memory = memory;
  controller = Controller.bind_memory memory mem d.controller;
}

unfoldable pub reset : Memory → NpuDevice → NpuDevice
reset mem d =
    let c = Controller.reset mem d.controller in
    record d {
      desc_addr = 0;
      controller = if is_null d.memory then c else Controller.bind_memory d.memory mem c;
    }

-- The device, the memory and the result of an operation.
pub record DeviceRun : Type 0 where
  pub device : NpuDevice
  pub memory : Memory
  pub done : Bool

-- `controller_.run()`. A run that does not end is no result at all.
run_controller : NpuDevice → Memory → Option DeviceRun
run_controller d mem = elim (Controller.run (record { controller = d.controller; memory = mem })) [
  | none ↦ none
  | some (s, done) ↦
      some
        (record { device = record d { controller = s.controller }; memory = s.memory; done = done })
]

unfoldable pub start : NpuDevice → Memory → Option DeviceRun
unfolding run_controller
start d mem =
    if is_null d.memory
    then some (record { device = d; memory = mem; done = false })
    else (let (desc, loaded) = Descriptor.load_from_memory mem d.desc_addr Descriptor.make in
        let (c, accepted) = Controller.submit desc d.controller in
        let d' = record d { controller = c } in
        if loaded && accepted
        then run_controller d' mem
        else some (record { device = d'; memory = mem; done = accepted }))

-- `none` is a write that starts a run that does not end.
unfoldable pub write32 : ℕ → ℕ → NpuDevice → Memory → Option DeviceRun
write32 offset value d mem =
    if offset == Reg.desc_addr
    then some (record { device = record d { desc_addr = value }; memory = mem; done = true })
    else if offset == Reg.cmd
    then (if value == Reg.cmd_start
        then start d mem
        else if value == Reg.cmd_reset
        then some (record { device = reset mem d; memory = mem; done = true })
        else some (record { device = d; memory = mem; done = false }))
    else some (record { device = d; memory = mem; done = false })

abbrev pub perf_lo : ℕ → ℕ
perf_lo value = value % 2 ^ 32

abbrev pub perf_hi : ℕ → ℕ
perf_hi value = value / 2 ^ 32 % 2 ^ 32

unfoldable pub read32 : ℕ → NpuDevice → Option ℕ
read32 offset d =
    let perf = d.controller.perf in
    if offset == Reg.desc_addr
    then some d.desc_addr
    else if offset == Reg.status
    then some (state_word d.controller.state)
    else if offset == Reg.error
    then some (error_word d.controller.error)
    else if offset == Reg.cycle_count_lo
    then some (perf_lo perf.cycle_count)
    else if offset == Reg.cycle_count_hi
    then some (perf_hi perf.cycle_count)
    else if offset == Reg.dma_read_count_lo
    then some (perf_lo perf.dma_read_count)
    else if offset == Reg.dma_read_count_hi
    then some (perf_hi perf.dma_read_count)
    else if offset == Reg.dma_write_count_lo
    then some (perf_lo perf.dma_write_count)
    else if offset == Reg.dma_write_count_hi
    then some (perf_hi perf.dma_write_count)
    else if offset == Reg.mac_count_lo
    then some (perf_lo perf.mac_count)
    else if offset == Reg.mac_count_hi
    then some (perf_hi perf.mac_count)
    else none
