-- ===== src/Npu/Device/Gemm.antt =====
-- A start command on a descriptor in memory: the GEMM, from the register to DRAM.
use maps.Prelude.{◌≡◌, ◌∙◌, refl, ap, subst, true, false, Bool, some, length, arith, is_null}
use maps.Memory.{Memory}
use maps.Npu.Controller
use maps.Npu.Controller.{check_matrix_range}
use maps.Npu.Controller.Gemm.Correct.{run-IsProduct, InC}
use maps.Npu.Controller.Gemm.Range.{IsAddressed, IsInMemory, check_matrix_range-passes}
use maps.Npu.Controller.Gemm.Region.{HasProduct, IsApart}
use maps.Npu.Controller.Gemm.Sum.{IsBuffered}
use maps.Npu.Controller.Monad.{Npu}
use maps.Npu.Controller.Tile.Move.{IsReadyNpu}
use maps.Npu.Descriptor
use maps.Npu.Descriptor.{Descriptor, load_from_memory, validate}
use maps.Npu.Descriptor.Valid.{
  load_from_memory-IsSmall, load_from_memory-IsAddressed, load_from_memory-validate,
}
use maps.Npu.Device.{NpuDevice, DeviceRun, run_controller, start}
use maps.Npu.Schedule.Plan.{IsSmall}
use maps.Npu.Status.{NpuState, NpuError}

abbrev pub npu_of : NpuDevice → Memory → Npu
npu_of d mem = record { controller = d.controller; memory = mem }

-- A device that is bound to its memory and is not in a transfer.
pub record IsReadyDevice (d : NpuDevice) (mem : Memory) : Type 0 where
  pub device_bound : is_null d.memory ≡ false
  pub controller_bound : is_null d.controller.memory ≡ false
  pub ready : IsReadyNpu (npu_of d mem)

-- A GEMM that the buffers and the memory can hold.
pub record IsGemm (e : Descriptor) (mem : Memory) : Type 0 where
  pub in_memory : IsInMemory e (length mem.words)
  pub buffered : IsBuffered e
  pub apart : IsApart e mem.words

-- The device with the descriptor submitted.
abbrev submitted : Descriptor → NpuDevice → NpuDevice
submitted e d = record d {
  controller = record (d.controller) {
    current_desc = e;
    state = NpuState.idle;
    error = NpuError.no_error;
  };
}

start-run_controller :
    (d : NpuDevice) (mem : Memory) (e : Descriptor)
    → is_null d.memory ≡ false
    → validate e ≡ true
    → load_from_memory mem d.desc_addr Descriptor.make ≡ (e, true)
    → start d mem ≡ run_controller (submitted e d) mem
unfolding start Controller.submit
start-run_controller d mem e bound_to valid loaded = rw (bound_to, loaded, valid) refl

-- A start command on a descriptor that loads, with the matrices in the memory, C apart from A and B,
-- and tiles that fit the buffers: the command succeeds, the device is in the state DONE, C in DRAM
-- is the product of A and B modulo 2 ^ 32, and every other word of the memory is as before.
pub start-IsProduct :
    (d : NpuDevice) (mem : Memory) (e : Descriptor)
    → IsReadyDevice d mem
    → load_from_memory mem d.desc_addr Descriptor.make ≡ (e, true)
    → IsGemm e mem
    → (r : DeviceRun) × (start d mem ≡ some r)
      × (r.done ≡ true)
      × (r.device.controller.state ≡ NpuState.done)
      × HasProduct e mem.words (InC e) mem.words r.memory.words
unfolding run_controller
start-IsProduct d mem e h loaded gemm =
    let first = ap (λ (p : Descriptor × Bool). p.0) loaded in
    let valid : validate e ≡ true =
      subst (λ x. validate x ≡ true) first
        (load_from_memory-validate mem d.desc_addr Descriptor.make
          (ap (λ (p : Descriptor × Bool). p.1) loaded)) in
    let small : IsSmall e =
      subst IsSmall first
        (load_from_memory-IsSmall mem d.desc_addr Descriptor.make (omega arith)) in
    let addressed : IsAddressed e =
      subst IsAddressed first
        (load_from_memory-IsAddressed mem d.desc_addr Descriptor.make (omega arith)) in
    let s = npu_of (submitted e d) mem in
    let ready = h.ready in
    let fits =
      check_matrix_range-passes s h.controller_bound small addressed valid ready.memory_small
        gemm.in_memory in
    let ready' : IsReadyNpu s = record {
      not_busy = ready.not_busy;
      memory_bound = ready.memory_bound;
      size_known = ready.size_known;
      memory_small = ready.memory_small;
      input_size = ready.input_size;
      weight_size = ready.weight_size;
      output_size = ready.output_size;
    } in
    let (s', runs, finished, has) =
      run-IsProduct s ready' h.controller_bound small addressed valid fits gemm.buffered
        gemm.apart in
    (
      record { device = record d { controller = s'.controller }; memory = s'.memory; done = true },
      start-run_controller d mem e h.device_bound valid loaded ∙ rw (runs, run_controller) refl,
      refl,
      finished,
      has,
    )
