-- ===== src/Npu/Device/Tests.antt =====
-- A product of two 2 x 2 matrices on the NPU.
use maps.Prelude.{
  ℕ, ◌≡◌, ◌≢◌, ◌↔◌, ◌%◌, ◌^◌, false, refl, true, some, ◌∷◌, bound, length, replicate,
  length-replicate, arith, ◌+◌, ◌*◌,
}
use maps.Memory
use maps.Memory.{Memory}
use maps.Npu.Buffer
use maps.Npu.Config.{os}
use maps.Npu.Controller
use maps.Npu.Controller.{run, check_matrix_range}
use maps.Npu.Controller.Count.{run-mac_count}
use maps.Npu.Controller.Done.{run-Reports, Reports}
use maps.Npu.Controller.Gemm.Correct.{InC, run-IsProduct}
use maps.Npu.Controller.Gemm.Range.{IsInMemory, IsAddressed, check_matrix_range-passes}
use maps.Npu.Controller.Gemm.Region.{IsApart, HasProduct}
use maps.Npu.Controller.Monad.{Npu}
use maps.Npu.Controller.Tile.Move.{IsReadyNpu}
use maps.Npu.Descriptor.{
  Descriptor, to_words, validate, word_addr, is_word_aligned, dataflow_word, tile_fits,
}
use maps.Npu.Descriptor.Roundtrip.{IsNonNegative}
use maps.Npu.Device
use maps.Npu.Descriptor
use maps.Npu.Device.{NpuDevice, write32, read32}
use maps.Npu.Device.Protocol.{made, rebound, written, reached-registers}
use maps.Npu.Device.Reg
use maps.Npu.Device.Gemm.{IsReadyDevice}
use maps.Npu.Dma
use maps.Npu.Status.{NpuState, NpuError}

-- A at 4, B at 20, C at 36.
abbrev pub memory : Memory
memory = record { words = 0 ∷ 1 ∷ 2 ∷ 3 ∷ 4 ∷ 5 ∷ 6 ∷ 7 ∷ 8 ∷ 0 ∷ 0 ∷ 0 ∷ 0 ∷ replicate 19 0 }

-- Shut, so that no tactic looks into the buffers.
pub device : NpuDevice
device = Device.bind_memory bound memory Device.make

abbrev pub product : Descriptor
product = record {
  matrix_m = 2;
  matrix_n = 2;
  matrix_k = 2;
  mode = os;
  matrix_a_base = 4;
  matrix_b_base = 20;
  matrix_c_base = 36;
  tile_m = 16;
  tile_n = 16;
  tile_k = 16;
}

pub device-IsReady : IsReadyDevice device memory
unfolding device Device.bind_memory Device.make Controller.make Controller.bind_memory
    Dma.bind_memory Dma.bind_buffer Buffer.make Memory.size
device-IsReady = record {
  device_bound = refl;
  controller_bound = refl;
  ready = record {
    not_busy = refl;
    memory_bound = refl;
    size_known = refl;
    memory_small = omega arith;
    input_size = length-replicate {A = ℕ} 2048 0;
    weight_size = length-replicate {A = ℕ} 2048 0;
    output_size = length-replicate {A = ℕ} 2048 0;
  };
}

pub product-valid : validate product ≡ true
unfolding validate tile_fits is_word_aligned
product-valid = refl

pub product-IsNonNegative : IsNonNegative (to_words product)
unfolding to_words dataflow_word
product-IsNonNegative = omega arith

pub product-IsInMemory : IsInMemory product (length memory.words)
unfolding word_addr
product-IsInMemory = record { a_end = omega arith; b_end = omega arith; c_end = omega arith }

pub product-IsApart : IsApart product memory.words
unfolding word_addr
product-IsApart = record {
  a_apart = λ i k i' j' h p q r. omega arith;
  b_apart = λ k j i' j' h p q r. omega arith;
}

-- The controller of the device, with the descriptor.
abbrev npu : Npu
npu = record { controller = record (device.controller) { current_desc = product }; memory = memory }

npu-IsReady : IsReadyNpu npu
npu-IsReady =
    let ready = device-IsReady.ready in
    record {
      not_busy = ready.not_busy;
      memory_bound = ready.memory_bound;
      size_known = ready.size_known;
      memory_small = ready.memory_small;
      input_size = ready.input_size;
      weight_size = ready.weight_size;
      output_size = ready.output_size;
    }

product-IsAddressed : IsAddressed product
product-IsAddressed = omega arith

npu_in_range : check_matrix_range npu.controller memory ≡ true
npu_in_range =
    check_matrix_range-passes npu device-IsReady.controller_bound (omega arith) product-IsAddressed
      product-valid (omega arith) product-IsInMemory

run-IsProduct_example :
    (s' : Npu) × (run npu ≡ some (s', true))
    × (s'.controller.state ≡ NpuState.done)
    × HasProduct product memory.words (InC product) memory.words s'.memory.words
run-IsProduct_example =
    run-IsProduct npu npu-IsReady device-IsReady.controller_bound (omega arith) product-IsAddressed
      product-valid npu_in_range (omega arith) product-IsApart

run-Reports_example : Reports (run npu)
run-Reports_example = run-Reports npu

-- A start command on words that are no valid descriptor.
abbrev refusing : NpuDevice
refusing = Device.bind_memory bound memory Device.make

abbrev refused : NpuDevice
refused = record refusing {
  controller = record (refusing.controller) {
    state = NpuState.error;
    error = NpuError.invalid_desc;
  };
}

start_refused :
    write32 Reg.cmd Reg.cmd_start refusing memory
    ≡ some (record { device = refused; memory = memory; done = false })
unfolding write32 Device.start Device.bind_memory Device.make Controller.make Controller.submit
    Controller.bind_memory validate Descriptor.load_from_memory Memory.read
start_refused = refl

reached-registers_example :
    (status : ℕ) × (code : ℕ) × (read32 Reg.status refused ≡ some status)
    × (read32 Reg.error refused ≡ some code)
    × (status ≢ 1)
    × ((code ≡ 0) ↔ (status ≢ 3))
reached-registers_example = reached-registers refused memory (
    written Reg.cmd Reg.cmd_start refusing memory _ (rebound bound Device.make memory (made memory))
      start_refused)

npu_runs :
    (s' : Npu) × (run npu ≡ some (s', true))
    × (s'.controller.state ≡ NpuState.done)
    × HasProduct product memory.words (InC product) memory.words s'.memory.words
npu_runs =
    run-IsProduct npu npu-IsReady device-IsReady.controller_bound (omega arith) product-IsAddressed
      product-valid npu_in_range (omega arith) product-IsApart

no_multiplications : npu.controller.perf.mac_count ≡ 0
unfolding device Device.bind_memory Device.make Controller.make Controller.bind_memory
no_multiplications = refl

run-mac_count_example :
    npu_runs.0.controller.perf.mac_count ≡ (npu.controller.perf.mac_count + 2 * 2 * 2) % 2 ^ 64
run-mac_count_example =
    run-mac_count npu npu_runs.0 product-valid (omega arith) (omega (arith, no_multiplications))
      npu_runs.1
