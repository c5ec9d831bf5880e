-- ===== src/Npu/Controller.antt =====
-- `Controller`: src/maps-sim/src/npu/controller.cpp. The operations act on the controller and on the
-- memory that `memory_` points to, in a monad in which `none` is `return false`.
pub mod Monad
pub mod Tile
pub mod Host
pub mod Ends
pub mod Done
pub mod Error
pub mod Count
pub mod Gemm
use maps.Prelude.{
  ℕ, ◌+◌, ◌*◌, Bool, true, false, not, ◌&&◌, Option, none, some, List, [], ◌∷◌, Ptr, null, bound,
  is_null, leb, if◌then◌else◌, u64,
}
use maps.Memory.{Memory}
use maps.Memory
use maps.Npu.Array
use maps.Npu.Buffer
use maps.Npu.Descriptor.{Descriptor, validate}
use maps.Npu.Descriptor
use maps.Npu.Dma
use maps.Npu.Dma.{BufferId}
use maps.Npu.Schedule.{GemmTile, build_plan}
use maps.Npu.Status.{NpuState, NpuError, PerfCounters, no_counts}
use maps.Npu.Config.{buffer_sizes}
use Monad.{Controller, Npu}
use Tile.{run_tile}

unfoldable pub make : Controller
make = record {
  array = Array.make;
  weight_buffer = Buffer.make buffer_sizes;
  input_buffer = Buffer.make buffer_sizes;
  output_buffer = Buffer.make buffer_sizes;
  host_buffer = Buffer.make buffer_sizes;
  dma = Dma.bind_buffer (some BufferId.input) Dma.make;
  plan = [];
  memory = null;
  current_desc = Descriptor.make;
  state = NpuState.idle;
  error = NpuError.no_error;
  perf = no_counts;
}

-- `mem` is what `memory_` points to.
unfoldable pub reset : Memory → Controller → Controller
reset mem c =
    let d = Dma.reset c.dma in
    let d' = if is_null c.memory then d else Dma.bind_memory c.memory mem d in
    record c {
      array = Array.reset c.array;
      weight_buffer = Buffer.reset c.weight_buffer;
      input_buffer = Buffer.reset c.input_buffer;
      output_buffer = Buffer.reset c.output_buffer;
      host_buffer = Buffer.reset c.host_buffer;
      dma = Dma.bind_buffer (some BufferId.input) d';
      plan = [];
      current_desc = Descriptor.reset c.current_desc;
      state = NpuState.idle;
      error = NpuError.no_error;
      perf = no_counts;
    }

unfoldable pub submit : Descriptor → Controller → Controller × Bool
submit desc c =
    if validate desc
    then (record c { current_desc = desc; state = NpuState.idle; error = NpuError.no_error }, true)
    else (record c { state = NpuState.error; error = NpuError.invalid_desc }, false)

unfoldable pub bind_memory : Ptr → Memory → Controller → Controller
bind_memory memory mem c =
    let c' = record c { memory = memory } in
    if is_null memory then c' else record c' { dma = Dma.bind_memory memory mem c.dma }

unfoldable pub check_matrix_range : Controller → Memory → Bool
check_matrix_range c mem =
    if is_null c.memory
    then false
    else (let d = c.current_desc in
        let a_need = u64 (u64 (d.matrix_m * d.matrix_k) * 4) in
        let b_need = u64 (u64 (d.matrix_k * d.matrix_n) * 4) in
        let c_need = u64 (u64 (d.matrix_m * d.matrix_n) * 4) in
        let mem_size = u64 (Memory.size mem * 4) in
        leb (u64 (d.matrix_a_base + a_need)) mem_size
        && leb (u64 (d.matrix_b_base + b_need)) mem_size
        && leb (u64 (d.matrix_c_base + c_need)) mem_size)

pub stop : NpuError → Npu → Npu × Bool
stop e s =
    (record s { controller = record (s.controller) { state = NpuState.error; error = e } }, false)

-- `if (error_ == NONE) error_ = BUFFER_FAIL` after a tile that failed.
pub tile_error : NpuError → NpuError
tile_error NpuError.no_error = NpuError.buffer_fail
tile_error e = e

-- The loop over the plan, and the state after it.
pub run_plan : List GemmTile → Npu → Npu × Bool
run_plan [] s = (record s { controller = record (s.controller) { state = NpuState.done } }, true)
run_plan (tile ∷ rest) s =
    let (s', result) = run_tile tile s in
    elim result [ some _ ↦ run_plan rest s' | none ↦ stop (tile_error s'.controller.error) s' ]

-- `build_schedule` and what follows it; `none` means that the scheduler's loops do not end.
pub scheduled : Npu → Option (List GemmTile × Bool) → Option (Npu × Bool)
unfolding stop run_plan
scheduled s none = none
scheduled s (some (plan, false)) =
    some
      (stop NpuError.invalid_desc (record s { controller = record (s.controller) { plan = plan } }))
scheduled s (some (plan, true)) = some (
    run_plan plan (record s {
      controller = record (s.controller) { plan = plan; array = Array.reset s.controller.array };
    }))

unfoldable pub run : Npu → Option (Npu × Bool)
unfolding scheduled stop
run s =
    if not (validate s.controller.current_desc)
    then some (stop NpuError.invalid_desc s)
    else if not (check_matrix_range s.controller s.memory)
    then some (stop NpuError.out_of_range s)
    else if is_null s.controller.memory
    then some (stop NpuError.buffer_fail s)
    else scheduled
        (record s {
          controller = record (s.controller) { state = NpuState.busy; error = NpuError.no_error };
        })
        (build_plan s.controller.current_desc)
