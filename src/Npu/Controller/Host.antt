-- ===== src/Npu/Controller/Host.antt =====
-- The host side of `Controller`: `load_weight_data`, `load_input_data` and `read_output_data` of
-- src/maps-sim/src/npu/controller.cpp.
use maps.Prelude.{
  ℕ, ◌+◌, Bool, true, false, Option, none, some, List, ◌||◌, is_null, if◌then◌else◌, u64,
}
use maps.Memory
use maps.Npu.Buffer
use maps.Npu.Descriptor.{word_addr}
use maps.Npu.Dma
use maps.Npu.Dma.{DmaRequest, dram_to_buffer, host, Transfer}
use maps.Npu.Status.{NpuState, NpuError}
use maps.Npu.Controller.Monad.{Npu}

abbrev pub is_missing : Option (List ℕ) → Bool
is_missing none = true
is_missing (some _) = false

fail : NpuError → Npu → Npu × Bool
fail e s =
    (record s { controller = record (s.controller) { state = NpuState.error; error = e } }, false)

-- `load_weight_data` at `matrix_B_base`, `load_input_data` at `matrix_A_base`.
load_data : ℕ → Option (List ℕ) → ℕ → Npu → Npu × Bool
unfolding fail
load_data base src len s =
    if is_null s.controller.memory || is_missing src
    then fail NpuError.buffer_fail s
    else (let (memory', ok) = Memory.load s.memory (word_addr base) src len in
        if ok
        then (
          record {
            controller = record (s.controller) {
              perf = record (s.controller.perf) {
                dma_write_count = u64 (s.controller.perf.dma_write_count + len);
              };
            };
            memory = memory';
          },
          true,
        )
        else fail NpuError.out_of_range (record s { memory = memory' }))

pub load_weight_data : Option (List ℕ) → ℕ → Npu → Npu × Bool
unfolding load_data
load_weight_data src len s = load_data s.controller.current_desc.matrix_b_base src len s

pub load_input_data : Option (List ℕ) → ℕ → Npu → Npu × Bool
unfolding load_data
load_input_data src len s = load_data s.controller.current_desc.matrix_a_base src len s

-- The request of `read_output_data`.
abbrev pub readback : ℕ → ℕ → DmaRequest
readback c_base len = record {
  direction = dram_to_buffer;
  dram_base = c_base;
  buffer_base = 0;
  length = len;
  rows = 1;
  src_stride = len;
  dst_stride = len;
}

-- The new contents of `dst`, and the result. `dma_readback` is local.
pub read_output_data : Option (List ℕ) → ℕ → Npu → Npu × Option (List ℕ) × Bool
read_output_data dst len s =
    if is_null s.controller.memory || is_missing dst
    then (s, dst, false)
    else (let cleared = Buffer.reset s.controller.host_buffer in
        let engine =
          Dma.bind_buffer (some host) (Dma.bind_memory s.controller.memory s.memory Dma.make) in
        let (engine', accepted) =
          Dma.submit cleared (readback s.controller.current_desc.matrix_c_base len) engine in
        if accepted
        then (let r = Dma.run_sync (record { memory = s.memory; buffer = cleared }) engine' in
            if r.done
            then (let (buffer', out, ok) = Buffer.dump r.transfer.buffer dst len in
                (
                  record {
                    controller = record (s.controller) { host_buffer = buffer' };
                    memory = r.transfer.memory;
                  },
                  out,
                  ok,
                ))
            else (
              record {
                controller = record (s.controller) { host_buffer = r.transfer.buffer };
                memory = r.transfer.memory;
              },
              dst,
              false,
            ))
        else (
          record s { controller = record (s.controller) { host_buffer = cleared } },
          dst,
          false,
        ))
