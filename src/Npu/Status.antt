-- ===== src/Npu/Status.antt =====
-- `NpuState`, `NpuError` and `PerfCounters`: src/maps-sim/include/npu/status.h.
use maps.Prelude.{ℕ}

pub data NpuState : Type 0 where
  idle busy done error : NpuState

pub data NpuError : Type 0 where
  no_error invalid_desc out_of_range buffer_fail : NpuError

-- `static_cast<UINT32>` of the two.
abbrev pub state_word : NpuState → ℕ
state_word idle = 0
state_word busy = 1
state_word done = 2
state_word error = 3

abbrev pub error_word : NpuError → ℕ
error_word no_error = 0
error_word invalid_desc = 1
error_word out_of_range = 2
error_word buffer_fail = 3

pub record PerfCounters : Type 0 where
  pub cycle_count : ℕ
  pub dma_read_count : ℕ
  pub dma_write_count : ℕ
  pub mac_count : ℕ

abbrev pub no_counts : PerfCounters
no_counts = record { cycle_count = 0; dma_read_count = 0; dma_write_count = 0; mac_count = 0 }
