-- ===== src/Npu/Config.antt =====
-- The constants and `dataflow` of src/maps-sim/include/common/config.h.
use maps.Prelude.{ℕ, ◌*◌, ◌/◌}

-- A `static_cast<dataflow>` of a number that names no enumerator is `other`.
pub data Dataflow : Type 0 where
  ws os is : Dataflow
  other : ℕ → Dataflow

abbrev pub array_rows : ℕ
array_rows = 16

abbrev pub array_cols : ℕ
array_cols = 16

abbrev pub buffer_sizes : ℕ
buffer_sizes = 2048

abbrev pub dram_sizes : ℕ
dram_sizes = 4 * 1024 * 1024 / 4

abbrev pub tile_sizes : ℕ
tile_sizes = 16
