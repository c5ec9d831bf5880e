-- ===== src/Npu/Device/Reg.antt =====
-- The register offsets and the commands of `npu_mmio`: src/maps-sim/include/npu/device.h.
use maps.Prelude.{ℕ}

abbrev pub desc_addr : ℕ
desc_addr = 0x00

abbrev pub cmd : ℕ
cmd = 0x04

abbrev pub status : ℕ
status = 0x08

abbrev pub error : ℕ
error = 0x0c

abbrev pub cycle_count_lo : ℕ
cycle_count_lo = 0x10

abbrev pub cycle_count_hi : ℕ
cycle_count_hi = 0x14

abbrev pub dma_read_count_lo : ℕ
dma_read_count_lo = 0x18

abbrev pub dma_read_count_hi : ℕ
dma_read_count_hi = 0x1c

abbrev pub dma_write_count_lo : ℕ
dma_write_count_lo = 0x20

abbrev pub dma_write_count_hi : ℕ
dma_write_count_hi = 0x24

abbrev pub mac_count_lo : ℕ
mac_count_lo = 0x28

abbrev pub mac_count_hi : ℕ
mac_count_hi = 0x2c

abbrev pub cmd_start : ℕ
cmd_start = 1

abbrev pub cmd_reset : ℕ
cmd_reset = 2
