-- ===== src/Bus/Ends.antt =====
-- The stores of the bus end: those that start a run of the NPU too.
use maps.Prelude.{ℕ, not, Ends, ended, Ends-if, is_null, sub32}
use maps.Bus.{
  Bus, Store, write32, write_npu, is_aligned, is_npu_addr, is_console_addr, is_dram_addr, npu_base,
}
use maps.Npu.Device.Ends

write_npu-Ends : (offset value : ℕ) (s : Store) → Ends (write_npu offset value s)
unfolding write_npu
write_npu-Ends offset value s =
    let (r, e) = Ends.write32-Ends offset value s.npu s.memory in rw (e, write_npu) (ended _)

pub bus_write32-Ends : (b : Bus) (addr value : ℕ) (s : Store) → Ends (write32 b addr value s)
unfolding write32
bus_write32-Ends b addr value s = Ends-if (not (is_aligned addr 4)) _ _ (ended _) (
    Ends-if (is_npu_addr addr) _ _
      (Ends-if (is_null b.npu) _ _ (ended _) (write_npu-Ends (sub32 addr npu_base) value s))
      (Ends-if (is_console_addr addr) _ _ (ended _)
        (Ends-if (is_dram_addr b s addr) _ _ (ended _) (ended _))))
