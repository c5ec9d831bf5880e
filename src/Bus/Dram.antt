-- ===== src/Bus/Dram.antt =====
-- Words of DRAM through the bus.
use maps.Prelude.{
  ℕ, ◌^◌, ◌≡◌, ◌<◌, ◌%◌, ◌/◌, true, false, some, none, bound, length, arith, if◌then◌else◌, ◌==◌,
  leb, ◌∙◌,
}
use maps.Memory
use maps.Memory.Access.{read-write, length-write, write_in_range}
use maps.Bus.{
  Bus, Store, read32, write32, npu_base, dram_word_addr, is_npu_addr, is_console_addr, is_dram_addr,
}

-- An aligned address below the devices that falls into the memory, of fewer than 2 ^ 32 words.
pub record IsDramWord (b : Bus) (s : Store) (addr : ℕ) : Type 0 where
  pub memory_bound : b.memory ≡ bound
  pub aligned : addr % 4 ≡ 0
  pub below_devices : addr < npu_base
  pub memory_small : length s.memory.words < 2 ^ 32
  pub in_memory : addr / 4 < length s.memory.words

module _ (b : Bus) (s : Store) (addr : ℕ) (ok : IsDramWord b s addr) where
  word_index : dram_word_addr addr ≡ addr / 4
  word_index = omega (arith, ok.below_devices)

  not_npu : is_npu_addr addr ≡ false
  not_npu = ground (arith, ok.below_devices)

  not_console : is_console_addr addr ≡ false
  not_console = ground (arith, ok.below_devices)

  in_dram : is_dram_addr b s addr ≡ true
  unfolding Memory.size
  in_dram =
      ground (arith, ok.below_devices, ok.in_memory, ok.memory_bound, ok.memory_small, word_index)

  pub read32-dram : read32 b s addr ≡ Memory.read s.memory (addr / 4)
  unfolding read32
  read32-dram =
      ground (arith, ok.aligned, ok.memory_bound, not_npu, not_console, in_dram, word_index)

  pub write32-dram :
      (v : ℕ)
      → write32 b addr v s
        ≡ some (record s { memory = (Memory.write s.memory (addr / 4) v).0 }, true)
  unfolding write32
  write32-dram v = ground (
    arith,
    ok.aligned,
    ok.memory_bound,
    not_npu,
    not_console,
    in_dram,
    word_index,
    write_in_range s.memory (addr / 4) v ok.in_memory,
  )

module _ (b : Bus) (s : Store) (addr v : ℕ) (ok : IsDramWord b s addr) where
  abbrev written : Store
  written = record s { memory = (Memory.write s.memory (addr / 4) v).0 }

  written-IsDramWord : (other : ℕ) → IsDramWord b s other → IsDramWord b written other
  written-IsDramWord other h =
      let same = length-write s.memory (addr / 4) v in
      record {
        memory_bound = h.memory_bound;
        aligned = h.aligned;
        below_devices = h.below_devices;
        memory_small = omega (arith, same, h.memory_small);
        in_memory = omega (arith, same, h.in_memory);
      }

  same_word :
      (other : ℕ)
      → IsDramWord b s other
      → (if addr / 4 == other / 4
          then (if leb (length s.memory.words) (addr / 4) then none else some v)
          else Memory.read s.memory (other / 4))
        ≡ (if addr == other then some v else read32 b s other)
  same_word other h = ground (arith, ok.aligned, h.aligned, ok.in_memory, read32-dram b s other h)

-- A word stored to DRAM through the bus, at an aligned address below the devices and in the memory:
-- the store succeeds, the same address then reads the stored word, and every other such address
-- reads as before.
pub read32-write32 :
    (b : Bus) (s : Store) (addr other v : ℕ)
    → IsDramWord b s addr
    → IsDramWord b s other
    → (s' : Store) × (write32 b addr v s ≡ some (s', true))
      × (read32 b s' other ≡ (if addr == other then some v else read32 b s other))
read32-write32 b s addr other v ok h = (
  written b s addr v ok,
  write32-dram b s addr ok v,
  read32-dram b (written b s addr v ok) other (written-IsDramWord b s addr v ok other h)
      ∙ read-write s.memory (addr / 4) (other / 4) v
      ∙ same_word b s addr v ok other h,
)
