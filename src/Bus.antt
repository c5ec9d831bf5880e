-- ===== src/Bus.antt =====
-- `Bus`, the address decoder: src/maps-sim/src/common/bus.cpp and include/common/bus.h. The objects
-- that its pointers lead to are handed to the operations as a `Store`.
pub mod Ends
pub mod Dram
pub mod Bytes
pub mod Endian
pub mod Tests
use maps.Prelude.{
  ℕ, ◌+◌, ◌*◌, ◌/◌, ◌%◌, ◌^◌, Bool, true, false, not, ◌&&◌, ◌||◌, Option, none, some, List, [], ◌∷◌,
  ◌++◌, Ptr, null, is_null, ltb, leb, ◌==◌, if◌then◌else◌, u8, u16, u32, sub32, shl32, shr, not32,
  bit_and, bit_or,
}
use maps.Memory.{Memory}
use maps.Memory
use maps.Npu.Device.{NpuDevice, DeviceRun}
use maps.Npu.Device

-- `address_map` and `console_mmio`.
abbrev pub dram_base : ℕ
dram_base = 0x00000000

abbrev pub npu_base : ℕ
npu_base = 0x10000000

abbrev pub npu_size : ℕ
npu_size = 0x00000100

abbrev pub console_base : ℕ
console_base = 0x10000100

abbrev pub console_size : ℕ
console_size = 0x00000100

abbrev pub console_data : ℕ
console_data = 0x00

abbrev pub console_status : ℕ
console_status = 0x04

pub record Bus : Type 0 where
  pub memory : Ptr
  pub npu : Ptr
  pub console_output : Ptr

-- The memory, the NPU and the console text that the pointers lead to.
pub record Store : Type 0 where
  pub memory : Memory
  pub npu : NpuDevice
  pub console : List ℕ

abbrev pub make : Bus
make = record { memory = null; npu = null; console_output = null }

abbrev pub bind_memory : Ptr → Bus → Bus
bind_memory p b = record b { memory = p }

abbrev pub bind_npu : Ptr → Bus → Bus
bind_npu p b = record b { npu = p }

abbrev pub bind_console : Ptr → Bus → Bus
bind_console p b = record b { console_output = p }

abbrev pub is_aligned : ℕ → ℕ → Bool
is_aligned addr size = addr % size == 0

abbrev pub dram_word_addr : ℕ → ℕ
dram_word_addr addr = sub32 addr dram_base / 4

abbrev pub dram_byte_offset : ℕ → ℕ
dram_byte_offset addr = sub32 addr dram_base % 4

abbrev pub is_dram_addr : Bus → Store → ℕ → Bool
is_dram_addr b s addr =
    if is_null b.memory || ltb addr dram_base
    then false
    else ltb (dram_word_addr addr) (Memory.size s.memory)

abbrev pub is_npu_addr : ℕ → Bool
is_npu_addr addr = leb npu_base addr && ltb addr (npu_base + npu_size)

abbrev pub is_console_addr : ℕ → Bool
is_console_addr addr = leb console_base addr && ltb addr (console_base + console_size)

-- `memory_ == nullptr || !memory_->read(addr, raw)` is `none`.
abbrev pub read_word : Bus → Store → ℕ → Option ℕ
read_word b s word_addr = if is_null b.memory then none else Memory.read s.memory word_addr

unfoldable pub read8 : Bus → Store → ℕ → Option ℕ
read8 b s addr =
    if not (is_dram_addr b s addr) then none else elim (read_word b s (dram_word_addr addr)) [
      | none ↦ none
      | some raw ↦ some (u8 (bit_and (shr raw (dram_byte_offset addr * 8)) 0xff))
    ]

unfoldable pub read16 : Bus → Store → ℕ → Option ℕ
read16 b s addr =
    if not (is_aligned addr 2) || not (is_dram_addr b s addr) then none else elim (read8 b s addr) [
      | none ↦ none
      | some lo ↦ elim (read8 b s (u32 (addr + 1))) [
        | none ↦ none
        | some hi ↦ some (u16 (bit_or lo (hi * 2 ^ 8)))
      ]
    ]

unfoldable pub read32 : Bus → Store → ℕ → Option ℕ
read32 b s addr =
    if not (is_aligned addr 4)
    then none
    else if is_npu_addr addr
    then (if is_null b.npu then none else Device.read32 (sub32 addr npu_base) s.npu)
    else if is_console_addr addr
    then (if sub32 addr console_base == console_status then some 1 else none)
    else if is_dram_addr b s addr
    then read_word b s (dram_word_addr addr)
    else none

unfoldable pub write_console : Bus → ℕ → ℕ → Store → Store × Bool
write_console b offset value s =
    if is_null b.console_output || not (offset == console_data)
    then (s, false)
    else (record s { console = s.console ++ (u8 (bit_and value 0xff) ∷ []) }, true)

-- `memory_->write(...)`, on a pointer that was tested.
abbrev pub write_word : ℕ → ℕ → Store → Store × Bool
write_word addr value s =
    let (m, ok) = Memory.write s.memory addr value in (record s { memory = m }, ok)

unfoldable pub write8 : Bus → ℕ → ℕ → Store → Store × Bool
write8 b addr value s =
    if is_console_addr addr
    then write_console b (sub32 addr console_base) value s
    else if not (is_dram_addr b s addr)
    then (s, false)
    else elim (read_word b s (dram_word_addr addr)) [
      | none ↦ (s, false)
      | some raw ↦
          let shift = dram_byte_offset addr * 8 in
          let word = bit_or (bit_and raw (not32 (shl32 0xff shift))) (shl32 value shift) in
          write_word (dram_word_addr addr) word s
    ]

unfoldable pub write16 : Bus → ℕ → ℕ → Store → Store × Bool
write16 b addr value s =
    if not (is_aligned addr 2) || not (is_dram_addr b s addr)
    then (s, false)
    else (let (s', ok) = write8 b addr (u8 (bit_and value 0xff)) s in
        if ok then write8 b (u32 (addr + 1)) (u8 (bit_and (shr value 8) 0xff)) s' else (s', false))

-- `npu_->write32(...)`; `none` is a run of the NPU that does not end.
unfoldable pub write_npu : ℕ → ℕ → Store → Option (Store × Bool)
write_npu offset value s = elim (Device.write32 offset value s.npu s.memory) [
  | none ↦ none
  | some r ↦ some (record s { npu = r.device; memory = r.memory }, r.done)
]

unfoldable pub write32 : Bus → ℕ → ℕ → Store → Option (Store × Bool)
unfolding write_npu
write32 b addr value s =
    if not (is_aligned addr 4)
    then some (s, false)
    else if is_npu_addr addr
    then (if is_null b.npu then some (s, false) else write_npu (sub32 addr npu_base) value s)
    else if is_console_addr addr
    then some (write_console b (sub32 addr console_base) value s)
    else if is_dram_addr b s addr
    then some (if is_null b.memory then (s, false) else write_word (dram_word_addr addr) value s)
    else some (s, false)
