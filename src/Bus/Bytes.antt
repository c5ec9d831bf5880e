-- ===== src/Bus/Bytes.antt =====
-- Bytes of DRAM through the bus.
use maps.Prelude.{
  ℕ, ◌*◌, ◌/◌, ◌%◌, ◌<◌, ◌≡◌, ◌==◌, ◌^◌, refl, ap, ◌∙◌, sym, subst, Bool, true, false, some, List,
  length, get_or, set, arith, bound, length-set, get_or-set_self, get_or-set_ne, shr, bit_and_mask,
  byte_of, set_byte, byte_of-set_byte, if◌then◌else◌, Bool-cases, inl, inr, ==→eq, ==→ne,
}
use maps.Bus.{
  Bus, Store, read8, write8, npu_base, dram_word_addr, dram_byte_offset, is_console_addr,
  is_dram_addr,
}
use maps.Memory
use maps.Memory.Access.{read_in_range, write_in_range_lem}

-- An address below the devices that falls into the memory, of fewer than 2 ^ 32 words.
pub record IsDramByte (b : Bus) (n addr : ℕ) : Type 0 where
  pub memory_bound : b.memory ≡ bound
  pub below_devices : addr < npu_base
  pub memory_small : n < 2 ^ 32
  pub in_memory : addr / 4 < n

-- The byte at an address, in memory words that hold the lowest byte first.
abbrev pub byte_at : List ℕ → ℕ → ℕ
byte_at words addr = byte_of (get_or words (addr / 4) 0) (addr % 4)

abbrev pub put_byte : List ℕ → ℕ → ℕ → List ℕ
put_byte words addr v = set words (addr / 4) (set_byte (get_or words (addr / 4) 0) (addr % 4) v)

-- A byte put, and every byte of the memory after it.
pub byte_at-put_byte :
    (words : List ℕ) (addr other v : ℕ)
    → addr / 4 < length words
    → v < 256
    → byte_at (put_byte words addr v) other ≡ (if addr == other then v else byte_at words other)
byte_at-put_byte words addr other v h hv = elim (Bool-cases (addr / 4 == other / 4)) [
  | inl same ↦
      let e = ==→eq (addr / 4) (other / 4) same in
      let word = get_or words (addr / 4) 0 in
      let put : get_or (put_byte words addr v) (other / 4) 0 ≡ set_byte word (addr % 4) v =
        ap (λ i. get_or (put_byte words addr v) i 0) (sym e)
        ∙ get_or-set_self words (addr / 4) (set_byte word (addr % 4) v) 0 h in
      let test : (addr % 4 == other % 4) ≡ (addr == other) = ground (arith, e) in
      ap (λ w. byte_of w (other % 4)) put
      ∙ byte_of-set_byte word (addr % 4) (other % 4) v (omega arith) (omega arith) hv
      ∙ ap (λ t. if t then v else byte_of word (other % 4)) test
      ∙ ap (λ i. if addr == other then v else byte_of (get_or words i 0) (other % 4)) e
  | inr apart ↦
      let n = ==→ne (addr / 4) (other / 4) apart in
      let test : (addr == other) ≡ false = ground (arith, n) in
      rw test (
        ap (λ w. byte_of w (other % 4))
          (get_or-set_ne words (addr / 4) (other / 4)
            (set_byte (get_or words (addr / 4) 0) (addr % 4) v) 0 n))
]

module _ (b : Bus) (s : Store) (addr : ℕ) (ok : IsDramByte b (length s.memory.words) addr) where
  word_index : dram_word_addr addr ≡ addr / 4
  word_index = omega (arith, ok.below_devices)

  byte_offset : dram_byte_offset addr ≡ addr % 4
  byte_offset = omega (arith, ok.below_devices)

  pub in_dram : is_dram_addr b s addr ≡ true
  unfolding Memory.size
  in_dram =
      ground (arith, ok.below_devices, ok.in_memory, ok.memory_bound, ok.memory_small, word_index)

  not_console : is_console_addr addr ≡ false
  not_console = ground (arith, ok.below_devices)

  word_read : Memory.read s.memory (dram_word_addr addr) ≡ some (get_or s.memory.words (addr / 4) 0)
  word_read = rw word_index (read_in_range s.memory (addr / 4) ok.in_memory)

  pub read8-byte_at : read8 b s addr ≡ some (byte_at s.memory.words addr)
  unfolding read8
  read8-byte_at =
      let w = get_or s.memory.words (addr / 4) 0 in
      let masked = bit_and_mask 8 (shr w (addr % 4 * 8)) in
      rw (in_dram, ok.memory_bound, word_read, byte_offset) (ap some (omega (arith, masked)))

  pub write8-put_byte :
      (v : ℕ)
      → write8 b addr v s
        ≡ (record s { memory = record { words = put_byte s.memory.words addr v } }, true)
  unfolding write8
  write8-put_byte v =
      rw (not_console, in_dram, ok.memory_bound, word_read, byte_offset, word_index)
        (ap (λ (r : Memory.Memory × Bool). (record s { memory = r.0 }, r.1))
          (write_in_range_lem s.memory (addr / 4)
            (set_byte (get_or s.memory.words (addr / 4) 0) (addr % 4) v) ok.in_memory))

-- A byte stored to DRAM through the bus, below the devices and in the memory: the store succeeds, the
-- same address then reads the stored byte, and every other such address reads as before, those of the
-- same word included.
pub read8-write8 :
    (b : Bus) (s : Store) (addr other v : ℕ)
    → IsDramByte b (length s.memory.words) addr
    → IsDramByte b (length s.memory.words) other
    → v < 256
    → (s' : Store) × (write8 b addr v s ≡ (s', true))
      × (read8 b s' other ≡ (if addr == other then some v else read8 b s other))
read8-write8 b s addr other v ok h hv =
    let words = s.memory.words in
    let s' = record s { memory = record { words = put_byte words addr v } } in
    let same : length s'.memory.words ≡ length words =
      length-set words (addr / 4) (set_byte (get_or words (addr / 4) 0) (addr % 4) v) in
    let h' = subst (λ n. IsDramByte b n other) (sym same) h in
    (
      s',
      write8-put_byte b s addr ok v,
      read8-byte_at b s' other h'
          ∙ ap some (byte_at-put_byte words addr other v ok.in_memory hv)
          ∙ some_if (addr == other) v (byte_at words other)
          ∙ ap (λ o. if addr == other then some v else o) (sym (read8-byte_at b s other h)),
    )
  where
    some_if : (t : Bool) (x y : ℕ) → some (if t then x else y) ≡ (if t then some x else some y)
    some_if true x y = refl
    some_if false x y = refl
