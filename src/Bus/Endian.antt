-- ===== src/Bus/Endian.antt =====
-- The order of the bytes in the halfwords and words that the bus reads.
use maps.Prelude.{
  ℕ, ◌+◌, ◌*◌, ◌/◌, ◌%◌, ◌<◌, ◌≡◌, ◌^◌, ap, ap₂, ◌∙◌, sym, some, length, get_or, arith, u32,
  bit_or_disjoint_right, byte_of, subst,
}
use maps.Bus.{Bus, Store, read8, read16, read32}
use maps.Bus.Bytes.{IsDramByte, byte_at, read8-byte_at, in_dram}
use maps.Bus.Dram.{IsDramWord, read32-dram}
use maps.Memory.{IsValid}
use maps.Memory.Access.{read_in_range}

four_bytes :
    (w : ℕ)
    → w < 2 ^ 32
    → w ≡ byte_of w 0 + 256 * byte_of w 1 + 65536 * byte_of w 2 + 16777216 * byte_of w 3
four_bytes w h = omega arith

module _ (b : Bus) (s : Store) where
  -- Two bytes, the lower one first.
  pub read16-bytes :
      (addr : ℕ)
      → addr % 2 ≡ 0
      → IsDramByte b (length s.memory.words) addr
      → read16 b s addr
        ≡ some (byte_at s.memory.words addr + 256 * byte_at s.memory.words (addr + 1))
  unfolding read16
  read16-bytes addr even ok =
      let words = s.memory.words in
      let ok' : IsDramByte b (length words) (addr + 1) = record {
        memory_bound = ok.memory_bound;
        below_devices = omega (arith, ok.below_devices, even);
        memory_small = ok.memory_small;
        in_memory = omega (arith, ok.in_memory, even);
      } in
      let next : u32 (addr + 1) ≡ addr + 1 = omega (arith, ok.below_devices) in
      let lo = byte_at words addr in
      let hi = byte_at words (addr + 1) in
      let joined = bit_or_disjoint_right 8 (hi * 256) lo (omega arith) (omega arith) in
      rw
        (
          even,
          in_dram b s addr ok,
          read8-byte_at b s addr ok,
          next,
          read8-byte_at b s (addr + 1) ok',
        )
        (ap some (omega (arith, joined)))

  module _ (addr : ℕ) (ok : IsDramWord b s addr) where
    bytes_ok : (i : ℕ) → i < 4 → IsDramByte b (length s.memory.words) (addr + i)
    bytes_ok i h = record {
      memory_bound = ok.memory_bound;
      below_devices = omega (arith, ok.below_devices, ok.aligned);
      memory_small = ok.memory_small;
      in_memory = omega (arith, ok.in_memory, ok.aligned);
    }

    same_word :
        (i : ℕ)
        → i < 4
        → byte_at s.memory.words (addr + i) ≡ byte_of (get_or s.memory.words (addr / 4) 0) i
    same_word i h =
        let e : (addr + i) / 4 ≡ addr / 4 = omega (arith, ok.aligned) in
        let f : (addr + i) % 4 ≡ i = omega (arith, ok.aligned) in
        ap₂ (λ w j. byte_of (get_or s.memory.words w 0) j) e f

    -- An aligned word of DRAM, below the devices, in a memory of words below 2 ^ 32, is
    -- little-endian: `read8` reads its four bytes at the four addresses, `read16` at the first and the
    -- third address two of them, and `read32` all four, the lowest byte first.
    pub read32-bytes :
        IsValid s.memory
        → let at = byte_at s.memory.words in
          (read8 b s addr ≡ some (at addr))
          × (read8 b s (addr + 1) ≡ some (at (addr + 1)))
          × (read8 b s (addr + 2) ≡ some (at (addr + 2)))
          × (read8 b s (addr + 3) ≡ some (at (addr + 3)))
          × (read16 b s addr ≡ some (at addr + 256 * at (addr + 1)))
          × (read16 b s (addr + 2) ≡ some (at (addr + 2) + 256 * at (addr + 3)))
          × (read32 b s addr
              ≡ some (
                  at addr + 256 * at (addr + 1) + 65536 * at (addr + 2) + 16777216 * at (addr + 3)))
    read32-bytes valid =
        let w = get_or s.memory.words (addr / 4) 0 in
        let at = byte_at s.memory.words in
        let start : addr + 0 ≡ addr = omega arith in
        let next : addr + 2 + 1 ≡ addr + 3 = omega arith in
        let e0 : at addr ≡ byte_of w 0 = ap at (sym start) ∙ same_word 0 (omega arith) in
        let e1 = same_word 1 (omega arith) in
        let e2 = same_word 2 (omega arith) in
        let e3 = same_word 3 (omega arith) in
        let small : w < 2 ^ 32 = valid.words_fit (addr / 4) in
        let whole : w
            ≡ at addr + 256 * at (addr + 1) + 65536 * at (addr + 2) + 16777216 * at (addr + 3) =
          rw (e0, e1, e2, e3) (four_bytes w small) in
        let first =
          subst (λ a. IsDramByte b (length s.memory.words) a) start (bytes_ok 0 (omega arith)) in
        (
          read8-byte_at b s addr first,
          read8-byte_at b s (addr + 1) (bytes_ok 1 (omega arith)),
          read8-byte_at b s (addr + 2) (bytes_ok 2 (omega arith)),
          read8-byte_at b s (addr + 3) (bytes_ok 3 (omega arith)),
          read16-bytes addr (omega (arith, ok.aligned)) first,
          read16-bytes (addr + 2) (omega (arith, ok.aligned)) (bytes_ok 2 (omega arith))
              ∙ ap (λ a. some (at (addr + 2) + 256 * at a)) next,
          read32-dram b s addr ok ∙ read_in_range s.memory (addr / 4) ok.in_memory ∙ ap some whole,
        )
