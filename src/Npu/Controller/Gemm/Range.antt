-- ===== src/Npu/Controller/Gemm/Range.antt =====
-- `Controller::check_matrix_range`: its 64-bit sums are exact on a descriptor read from memory.
use maps.Prelude.{
  ℕ, ◌+◌, ◌*◌, ◌%◌, ◌<◌, ◌≤◌, ◌≡◌, ◌^◌, ◌&&◌, Bool, true, false, arith, length, refl, is_null, leb,
  u32, u64,
}
use maps.Memory.{size}
use maps.Npu.Controller.{check_matrix_range}
use maps.Npu.Controller.Monad.{Npu}
use maps.Npu.Controller.Tile.Layout.{IsLayout, validate-aligned}
use maps.Npu.Descriptor.{Descriptor, validate, word_addr}
use maps.Npu.Schedule.Plan.{IsSmall}

-- The addresses are UINT32.
pub record IsAddressed (d : Descriptor) : Type 0 where
  pub a_word : d.matrix_a_base < 2 ^ 32
  pub b_word : d.matrix_b_base < 2 ^ 32
  pub c_word : d.matrix_c_base < 2 ^ 32

product_small : (a b : ℕ) → a < 2 ^ 31 → b < 2 ^ 31 → a * b ≤ 2147483647 * 2147483647
product_small a b h k = grind arith

-- One matrix: the test in bytes, and the same in words.
fits_bytes : ℕ → ℕ → ℕ → ℕ → Bool
fits_bytes base rows cols n = leb (u64 (base + u64 (u64 (rows * cols) * 4))) (u64 (u32 n * 4))

fits_bytes-words :
    (base rows cols n : ℕ)
    → base < 2 ^ 32
    → base % 4 ≡ 0
    → rows < 2 ^ 31
    → cols < 2 ^ 31
    → n ≤ 2 ^ 30
    → fits_bytes base rows cols n ≡ leb (word_addr base + rows * cols) n
unfolding fits_bytes word_addr
fits_bytes-words base rows cols n hb ha hr hc hn = ground (arith, product_small rows cols hr hc)

pub check_matrix_range-exact :
    (s : Npu)
    → is_null s.controller.memory ≡ false
    → IsSmall s.controller.current_desc
    → IsAddressed s.controller.current_desc
    → validate s.controller.current_desc ≡ true
    → length s.memory.words ≤ 2 ^ 30
    → check_matrix_range s.controller s.memory ≡ (
        let d = s.controller.current_desc in
        let n = length s.memory.words in
        leb (word_addr d.matrix_a_base + d.matrix_m * d.matrix_k) n
        && leb (word_addr d.matrix_b_base + d.matrix_k * d.matrix_n) n
        && leb (word_addr d.matrix_c_base + d.matrix_m * d.matrix_n) n)
unfolding check_matrix_range fits_bytes size
check_matrix_range-exact s bound_to small addressed valid memory_small =
    let d = s.controller.current_desc in
    let n = length s.memory.words in
    let (a, b, c) = validate-aligned d valid in
    let ea =
      fits_bytes-words d.matrix_a_base d.matrix_m d.matrix_k n addressed.a_word a small.m_small
        small.k_small memory_small in
    let eb =
      fits_bytes-words d.matrix_b_base d.matrix_k d.matrix_n n addressed.b_word b small.k_small
        small.n_small memory_small in
    let ec =
      fits_bytes-words d.matrix_c_base d.matrix_m d.matrix_n n addressed.c_word c small.m_small
        small.n_small memory_small in
    rw bound_to (rw (ea, eb, ec) refl)

pub check_matrix_range-IsLayout :
    (s : Npu)
    → is_null s.controller.memory ≡ false
    → IsSmall s.controller.current_desc
    → IsAddressed s.controller.current_desc
    → validate s.controller.current_desc ≡ true
    → length s.memory.words ≤ 2 ^ 30
    → check_matrix_range s.controller s.memory ≡ true
    → IsLayout s.controller.current_desc (length s.memory.words)
check_matrix_range-IsLayout s bound_to small addressed valid memory_small fits =
    let e = check_matrix_range-exact s bound_to small addressed valid memory_small in
    record {
      valid = valid;
      small = small;
      memory_small = memory_small;
      a_end = ground (arith, e, fits);
      b_end = ground (arith, e, fits);
      c_end = ground (arith, e, fits);
    }

-- The three matrices end within a memory of `n` words.
pub record IsInMemory (d : Descriptor) (n : ℕ) : Type 0 where
  pub a_end : word_addr d.matrix_a_base + d.matrix_m * d.matrix_k ≤ n
  pub b_end : word_addr d.matrix_b_base + d.matrix_k * d.matrix_n ≤ n
  pub c_end : word_addr d.matrix_c_base + d.matrix_m * d.matrix_n ≤ n

pub check_matrix_range-passes :
    (s : Npu)
    → is_null s.controller.memory ≡ false
    → IsSmall s.controller.current_desc
    → IsAddressed s.controller.current_desc
    → validate s.controller.current_desc ≡ true
    → length s.memory.words ≤ 2 ^ 30
    → IsInMemory s.controller.current_desc (length s.memory.words)
    → check_matrix_range s.controller s.memory ≡ true
check_matrix_range-passes s bound_to small addressed valid memory_small inside =
    let e = check_matrix_range-exact s bound_to small addressed valid memory_small in
    ground (arith, e, inside.a_end, inside.b_end, inside.c_end)
