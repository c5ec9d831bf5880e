-- ===== src/Npu/Dma/Submit.antt =====
-- `DmaEngine::submit`: it accepts exactly the requests that stay in range, and one that it accepts
-- is then carried out by `run_sync`.
use maps.Prelude.{ℕ, ◌+◌, ◌-◌, ◌*◌, ◌<◌, ◌≤◌, ◌≡◌, ◌^◌, ◌↔◌, false, some, length, arith, is_null}
use maps.Memory.{Memory}
use maps.Npu.Buffer.{Buffer}
use maps.Npu.Buffer
use maps.Npu.Descriptor.{word_addr}
use maps.Npu.Dma.{
  DmaRequest, DmaEngine, DmaDirection, dram_to_buffer, buffer_to_dram, unknown, last_word, Transfer,
  leaves_range, is_busy, is_unbound,
}
use maps.Npu.Dma.Block.{place}

mul_mono : (a b m n : ℕ) → a ≤ m → b ≤ n → a * b ≤ m * n
mul_mono a b m n h k = grind arith

-- The fields of a request are UINT32.
pub record IsWords (req : DmaRequest) : Type 0 where
  pub length_fits : req.length < 2 ^ 32
  pub rows_fit : req.rows < 2 ^ 32
  pub src_fits : req.src_stride < 2 ^ 32
  pub dst_fits : req.dst_stride < 2 ^ 32
  pub dram_fits : req.dram_base < 2 ^ 32
  pub buffer_fits : req.buffer_base < 2 ^ 32

-- The 64-bit sum of the range check does not wrap.
last_word_exact :
    (base stride : ℕ) (req : DmaRequest)
    → IsWords req
    → base < 2 ^ 32
    → stride < 2 ^ 32
    → last_word base stride req ≡ base + (req.rows - 1) * stride + (req.length - 1)
last_word_exact base stride req w hb hs = omega (
  arith,
  mul_mono (req.rows - 1) stride (2 ^ 32 - 2) (2 ^ 32 - 1) (omega (arith, w.rows_fit))
      (omega arith),
  w.length_fits,
)

-- It is below a limit exactly when every word of the block is.
pub last_word-lt_iff :
    (base stride limit : ℕ) (req : DmaRequest)
    → IsWords req
    → base < 2 ^ 32
    → stride < 2 ^ 32
    → 0 < req.rows
    → 0 < req.length
    → (last_word base stride req < limit)
      ↔ ((r c : ℕ) → r < req.rows → c < req.length → place base stride r c < limit)
last_word-lt_iff base stride limit req w hb hs hr hl = (
  λ h r c p q. omega (
    arith,
    last_word_exact base stride req w hb hs,
    mul_mono r stride (req.rows - 1) stride (omega arith) (omega arith),
  ),
  λ h. omega (
    arith,
    last_word_exact base stride req w hb hs,
    h (req.rows - 1) (req.length - 1) (omega arith) (omega arith),
  ),
)

-- An engine that can take a request: not busy, bound to a buffer and to the memory.
pub record IsReady (d : DmaEngine) (m : Memory) : Type 0 where
  pub not_busy : is_busy d.state ≡ false
  pub buffer_bound : is_unbound d.buffer ≡ false
  pub memory_bound : is_null d.memory ≡ false
  pub size_known : d.dram_size ≡ length m.words

-- A transfer on real hardware sizes.
pub record IsSmall (t : Transfer) : Type 0 where
  pub memory_small : length t.memory.words < 2 ^ 32
  pub buffer_small : length t.buffer.words < 2 ^ 32

-- The strides of the two sides, by direction.
abbrev pub mem_stride : DmaDirection → DmaRequest → ℕ
mem_stride dram_to_buffer req = req.src_stride
mem_stride _ req = req.dst_stride

abbrev pub buf_stride : DmaDirection → DmaRequest → ℕ
buf_stride dram_to_buffer req = req.dst_stride
buf_stride _ req = req.src_stride

-- Every word that the request names is in the memory and in the buffer.
abbrev pub StaysInRange : DmaDirection → DmaRequest → Transfer → Type 0
StaysInRange dir req t =
    (r c : ℕ)
    → r < req.rows
    → c < req.length
    → (place (word_addr req.dram_base) (mem_stride dir req) r c < length t.memory.words)
      × (place req.buffer_base (buf_stride dir req) r c < length t.buffer.words)

abbrev pub IsKnown : DmaDirection → Type 0
IsKnown unknown = ⊥
IsKnown _ = Unit

pub size_exact : (b : Buffer) → length b.words < 2 ^ 32 → Buffer.size b ≡ length b.words
unfolding Buffer.size
size_exact b h = omega arith

module _ (req : DmaRequest) (t : Transfer) (w : IsWords req) (small : IsSmall t)
    (rows : 0 < req.rows) (cols : 0 < req.length) where
  abbrev MemOk : ℕ → ℕ → Type 0
  MemOk stride limit =
      (r c : ℕ) → r < req.rows → c < req.length → place (word_addr req.dram_base) stride r c < limit

  word_addr_small : word_addr req.dram_base < 2 ^ 32
  unfolding word_addr
  word_addr_small = omega (arith, w.dram_fits)

  -- Both sides of a request at once.
  both_iff :
      (ms bs : ℕ)
      → ms < 2 ^ 32
      → bs < 2 ^ 32
      → ((last_word (word_addr req.dram_base) ms req < length t.memory.words)
          × (last_word req.buffer_base bs req < length t.buffer.words))
        ↔ ((r c : ℕ)
            → r < req.rows
            → c < req.length
            → (place (word_addr req.dram_base) ms r c < length t.memory.words)
              × (place req.buffer_base bs r c < length t.buffer.words))
  both_iff ms bs hm hb = (
    λ h r c p q. (mem_side.0 h.0 r c p q, buf_side.0 h.1 r c p q),
    λ h. (mem_side.1 (λ r c p q. (h r c p q).0), buf_side.1 (λ r c p q. (h r c p q).1)),
  )
    where
      mem_side : (last_word (word_addr req.dram_base) ms req < length t.memory.words) ↔ (
          (r c : ℕ)
          → r < req.rows
          → c < req.length
          → place (word_addr req.dram_base) ms r c < length t.memory.words)
      mem_side = last_word-lt_iff (word_addr req.dram_base) ms _ req w word_addr_small hm rows cols

      buf_side : (last_word req.buffer_base bs req < length t.buffer.words) ↔ (
          (r c : ℕ)
          → r < req.rows
          → c < req.length
          → place req.buffer_base bs r c < length t.buffer.words)
      buf_side = last_word-lt_iff req.buffer_base bs _ req w w.buffer_fits hb rows cols

  -- The check of `submit` passes exactly when every word is in range.
  pub leaves_range_iff :
      (dir : DmaDirection)
      → IsKnown dir
      → (leaves_range dir (length t.memory.words) (length t.buffer.words) req ≡ some false)
        ↔ StaysInRange dir req t
  unfolding leaves_range
  leaves_range_iff dram_to_buffer known =
      let both = both_iff req.src_stride req.dst_stride w.src_fits w.dst_fits in
      (λ e. both.0 (ground arith), λ h. (let l = both.1 h in ground arith))
  leaves_range_iff buffer_to_dram known =
      let both = both_iff req.dst_stride req.src_stride w.dst_fits w.src_fits in
      (λ e. both.0 (ground arith), λ h. (let l = both.1 h in ground arith))
  leaves_range_iff unknown known = absurd known
