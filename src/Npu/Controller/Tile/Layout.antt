-- ===== src/Npu/Controller/Tile/Layout.antt =====
-- The matrices in DRAM and the tiles of a plan: which words a tile's requests name.
use maps.Prelude.{ℕ, ◌+◌, ◌*◌, ◌%◌, ◌<◌, ◌≤◌, ◌≡◌, ◌^◌, true, arith, u32}
use maps.Npu.Array.{dims_fit}
use maps.Npu.Array.Tile.{place-lt}
use maps.Npu.Config.{buffer_sizes}
use maps.Npu.Descriptor.{Descriptor, validate, word_addr, is_word_aligned}
use maps.Npu.Dma.Block.{place}
use maps.Npu.Schedule.{GemmTile}
use maps.Npu.Schedule.Plan.{IsSmall}

-- The word of the element at (i, j) of A, B and C.
abbrev pub a_place : Descriptor → ℕ → ℕ → ℕ
a_place d i k = place (word_addr d.matrix_a_base) d.matrix_k i k

abbrev pub b_place : Descriptor → ℕ → ℕ → ℕ
b_place d k j = place (word_addr d.matrix_b_base) d.matrix_n k j

abbrev pub c_place : Descriptor → ℕ → ℕ → ℕ
c_place d i j = place (word_addr d.matrix_c_base) d.matrix_n i j

-- A valid descriptor whose matrices lie in a memory of `n` words.
pub record IsLayout (d : Descriptor) (n : ℕ) : Type 0 where
  pub valid : validate d ≡ true
  pub small : IsSmall d
  pub memory_small : n ≤ 2 ^ 30
  pub a_end : word_addr d.matrix_a_base + d.matrix_m * d.matrix_k ≤ n
  pub b_end : word_addr d.matrix_b_base + d.matrix_k * d.matrix_n ≤ n
  pub c_end : word_addr d.matrix_c_base + d.matrix_m * d.matrix_n ≤ n

-- A tile of the matrices that fits the array and the buffers.
pub record IsTile (d : Descriptor) (t : GemmTile) : Type 0 where
  pub m_pos : 0 < t.m_len
  pub n_pos : 0 < t.n_len
  pub k_pos : 0 < t.k_len
  pub m_end : t.m0 + t.m_len ≤ d.matrix_m
  pub n_end : t.n0 + t.n_len ≤ d.matrix_n
  pub k_end : t.k0 + t.k_len ≤ d.matrix_k
  pub fits : dims_fit d.mode t.m_len t.n_len t.k_len ≡ true
  pub a_fits : t.m_len * t.k_len ≤ buffer_sizes
  pub b_fits : t.k_len * t.n_len ≤ buffer_sizes
  pub c_fits : t.m_len * t.n_len ≤ buffer_sizes

pub validate-aligned :
    (d : Descriptor)
    → validate d ≡ true
    → (d.matrix_a_base % 4 ≡ 0) × (d.matrix_b_base % 4 ≡ 0) × (d.matrix_c_base % 4 ≡ 0)
unfolding validate is_word_aligned
validate-aligned d h = ground arith

-- The block at (r0, c0) of a matrix, element by element.
pub place_sub :
    (w cols r0 c0 r c : ℕ) → place (w + (r0 * cols + c0)) cols r c ≡ place w cols (r0 + r) (c0 + c)
place_sub w cols r0 c0 r c = grind arith

pub place_in :
    (w rows cols n r c : ℕ) → w + rows * cols ≤ n → r < rows → c < cols → place w cols r c < n
place_in w rows cols n r c h hr hc = omega (arith, place-lt rows cols r c hr hc)

module _ (base rows cols r0 c0 n : ℕ) (aligned : base % 4 ≡ 0)
    (end : word_addr base + rows * cols ≤ n) (small : n ≤ 2 ^ 30) (hr : r0 < rows)
    (hc : c0 < cols) where
  abbrev pub address : ℕ
  address = u32 (base + u32 ((r0 * cols + c0) * 4))

  pub address-aligned : address % 4 ≡ 0
  address-aligned = omega arith

  pub address-word : word_addr address ≡ word_addr base + (r0 * cols + c0)
  unfolding word_addr
  address-word = omega (arith, place-lt rows cols r0 c0 hr hc)
