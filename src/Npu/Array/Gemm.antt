-- ===== src/Npu/Array/Gemm.antt =====
-- `Array::run_gemm_tile` as a whole: the matrix product of a tile in all three modes.
pub mod Tests
use maps.Prelude.{
  ℕ, zero, suc, ◌+◌, ◌-◌, ◌*◌, ◌<◌, ◌≤◌, ◌≡◌, ◌%◌, ◌^◌, refl, sym, ◌∙◌, ap, ap₂, ◌&&◌, ◌||◌, not,
  Bool, true, false, inl, inr, List, Option, some, none, length, arith, leb, ltb, ◌==◌,
  if◌then◌else◌, u32, Bool-cases, ◌++◌, drop, replicate, length-append, length-replicate, get_or,
  sub32,
}
use maps.Npu.Config.{Dataflow, os, ws, is, other}
use maps.Npu.Array.{
  Array, TileResult, run_gemm_tile, run_tile_mode, run_os_tile, run_ws_tile, run_is_tile, dims_fit,
  write_rows, refused, a_at, b_at, c_in_at, ws_start, is_start, os_start, os_loop, ws_loop, is_loop,
  pe_at, no_dims, cycles,
}
use maps.Npu.Array.Dot.{dot, sum_products_congr}
use maps.Npu.Array.Tile.{tile_at, HasRoom, tile_at-write_rows, length-write_rows, place-lt}
use maps.Npu.Array.Os.{os_psum}
use maps.Npu.Array.Collect.WsRun.{ws_loop-cell, ws_loop-HasRoom}
use maps.Npu.Array.Collect.IsRun.{is_loop-cell, is_loop-HasRoom}

-- The start of the sum at (i, j): 0 without a `c_in_tile`.
abbrev pub start_at : Option (List ℕ) → ℕ → ℕ → ℕ → ℕ
start_at none cols i j = 0
start_at (some c_in) cols i j = tile_at cols c_in i j

-- The product of the tiles plus `c_in`, at (i, j), as an INT32 pattern.
abbrev pub gemm_at : List ℕ → List ℕ → Option (List ℕ) → ℕ → ℕ → ℕ → ℕ → ℕ
gemm_at a b c_in n_len k_len i j =
    dot (λ k. tile_at k_len a i k) (λ k. tile_at n_len b k j) (start_at c_in n_len i j) k_len

-- Dimensions that are not empty and whose products fit a UINT32.
pub record IsShape (m_len n_len k_len : ℕ) : Type 0 where
  pub m_pos : 0 < m_len
  pub n_pos : 0 < n_len
  pub k_pos : 0 < k_len
  pub a_small : m_len * k_len ≤ 2 ^ 32
  pub b_small : k_len * n_len ≤ 2 ^ 32
  pub c_small : m_len * n_len < 2 ^ 32
  pub cycles_small : m_len + n_len + k_len < 2 ^ 32

-- What the array promises of a tile that it accepts.
abbrev pub IsProduct : List ℕ → List ℕ → Option (List ℕ) → ℕ → ℕ → ℕ → TileResult → Type 0
IsProduct a b c_in m_len n_len k_len r =
    (r.done ≡ true)
    × (r.cycles + 2 ≡ m_len + n_len + k_len)
    × ((out : List ℕ) × (r.c_out ≡ some out)
        × (m_len * n_len ≤ length out)
        × ((i j : ℕ)
            → i < m_len
            → j < n_len
            → tile_at n_len out i j ≡ gemm_at a b c_in n_len k_len i j))

-- An index of a tile does not wrap.
place_u32 :
    (rows cols i j : ℕ)
    → rows * cols ≤ 2 ^ 32
    → i < rows
    → j < cols
    → u32 (i * cols + j) ≡ i * cols + j
place_u32 rows cols i j h hi hj = omega (arith, place-lt rows cols i j hi hj)

c_in_start :
    (c_in : Option (List ℕ)) (m_len n_len i j : ℕ)
    → m_len * n_len < 2 ^ 32
    → i < m_len
    → j < n_len
    → c_in_at c_in i j n_len ≡ start_at c_in n_len i j
unfolding c_in_at
c_in_start none m_len n_len i j h hi hj = refl
c_in_start (some c) m_len n_len i j h hi hj =
    ap (λ p. get_or c p 0) (place_u32 m_len n_len i j (omega arith) hi hj)

module _ (a b : List ℕ) (c_in : Option (List ℕ)) (m_len n_len k_len : ℕ)
    (shape : IsShape m_len n_len k_len)
    (fits : (i j : ℕ) → i < m_len → j < n_len → start_at c_in n_len i j < 2 ^ 32) where
  abbrev cell : ℕ → ℕ → ℕ
  cell i j =
      dot (a_at a b c_in m_len n_len k_len i) (λ k. b_at a b c_in m_len n_len k_len k j)
        (c_in_at c_in i j n_len) k_len

  cell-gemm : (i j : ℕ) → i < m_len → j < n_len → cell i j ≡ gemm_at a b c_in n_len k_len i j
  unfolding a_at b_at
  cell-gemm i j hi hj =
      ap₂ (λ start sum. (start + sum) % 2 ^ 32)
        (c_in_start c_in m_len n_len i j shape.c_small hi hj)
        (sum_products_congr _ _ _ _ k_len
          (λ k hk. ap (λ p. get_or a p 0) (place_u32 m_len k_len i k shape.a_small hi hk))
          (λ k hk. ap (λ p. get_or b p 0) (place_u32 k_len n_len k j shape.b_small hk hj)))

  c_in-lt : (i j : ℕ) → i < m_len → j < n_len → c_in_at c_in i j n_len < 2 ^ 32
  c_in-lt i j hi hj = rw (c_in_start c_in m_len n_len i j shape.c_small hi hj) (fits i j hi hj)

  cycles_eq : cycles a b c_in m_len n_len k_len + 2 ≡ m_len + n_len + k_len
  cycles_eq = let s = shape in omega arith

  os-IsProduct :
      (g : Array) (out : List ℕ)
      → m_len ≤ 16
      → n_len ≤ 16
      → m_len * n_len ≤ length out
      → IsProduct a b c_in m_len n_len k_len (run_os_tile a b c_in m_len n_len k_len g out)
  unfolding run_os_tile
  os-IsProduct g out hm hn room = (
    refl,
    cycles_eq,
    (
      write_rows n_len psum 0 out m_len,
      refl,
      rw (length-write_rows m_len n_len psum 0 out m_len) room,
      λ i j hi hj.
          tile_at-write_rows m_len n_len psum 0 out m_len i j (room, omega (arith, shape.c_small))
            (omega arith) hj
          ∙ ground (arith, written i j hi hj),
    ),
  )
    where
      run : Array
      run =
          os_loop a b c_in m_len n_len k_len 0 (os_start a b c_in m_len n_len k_len g)
            (cycles a b c_in m_len n_len k_len)

      psum : ℕ → ℕ → ℕ
      psum i j = (pe_at run i j).psum_reg

      written : (i j : ℕ) → i < m_len → j < n_len → psum i j ≡ gemm_at a b c_in n_len k_len i j
      written i j hi hj =
          os_psum a b c_in m_len n_len k_len c_in-lt g (cycles a b c_in m_len n_len k_len) i j hi hj
            hm hn (omega (arith, cycles_eq))
          ∙ cell-gemm i j hi hj

  abbrev clear : List ℕ → List ℕ
  clear out = replicate (u32 (m_len * n_len)) 0 ++ drop (u32 (m_len * n_len)) out

  clear_room : (out : List ℕ) → HasRoom m_len n_len (clear out)
  clear_room out = omega (
    arith,
    length-append (replicate (u32 (m_len * n_len)) 0) (drop (u32 (m_len * n_len)) out),
    length-replicate {A = ℕ} (u32 (m_len * n_len)) 0,
    shape.c_small,
  )

  ws-IsProduct :
      (g : Array) (out : List ℕ)
      → k_len ≤ 16
      → n_len ≤ 16
      → IsProduct a b c_in m_len n_len k_len (run_ws_tile a b c_in m_len n_len k_len g out)
  unfolding run_ws_tile
  ws-IsProduct g out hk hn =
      let room = clear_room out in
      let n = cycles a b c_in m_len n_len k_len in
      (
        refl,
        cycles_eq,
        (
          _,
          refl,
          (ws_loop-HasRoom a b c_in m_len n_len k_len c_in-lt shape.k_pos hk hn g (clear out) n
              room).0,
          λ i j hi hj.
              ws_loop-cell a b c_in m_len n_len k_len c_in-lt shape.k_pos hk hn g (clear out) n room
                i j (omega (arith, cycles_eq)) hi hj
              ∙ cell-gemm i j hi hj,
        ),
      )

  is-IsProduct :
      (g : Array) (out : List ℕ)
      → k_len ≤ 16
      → m_len ≤ 16
      → IsProduct a b c_in m_len n_len k_len (run_is_tile a b c_in m_len n_len k_len g out)
  unfolding run_is_tile
  is-IsProduct g out hk hm =
      let room = clear_room out in
      let n = cycles a b c_in m_len n_len k_len in
      (
        refl,
        cycles_eq,
        (
          _,
          refl,
          (is_loop-HasRoom a b c_in m_len n_len k_len c_in-lt shape.k_pos hk hm g (clear out) n
              room).0,
          λ i j hi hj.
              is_loop-cell a b c_in m_len n_len k_len c_in-lt shape.k_pos hk hm g (clear out) n room
                i j (omega (arith, cycles_eq)) hi hj
              ∙ cell-gemm i j hi hj,
        ),
      )

  -- Each mode computes the product.
  mode-IsProduct :
      (mode : Dataflow) (g : Array) (out : List ℕ)
      → dims_fit mode m_len n_len k_len ≡ true
      → m_len * n_len ≤ length out
      → IsProduct a b c_in m_len n_len k_len (run_tile_mode a b c_in m_len n_len k_len mode g out)
  unfolding run_tile_mode dims_fit
  mode-IsProduct os g out fit room = os-IsProduct g out (ground arith) (ground arith) room
  mode-IsProduct ws g out fit room = ws-IsProduct g out (ground arith) (ground arith)
  mode-IsProduct is g out fit room = is-IsProduct g out (ground arith) (ground arith)
  mode-IsProduct (other x) g out fit room = cc

-- Total correctness of a tile: with tiles and dimensions that fit the mode, in each of the three
-- modes and whatever the array held before, `run_gemm_tile` returns true, reports the m + n + k - 2
-- cycles of the wavefront, and every element of `c_out` is the sum of `c_in` (0 if null) and the
-- row-column product of the tiles, modulo 2 ^ 32.
pub run_gemm_tile-IsProduct :
    (mode : Dataflow) (a b : List ℕ) (c_in : Option (List ℕ)) (m_len n_len k_len : ℕ) (out : List ℕ)
    (g : Array)
    → IsShape m_len n_len k_len
    → dims_fit mode m_len n_len k_len ≡ true
    → m_len * n_len ≤ length out
    → ((i j : ℕ) → i < m_len → j < n_len → start_at c_in n_len i j < 2 ^ 32)
    → IsProduct a b c_in m_len n_len k_len
        (run_gemm_tile mode (some a) (some b) c_in m_len n_len k_len (some out) g)
unfolding run_gemm_tile
run_gemm_tile-IsProduct mode a b c_in m_len n_len k_len out g shape fit room fits =
    let positive : no_dims m_len n_len k_len ≡ false =
      ground (arith, shape.m_pos, shape.n_pos, shape.k_pos) in
    rw (positive, fit) (mode-IsProduct a b c_in m_len n_len k_len shape fits mode g out fit room)
