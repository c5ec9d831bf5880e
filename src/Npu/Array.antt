-- ===== src/Npu/Array.antt =====
-- `Array`, the 16 x 16 systolic array: src/maps-sim/src/npu/array.cpp. A loop nest that writes each
-- element once, from values that it does not write, is a `build`. A null tile is `none`.
pub mod Grid
pub mod Dot
pub mod Os
pub mod Ws
pub mod Is
pub mod Tile
pub mod Collect
pub mod Gemm
pub mod Accepts
use maps.Prelude.{
  ℕ, zero, suc, ◌+◌, ◌-◌, ◌*◌, Bool, true, false, not, ◌&&◌, ◌||◌, Option, none, some, List, [],
  ◌++◌, get_or, set, replicate, tabulate, drop, ltb, leb, ◌==◌, if◌then◌else◌, u32, sub32, Ptr,
}
use maps.Npu.Config.{Dataflow, ws, os, is, other, array_rows, array_cols}
use maps.Npu.Pe.{Pe}
use maps.Npu.Pe

-- `pe_array_`.
abbrev pub Array : Type 0
Array = List (List Pe)

unfoldable pub build : (ℕ → ℕ → Pe) → Array
build f = tabulate array_rows (λ i. tabulate array_cols (f i))

unfoldable pub pe_at : Array → ℕ → ℕ → Pe
pe_at grid i j = get_or (get_or grid i []) j Pe.make

-- Every element is updated from itself.
unfoldable pub update_all : (ℕ → ℕ → Pe → Pe) → Array → Array
update_all f grid = build (λ i j. f i j (pe_at grid i j))

unfoldable pub reset : Array → Array
reset = update_all (λ i j. Pe.reset)

unfoldable pub make : Array
make = reset (build (λ i j. Pe.make))

unfoldable pub dims_fit : Dataflow → ℕ → ℕ → ℕ → Bool
dims_fit os m_len n_len k_len = leb m_len array_rows && leb n_len array_cols
dims_fit ws m_len n_len k_len = leb k_len array_rows && leb n_len array_cols
dims_fit is m_len n_len k_len = leb m_len array_rows && leb k_len array_cols
dims_fit (other _) m_len n_len k_len = false

pub set_array_mode : Dataflow → Array → Array
set_array_mode mode = update_all (λ i j. Pe.set_mode mode)

-- `lhs_inputs[i][j]` and `rhs_inputs[i][j]`.
pub lhs_input : (ℕ → ℕ) → Array → ℕ → ℕ → ℕ
lhs_input left grid i zero = left i
lhs_input left grid i (suc j) = (pe_at grid i j).output0

pub rhs_input : (ℕ → ℕ) → Array → ℕ → ℕ → ℕ
rhs_input top grid zero j = top j
rhs_input top grid (suc i) j = (pe_at grid i j).output1

pub tick_grid : (ℕ → ℕ) → (ℕ → ℕ) → Array → Array
unfolding update_all lhs_input rhs_input
tick_grid left top grid =
    let fed =
      update_all (λ i j. Pe.set_inputs (lhs_input left grid i j) (rhs_input top grid i j)) grid in
    update_all (λ i j. Pe.tick) fed

pub c_in_at : Option (List ℕ) → ℕ → ℕ → ℕ → ℕ
c_in_at none row col n_len = 0
c_in_at (some c_in) row col n_len = get_or c_in (u32 (row * n_len + col)) 0

-- An element of `left` or `top` at a cycle: lane `i` is fed `value k` at cycle `i + k`, and 0 at
-- the cycles before and after; a lane past `lanes` is fed 0.
pub feed : ℕ → ℕ → (ℕ → ℕ → ℕ) → ℕ → ℕ → ℕ
feed lanes len value cyc i =
    if ltb i lanes && leb i cyc && ltb (cyc - i) len then value i (cyc - i) else 0

-- The result of a tile: the array, `c_out_tile`, `*cycles_out` and the returned value.
pub record TileResult : Type 0 where
  pub array : Array
  pub c_out : Option (List ℕ)
  pub cycles : ℕ
  pub done : Bool

-- `for (j = 0; j < cols; ++j) out[row * cols + j] = value(row, j)`, from `j` on, `n` rounds.
pub write_row : ℕ → (ℕ → ℕ → ℕ) → ℕ → ℕ → List ℕ → ℕ → List ℕ
write_row cols value row j out zero = out
write_row cols value row j out (suc n) =
    write_row cols value row (j + 1) (set out (u32 (row * cols + j)) (value row j)) n

-- The rows from `row` on, `n` of them.
pub write_rows : ℕ → (ℕ → ℕ → ℕ) → ℕ → List ℕ → ℕ → List ℕ
unfolding write_row
write_rows cols value row out zero = out
write_rows cols value row out (suc n) =
    write_rows cols value (row + 1) (write_row cols value row 0 out cols) n

module _ (a_tile b_tile : List ℕ) (c_in : Option (List ℕ)) (m_len n_len k_len : ℕ) where
  pub a_at : ℕ → ℕ → ℕ
  a_at i k = get_or a_tile (u32 (i * k_len + k)) 0

  pub b_at : ℕ → ℕ → ℕ
  b_at k j = get_or b_tile (u32 (k * n_len + j)) 0

  abbrev pub cycles : ℕ
  cycles = sub32 (m_len + n_len + k_len) 2

  -- Output stationary: the rounds of the cycle loop from `cyc` on, `n` of them.
  pub os_left : ℕ → ℕ → ℕ
  unfolding feed a_at
  os_left = feed m_len k_len (λ i k. a_at i k)

  pub os_top : ℕ → ℕ → ℕ
  unfolding feed b_at
  os_top = feed n_len k_len (λ j k. b_at k j)

  pub os_loop : ℕ → Array → ℕ → Array
  os_loop cyc grid zero = grid
  os_loop cyc grid (suc n) = os_loop (cyc + 1) (tick_grid (os_left cyc) (os_top cyc) grid) n

  pub os_start : Array → Array
  os_start grid =
      update_all
        (λ i j p. if ltb i m_len && ltb j n_len then Pe.load_psum (c_in_at c_in i j n_len) p else p)
        (set_array_mode os (reset grid))

  pub run_os_tile : Array → List ℕ → TileResult
  run_os_tile grid c_out =
      let array = os_loop 0 (os_start grid) cycles in
      record {
        array = array;
        c_out = some (write_rows n_len (λ i j. (pe_at array i j).psum_reg) 0 c_out m_len);
        cycles = cycles;
        done = true;
      }

  -- Weight stationary.
  pub ws_left : ℕ → ℕ → ℕ
  unfolding feed a_at
  ws_left = feed k_len m_len (λ k m. a_at m k)

  pub ws_top : ℕ → ℕ → ℕ
  unfolding feed c_in_at
  ws_top = feed n_len m_len (λ j m. c_in_at c_in m j n_len)

  pub ws_start : Array → Array
  ws_start grid =
      update_all (λ k j p. if ltb k k_len && ltb j n_len then Pe.load_weight (b_at k j) p else p)
        (set_array_mode ws (reset grid))

  -- The results that are ready after cycle `cyc`, column `j` on, `n` of them.
  pub ws_collect : ℕ → Array → ℕ → List ℕ → ℕ → List ℕ
  ws_collect cyc grid j c_out zero = c_out
  ws_collect cyc grid j c_out (suc n) =
      let ready = j + k_len - 1 in
      ws_collect cyc grid (j + 1)
        (if leb ready cyc && ltb (cyc - ready) m_len
          then set c_out (u32 ((cyc - ready) * n_len + j)) (pe_at grid (k_len - 1) j).output1
          else c_out)
        n

  pub ws_loop : ℕ → Array → List ℕ → ℕ → Array × List ℕ
  ws_loop cyc grid c_out zero = (grid, c_out)
  ws_loop cyc grid c_out (suc n) =
      let ticked = tick_grid (ws_left cyc) (ws_top cyc) grid in
      ws_loop (cyc + 1) ticked (ws_collect cyc ticked 0 c_out n_len) n

  pub run_ws_tile : Array → List ℕ → TileResult
  run_ws_tile grid c_out =
      let cleared = replicate (u32 (m_len * n_len)) 0 ++ drop (u32 (m_len * n_len)) c_out in
      let (array, out) = ws_loop 0 (ws_start grid) cleared cycles in
      record { array = array; c_out = some out; cycles = cycles; done = true }

  -- Input stationary.
  pub is_left : ℕ → ℕ → ℕ
  unfolding feed c_in_at
  is_left = feed m_len n_len (λ i n. c_in_at c_in i n n_len)

  pub is_top : ℕ → ℕ → ℕ
  unfolding feed b_at
  is_top = feed k_len n_len (λ k n. b_at k n)

  pub is_start : Array → Array
  is_start grid =
      update_all (λ i k p. if ltb i m_len && ltb k k_len then Pe.load_input (a_at i k) p else p)
        (set_array_mode is (reset grid))

  pub is_collect : ℕ → Array → ℕ → List ℕ → ℕ → List ℕ
  is_collect cyc grid i c_out zero = c_out
  is_collect cyc grid i c_out (suc n) =
      let ready = i + k_len - 1 in
      is_collect cyc grid (i + 1)
        (if leb ready cyc && ltb (cyc - ready) n_len
          then set c_out (u32 (i * n_len + (cyc - ready))) (pe_at grid i (k_len - 1)).output0
          else c_out)
        n

  pub is_loop : ℕ → Array → List ℕ → ℕ → Array × List ℕ
  is_loop cyc grid c_out zero = (grid, c_out)
  is_loop cyc grid c_out (suc n) =
      let ticked = tick_grid (is_left cyc) (is_top cyc) grid in
      is_loop (cyc + 1) ticked (is_collect cyc ticked 0 c_out m_len) n

  pub run_is_tile : Array → List ℕ → TileResult
  run_is_tile grid c_out =
      let cleared = replicate (u32 (m_len * n_len)) 0 ++ drop (u32 (m_len * n_len)) c_out in
      let (array, out) = is_loop 0 (is_start grid) cleared cycles in
      record { array = array; c_out = some out; cycles = cycles; done = true }

  pub run_tile_mode : Dataflow → Array → List ℕ → TileResult
  run_tile_mode os grid c_out = run_os_tile grid c_out
  run_tile_mode ws grid c_out = run_ws_tile grid c_out
  run_tile_mode is grid c_out = run_is_tile grid c_out
  run_tile_mode (other _) grid c_out = record {
    array = grid;
    c_out = some c_out;
    cycles = 0;
    done = false;
  }

-- The `false` of the guards: nothing changes but `*cycles_out`.
pub refused : Array → Option (List ℕ) → TileResult
refused grid c_out = record { array = grid; c_out = c_out; cycles = 0; done = false }

abbrev pub no_dims : ℕ → ℕ → ℕ → Bool
no_dims m_len n_len k_len = m_len == 0 || n_len == 0 || k_len == 0

unfoldable pub run_gemm_tile :
    Dataflow
    → Option (List ℕ)
    → Option (List ℕ)
    → Option (List ℕ)
    → ℕ
    → ℕ
    → ℕ
    → Option (List ℕ)
    → Array
    → TileResult
unfolding run_tile_mode dims_fit refused
run_gemm_tile mode (some a_tile) (some b_tile) c_in m_len n_len k_len (some c_out) grid =
    if no_dims m_len n_len k_len || not (dims_fit mode m_len n_len k_len)
    then refused grid (some c_out)
    else run_tile_mode a_tile b_tile c_in m_len n_len k_len mode grid c_out
run_gemm_tile mode _ _ c_in m_len n_len k_len c_out grid = refused grid c_out
