-- ===== src/Npu/Array/Gemm/Tests.antt =====
-- Runs of tiles in the three modes, and the theorems at them.
use maps.Prelude.{
  ℕ, ◌≡◌, ◌<◌, ◌^◌, refl, true, none, some, List, [], ◌∷◌, arith, if◌then◌else◌, sub32, ◌+◌, ◌↔◌,
}
use maps.Npu.Config.{os, ws, is}
use maps.Npu.Array.{
  run_gemm_tile, make, pe_at, build, dims_fit, run_os_tile, write_rows, os_loop, tick_grid,
  os_start, set_array_mode, c_in_at, os_left, reset, os_top, run_ws_tile, ws_loop, ws_collect,
  ws_start, ws_left, b_at, ws_top, run_is_tile, is_loop, is_collect, is_start, is_left, a_at,
  is_top,
}
use maps.Npu.Pe
use maps.Npu.Array.Gemm.{IsShape, IsProduct, run_gemm_tile-IsProduct, start_at}
use maps.Npu.Array.Accepts.{IsGiven, IsHeld, run_gemm_tile_accepts}

abbrev a_words : List ℕ
a_words = 1 ∷ 2 ∷ 3 ∷ 4 ∷ []

abbrev b_words : List ℕ
b_words = 5 ∷ 6 ∷ 7 ∷ 8 ∷ []

abbrev zeros : List ℕ
zeros = 0 ∷ 0 ∷ 0 ∷ 0 ∷ []

os_runs :
    (run_gemm_tile os (some a_words) (some b_words) none 2 2 2 (some zeros) make).c_out
    ≡ some (19 ∷ 22 ∷ 43 ∷ 50 ∷ [])
unfolding run_gemm_tile make pe_at build Pe.tick run_os_tile write_rows os_loop tick_grid os_start
    set_array_mode c_in_at os_left reset os_top
os_runs = refl

ws_runs :
    (run_gemm_tile ws (some a_words) (some b_words) (some a_words) 2 2 2 (some zeros) make).c_out
    ≡ some (20 ∷ 24 ∷ 46 ∷ 54 ∷ [])
unfolding run_gemm_tile make pe_at build Pe.tick run_ws_tile ws_loop ws_collect tick_grid ws_start
    set_array_mode ws_left b_at ws_top
ws_runs = refl

is_runs :
    (run_gemm_tile is (some a_words) (some b_words) (some a_words) 2 2 2 (some zeros) make).c_out
    ≡ some (20 ∷ 24 ∷ 46 ∷ 54 ∷ [])
unfolding run_gemm_tile make pe_at build Pe.tick run_is_tile is_loop is_collect tick_grid is_start
    set_array_mode is_left a_at is_top
is_runs = refl

two_by_two : IsShape 2 2 2
two_by_two = record {
  m_pos = omega arith;
  n_pos = omega arith;
  k_pos = omega arith;
  a_small = omega arith;
  b_small = omega arith;
  c_small = omega arith;
  cycles_small = omega arith;
}

ws_fits : dims_fit ws 2 2 2 ≡ true
unfolding dims_fit
ws_fits = refl

no_start : (i j : ℕ) → i < 2 → j < 2 → start_at none 2 i j < 2 ^ 32
no_start i j hi hj = omega arith

run_gemm_tile-IsProduct_example :
    IsProduct a_words b_words none 2 2 2
      (run_gemm_tile ws (some a_words) (some b_words) none 2 2 2 (some zeros) make)
run_gemm_tile-IsProduct_example =
    run_gemm_tile-IsProduct ws a_words b_words none 2 2 2 zeros make two_by_two ws_fits
      (omega arith) no_start

run_gemm_tile_accepts_example :
    let r = run_gemm_tile ws (some a_words) (some b_words) none 2 2 2 (some zeros) make in
    ((r.done ≡ true) ↔ (
      IsGiven (some a_words)
      × IsGiven (some b_words)
      × IsGiven (some zeros)
      × 0 < 2
      × 0 < 2
      × 0 < 2
      × IsHeld ws 2 2 2))
    × (r.array ≡ (if r.done then r.array else make))
    × (r.c_out ≡ (if r.done then r.c_out else some zeros))
    × (r.cycles ≡ (if r.done then sub32 (2 + 2 + 2) 2 else 0))
run_gemm_tile_accepts_example =
    run_gemm_tile_accepts ws (some a_words) (some b_words) none 2 2 2 (some zeros) make
