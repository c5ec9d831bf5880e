-- ===== src/Npu/Schedule/Tests.antt =====
-- A plan at a concrete descriptor.
use maps.Prelude.{ℕ, ◌≡◌, refl, true, some, List, arith, if◌then◌else◌, ◌&&◌, ltb}
use maps.Npu.Config.{os}
use maps.Npu.Descriptor.{Descriptor, validate}
use maps.Npu.Schedule.{GemmTile, build_plan}
use maps.Npu.Schedule.Plan.{IsSmall}
use maps.Npu.Schedule.Cover.{build_plan_covers, count_covering}

abbrev small_gemm : Descriptor
small_gemm = record {
  matrix_m = 3;
  matrix_n = 2;
  matrix_k = 5;
  mode = os;
  matrix_a_base = 64;
  matrix_b_base = 128;
  matrix_c_base = 192;
  tile_m = 2;
  tile_n = 2;
  tile_k = 2;
}

small_gemm-valid : validate small_gemm ≡ true
unfolding validate
small_gemm-valid = refl

small_gemm-IsSmall : IsSmall small_gemm
small_gemm-IsSmall = omega arith

build_plan_covers_example :
    (plan : List GemmTile) × (build_plan small_gemm ≡ some (plan, true))
    × ((i j k : ℕ) → count_covering i j k plan ≡ (if ltb i 3 && ltb j 2 && ltb k 5 then 1 else 0))
build_plan_covers_example = build_plan_covers small_gemm small_gemm-valid small_gemm-IsSmall
