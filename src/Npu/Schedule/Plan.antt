-- ===== src/Npu/Schedule/Plan.antt =====
-- The plan as a list, in the order of the loops: what `build_plan` returns for a valid descriptor
-- whose fields are below 2 ^ 31, as those read from memory are.
use maps.Prelude.{ℕ, ◌<◌, ◌≤◌, ◌≡◌, ◌^◌, refl, true, some, List, [], ◌∷◌, ◌++◌, arith}
use mathlib.Core.List.{flat_map}
use maps.Npu.Descriptor.{Descriptor, validate}
use maps.Npu.Schedule.{GemmTile, k_loop, n_loop, m_loop, build_plan, build_plan_fuel}
use maps.Npu.Schedule.Spans.{Span, spans, tile_loop-spans}

abbrev pub tile_of : Span → Span → Span → GemmTile
tile_of m n k = record {
  m0 = m.start;
  n0 = n.start;
  k0 = k.start;
  m_len = m.len;
  n_len = n.len;
  k_len = k.len;
}

abbrev pub k_tiles : Descriptor → Span → Span → List GemmTile
k_tiles d m n = flat_map (λ k. tile_of m n k ∷ []) (spans d.matrix_k d.tile_k)

abbrev pub n_tiles : Descriptor → Span → List GemmTile
n_tiles d m = flat_map (k_tiles d m) (spans d.matrix_n d.tile_n)

-- All tiles, those of one place of C next to each other, with `k0` rising from 0.
abbrev pub plan_of : Descriptor → List GemmTile
plan_of d = flat_map (n_tiles d) (spans d.matrix_m d.tile_m)

-- Every dimension is below 2 ^ 31, so that no loop counter wraps.
pub record IsSmall (d : Descriptor) : Type 0 where
  pub m_small : d.matrix_m < 2 ^ 31
  pub n_small : d.matrix_n < 2 ^ 31
  pub k_small : d.matrix_k < 2 ^ 31
  pub tile_m_small : d.tile_m < 2 ^ 31
  pub tile_n_small : d.tile_n < 2 ^ 31
  pub tile_k_small : d.tile_k < 2 ^ 31

-- What a valid descriptor has of its dimensions.
pub record IsPositive (d : Descriptor) : Type 0 where
  pub m_pos : 0 < d.matrix_m
  pub n_pos : 0 < d.matrix_n
  pub k_pos : 0 < d.matrix_k
  pub tile_m_pos : 0 < d.tile_m
  pub tile_n_pos : 0 < d.tile_n
  pub tile_k_pos : 0 < d.tile_k

pub validate-IsPositive : (d : Descriptor) → validate d ≡ true → IsPositive d
unfolding validate
validate-IsPositive d h = ground arith

module _ (d : Descriptor) (fuel : ℕ) (pos : IsPositive d) (small : IsSmall d)
    (enough : 2 ^ 31 ≤ fuel) where
  k_loop-tiles :
      (m n : Span) (plan : List GemmTile)
      → k_loop fuel d m.start m.len n.start n.len plan ≡ some (plan ++ k_tiles d m n)
  unfolding k_loop
  k_loop-tiles m n plan =
      tile_loop-spans _ (λ k. tile_of m n k ∷ []) (λ at len p. refl) fuel d.matrix_k d.tile_k plan
        pos.tile_k_pos small.k_small small.tile_k_small (omega (arith, small.k_small))

  n_loop-tiles :
      (m : Span) (plan : List GemmTile)
      → n_loop fuel d m.start m.len plan ≡ some (plan ++ n_tiles d m)
  unfolding n_loop
  n_loop-tiles m plan =
      tile_loop-spans (k_loop fuel d m.start m.len) (k_tiles d m)
        (λ at len p. k_loop-tiles m (record { start = at; len = len }) p) fuel d.matrix_n d.tile_n
        plan pos.tile_n_pos small.n_small small.tile_n_small (omega (arith, small.n_small))

  m_loop-plan_of : m_loop fuel d [] ≡ some (plan_of d)
  unfolding m_loop
  m_loop-plan_of =
      tile_loop-spans (n_loop fuel d) (n_tiles d)
        (λ at len p. n_loop-tiles (record { start = at; len = len }) p) fuel d.matrix_m d.tile_m []
        pos.tile_m_pos small.m_small small.tile_m_small (omega (arith, small.m_small))

build_plan_fuel-plan_of :
    (d : Descriptor) (fuel : ℕ)
    → 2 ^ 31 ≤ fuel
    → validate d ≡ true
    → IsSmall d
    → build_plan_fuel fuel d ≡ some (plan_of d, true)
unfolding build_plan_fuel
build_plan_fuel-plan_of d fuel enough valid small =
    rw (valid, m_loop-plan_of d fuel (validate-IsPositive d valid) small enough, build_plan_fuel)
      refl

-- `build_plan` ends, with the plan of all tiles, for every valid descriptor of such dimensions.
pub build_plan-plan_of :
    (d : Descriptor) → validate d ≡ true → IsSmall d → build_plan d ≡ some (plan_of d, true)
unfolding build_plan
build_plan-plan_of d valid small = build_plan_fuel-plan_of d (2 ^ 32) (omega arith) valid small
