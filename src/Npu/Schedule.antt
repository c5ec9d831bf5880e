-- ===== src/Npu/Schedule.antt =====
-- `Scheduler::build_plan`: src/maps-sim/src/npu/schedule.cpp. The three loops have one shape; they
-- step a UINT32, which can wrap, so each takes fuel. 2 ^ 32 rounds exhaust the values of the
-- counter: with that fuel `none` means that the loop of the code does not end.
pub mod Spans
pub mod Plan
pub mod Volume
pub mod Cover
pub mod Tests
use maps.Prelude.{
  ℕ, zero, suc, ◌+◌, ◌^◌, Bool, true, false, Option, none, some, List, [], ◌∷◌, ◌++◌, ltb, leb,
  if◌then◌else◌, u32, sub32,
}
use maps.Npu.Descriptor.{Descriptor, validate}

pub record GemmTile : Type 0 where
  pub m0 : ℕ
  pub n0 : ℕ
  pub k0 : ℕ
  pub m_len : ℕ
  pub n_len : ℕ
  pub k_len : ℕ

-- `(at + step <= limit) ? step : (limit - at)`.
pub tile_len : ℕ → ℕ → ℕ → ℕ
tile_len limit step at = if leb (u32 (at + step)) limit then step else sub32 limit at

-- `for (at = ...; at < limit; at += step) body(at, len)`, the body working on the plan.
pub tile_loop :
    ℕ
    → ℕ
    → ℕ
    → (ℕ → ℕ → List GemmTile → Option (List GemmTile))
    → ℕ
    → List GemmTile
    → Option (List GemmTile)
unfolding tile_len
tile_loop zero limit step body at plan = none
tile_loop (suc fuel) limit step body at plan = elim (ltb at limit) [
  | true ↦ elim (body at (tile_len limit step at) plan) [
    | none ↦ none
    | some plan' ↦ tile_loop fuel limit step body (u32 (at + step)) plan'
  ]
  | false ↦ some plan
]

module _ (fuel : ℕ) (desc : Descriptor) where
  pub k_loop : (m0 m_len n0 n_len : ℕ) → List GemmTile → Option (List GemmTile)
  unfolding tile_loop
  k_loop m0 m_len n0 n_len =
      tile_loop fuel desc.matrix_k desc.tile_k
        (λ k0 k_len plan. some (
          plan
          ++ (record { m0 = m0; n0 = n0; k0 = k0; m_len = m_len; n_len = n_len; k_len = k_len }
              ∷ [])))
        0

  pub n_loop : (m0 m_len : ℕ) → List GemmTile → Option (List GemmTile)
  unfolding k_loop
  n_loop m0 m_len = tile_loop fuel desc.matrix_n desc.tile_n (k_loop m0 m_len) 0

  pub m_loop : List GemmTile → Option (List GemmTile)
  unfolding n_loop
  m_loop = tile_loop fuel desc.matrix_m desc.tile_m n_loop 0

-- The plan and the result, or `none` if a loop does not end.
unfoldable pub build_plan_fuel : ℕ → Descriptor → Option (List GemmTile × Bool)
unfolding m_loop
build_plan_fuel fuel desc =
    if validate desc
    then elim (m_loop fuel desc []) [ none ↦ none | some plan ↦ some (plan, true) ]
    else some ([], false)

unfoldable pub build_plan : Descriptor → Option (List GemmTile × Bool)
build_plan = build_plan_fuel (2 ^ 32)
