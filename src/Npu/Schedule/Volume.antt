-- ===== src/Npu/Schedule/Volume.antt =====
-- The volume of a plan: the multiplications of all its tiles.
use maps.Prelude.{
  ℕ, zero, suc, ◌+◌, ◌-◌, ◌*◌, ◌<◌, ◌≤◌, ◌≡◌, ◌∙◌, ap, List, [], ◌∷◌, ◌++◌, arith, lt→ltb, le→ltb,
  lt_or_le, inl, inr,
}
use mathlib.Core.List.{flat_map}
use maps.Npu.Descriptor.{Descriptor}
use maps.Npu.Schedule.{GemmTile}
use maps.Npu.Schedule.Plan.{tile_of, k_tiles, n_tiles, plan_of, IsPositive}
use maps.Npu.Schedule.Spans.{Span, spans_from, spans}

abbrev pub volume : List GemmTile → ℕ
volume [] = 0
volume (tile ∷ rest) = tile.m_len * tile.n_len * tile.k_len + volume rest

-- The length of all spans.
abbrev sum_len : List Span → ℕ
sum_len [] = 0
sum_len (x ∷ xs) = x.len + sum_len xs

sum_len-spans_from :
    (fuel limit step at : ℕ)
    → 0 < step
    → limit ≤ at + fuel
    → sum_len (spans_from fuel limit step at) ≡ limit - at
sum_len-spans_from zero limit step at pos h = omega (arith, h)
sum_len-spans_from (suc fuel) limit step at pos h = elim (lt_or_le at limit) [
  | inl more ↦
      let rest = sum_len-spans_from fuel limit step (at + step) pos (omega (arith, pos, h)) in
      rw (lt→ltb at limit more) (ground (arith, rest, more))
  | inr done ↦ rw (le→ltb at limit done) (omega (arith, done))
]

sum_len-spans : (limit step : ℕ) → 0 < step → sum_len (spans limit step) ≡ limit
sum_len-spans limit step pos = sum_len-spans_from limit limit step 0 pos (omega arith) ∙ omega arith

volume-append : (xs ys : List GemmTile) → volume (xs ++ ys) ≡ volume xs + volume ys
volume-append [] ys = omega arith
volume-append (x ∷ xs) ys = omega (arith, volume-append xs ys)

-- Tiles by spans, each of a volume in proportion to its length.
volume-flat_map :
    (f : Span → List GemmTile) (w : ℕ) (xs : List Span)
    → ((x : Span) → volume (f x) ≡ w * x.len)
    → volume (flat_map f xs) ≡ w * sum_len xs
unfolding flat_map
volume-flat_map f w [] each = grind arith
volume-flat_map f w (x ∷ xs) each =
    let rest = volume-flat_map f w xs each in
    volume-append (f x) (flat_map f xs) ∙ grind (arith, each x, rest)

-- The plan has each of the m * n * k multiplications once.
pub volume-plan_of :
    (d : Descriptor) → IsPositive d → volume (plan_of d) ≡ d.matrix_k * d.matrix_n * d.matrix_m
volume-plan_of d pos =
    let k_len = sum_len-spans d.matrix_k d.tile_k pos.tile_k_pos in
    let n_len = sum_len-spans d.matrix_n d.tile_n pos.tile_n_pos in
    let m_len = sum_len-spans d.matrix_m d.tile_m pos.tile_m_pos in
    let along_k : (m n : Span) → volume (k_tiles d m n) ≡ m.len * d.matrix_k * n.len = λ m n.
      volume-flat_map (λ k. tile_of m n k ∷ []) (m.len * n.len) (spans d.matrix_k d.tile_k)
        (λ k. omega arith)
      ∙ ap (λ x. m.len * n.len * x) k_len
      ∙ grind arith in
    let along_n : (m : Span) → volume (n_tiles d m) ≡ d.matrix_k * d.matrix_n * m.len = λ m.
      volume-flat_map (k_tiles d m) (m.len * d.matrix_k) (spans d.matrix_n d.tile_n) (along_k m)
      ∙ ap (λ x. m.len * d.matrix_k * x) n_len
      ∙ grind arith in
    volume-flat_map (n_tiles d) (d.matrix_k * d.matrix_n) (spans d.matrix_m d.tile_m) along_n
    ∙ ap (λ x. d.matrix_k * d.matrix_n * x) m_len
