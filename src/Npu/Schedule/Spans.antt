-- ===== src/Npu/Schedule/Spans.antt =====
-- One loop of the scheduler without machine words: the spans that cut `0 .. limit - 1` into steps.
use maps.Prelude.{
  ℕ, zero, suc, ◌+◌, ◌-◌, ◌<◌, ◌≤◌, ◌≡◌, ◌^◌, refl, ap, sym, ◌∙◌, some, Option, List, [], ◌∷◌, ◌++◌,
  arith, ltb, leb, if◌then◌else◌, u32, lt→ltb, le→ltb, lt_or_le, inl, inr,
}
use mathlib.Core.List.{flat_map, append_assoc, append-nil}
use maps.Npu.Schedule.{GemmTile, tile_len, tile_loop}

-- A span: where it starts and how long it is.
pub record Span : Type 0 where
  pub start : ℕ
  pub len : ℕ

-- The length without machine words: a whole step, or what is left.
abbrev pub span_len : ℕ → ℕ → ℕ → ℕ
span_len limit step at = if leb (at + step) limit then step else limit - at

-- The spans from `at` on; `fuel` bounds their number.
abbrev pub spans_from : ℕ → ℕ → ℕ → ℕ → List Span
spans_from zero limit step at = []
spans_from (suc fuel) limit step at =
    if ltb at limit
    then record { start = at; len = span_len limit step at }
      ∷ spans_from fuel limit step (at + step)
    else []

abbrev pub spans : ℕ → ℕ → List Span
spans limit step = spans_from limit limit step 0

pub tile_len-span_len :
    (limit step at : ℕ)
    → at < limit
    → limit < 2 ^ 31
    → step < 2 ^ 31
    → tile_len limit step at ≡ span_len limit step at
unfolding tile_len
tile_len-span_len limit step at h hl hs = ground arith

-- More fuel adds no span.
spans_fuel :
    (f g limit step at : ℕ)
    → 0 < step
    → limit ≤ at + f
    → limit ≤ at + g
    → spans_from f limit step at ≡ spans_from g limit step at
spans_fuel zero zero limit step at pos hf hg = refl
spans_fuel zero (suc g) limit step at pos hf hg = rw (le→ltb at limit (omega arith)) refl
spans_fuel (suc f) zero limit step at pos hf hg = rw (le→ltb at limit (omega arith)) refl
spans_fuel (suc f) (suc g) limit step at pos hf hg = elim (lt_or_le at limit) [
  | inl more ↦ rw (lt→ltb at limit more) (
      ap (λ r. record { start = at; len = span_len limit step at } ∷ r)
        (spans_fuel f g limit step (at + step) pos (omega arith) (omega arith)))
  | inr done ↦ rw (le→ltb at limit done) refl
]

module _ (body : ℕ → ℕ → List GemmTile → Option (List GemmTile)) (tiles : Span → List GemmTile)
    (appends : (at len : ℕ) (plan : List GemmTile)
      → body at len plan ≡ some (plan ++ tiles (record { start = at; len = len }))) where
  -- With fuel for every round, a loop whose body appends tiles ends and appends those of each span.
  tile_loop-spans_from :
      (fuel limit step at : ℕ) (plan : List GemmTile)
      → 0 < step
      → limit < 2 ^ 31
      → step < 2 ^ 31
      → limit - at < fuel
      → tile_loop fuel limit step body at plan
        ≡ some (plan ++ flat_map tiles (spans_from fuel limit step at))
  unfolding tile_loop flat_map
  tile_loop-spans_from zero limit step at plan pos hl hs hf = absurd (omega arith)
  tile_loop-spans_from (suc fuel) limit step at plan pos hl hs hf = elim (lt_or_le at limit) [
    | inl more ↦
        let here = tiles (record { start = at; len = span_len limit step at }) in
        let next : u32 (at + step) ≡ at + step = omega arith in
        let runs : body at (tile_len limit step at) plan ≡ some (plan ++ here) =
          ap (λ l. body at l plan) (tile_len-span_len limit step at more hl hs)
          ∙ appends at (span_len limit step at) plan in
        rw (lt→ltb at limit more, runs, next, tile_loop)
          (tile_loop-spans_from fuel limit step (at + step) (plan ++ here) pos hl hs (omega arith)
            ∙ ap some
                (append_assoc plan here (flat_map tiles (spans_from fuel limit step (at + step)))))
    | inr done ↦ rw (le→ltb at limit done, tile_loop) (ap some (sym (append-nil plan)))
  ]

  pub tile_loop-spans :
      (fuel limit step : ℕ) (plan : List GemmTile)
      → 0 < step
      → limit < 2 ^ 31
      → step < 2 ^ 31
      → limit < fuel
      → tile_loop fuel limit step body 0 plan ≡ some (plan ++ flat_map tiles (spans limit step))
  tile_loop-spans fuel limit step plan pos hl hs hf =
      tile_loop-spans_from fuel limit step 0 plan pos hl hs (omega arith)
      ∙ ap (λ s. some (plan ++ flat_map tiles s))
          (spans_fuel fuel limit limit step 0 pos (omega arith) (omega arith))
