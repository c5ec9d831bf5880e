-- ===== src/Npu/Controller/Gemm/Loop.antt =====
-- A loop of the plan on the NPU: what each span reaches, the loop reaches.
use maps.Prelude.{
  ℕ, zero, suc, ◌+◌, ◌<◌, ◌≤◌, ◌≡◌, Bool, refl, ap, ◌∙◌, subst, none, some, Option, List, [], ◌∷◌,
  ◌++◌, arith, inl, inr, lt→ltb, le→ltb, lt_or_le,
}
use mathlib.Core.List.{flat_map, append_assoc}
use maps.Npu.Controller.{run_plan, stop, tile_error}
use maps.Npu.Controller.Monad.{Npu}
use maps.Npu.Controller.Tile.{run_tile}
use maps.Npu.Schedule.{GemmTile}
use maps.Npu.Schedule.Spans.{Span, span_len, spans_from, spans}

-- A span of a loop.
pub record IsSpan (limit step : ℕ) (s : Span) : Type 0 where
  pub pos : 0 < s.len
  pub bounded : s.len ≤ step
  pub end : s.start + s.len ≤ limit

pub span_len-IsSpan :
    (limit step at : ℕ)
    → 0 < step
    → at < limit
    → IsSpan limit step (record { start = at; len = span_len limit step at })
span_len-IsSpan limit step at pos h = ground arith

-- A part of a plan takes the NPU from `s` to `s'`, whatever comes after it.
abbrev pub Runs : List GemmTile → Npu → Npu → Type 0
Runs part s s' = (rest : List GemmTile) → run_plan (part ++ rest) s ≡ run_plan rest s'

pub Runs-tile : (t : GemmTile) (s s' : Npu) → run_tile t s ≡ (s', some tt) → Runs (t ∷ []) s s'
unfolding run_plan
Runs-tile t s s' e rest = ap next_of e
  where
    next_of : Npu × Option (Unit {0}) → Npu × Bool
    next_of r = elim r.1 [
      | some _ ↦ run_plan rest r.0
      | none ↦ stop (tile_error r.0.controller.error) r.0
    ]

Runs-append :
    (first second : List GemmTile) (s s' s'' : Npu)
    → Runs first s s'
    → Runs second s' s''
    → Runs (first ++ second) s s''
Runs-append first second s s' s'' runs runs' rest =
    ap (λ l. run_plan l s) (append_assoc first second rest) ∙ runs (second ++ rest) ∙ runs' rest

spans_done : (fuel limit step at : ℕ) → limit ≤ at → spans_from fuel limit step at ≡ []
spans_done zero limit step at h = refl
spans_done (suc fuel) limit step at h = rw (le→ltb at limit h) refl

module _ (limit step : ℕ) (pos : 0 < step) (tiles : Span → List GemmTile)
    (Reached : ℕ → Npu → Type 0)
    (round : (span : Span) (s : Npu)
      → IsSpan limit step span
      → Reached span.start s
      → (s' : Npu) × Runs (tiles span) s s' × Reached (span.start + span.len) s') where
  loop_from :
      (fuel at : ℕ) (s : Npu)
      → at < limit
      → limit ≤ at + fuel
      → Reached at s
      → (s' : Npu) × Runs (flat_map tiles (spans_from fuel limit step at)) s s' × Reached limit s'
  unfolding flat_map
  loop_from zero at s h enough r = absurd (omega arith)
  loop_from (suc fuel) at s h enough r =
      let span : Span = record { start = at; len = span_len limit step at } in
      let (s1, runs1, r1) = round span s (span_len-IsSpan limit step at pos h) r in
      elim (lt_or_le (at + step) limit) [
        | inl more ↦
            let whole : at + span_len limit step at ≡ at + step = ground arith in
            let (s2, runs2, r2) =
              loop_from fuel (at + step) s1 more (omega arith)
                (subst (λ to. Reached to s1) whole r1) in
            (
              s2,
              rw (lt→ltb at limit h) (
                  Runs-append (tiles span) (flat_map tiles (spans_from fuel limit step (at + step)))
                    s s1 s2 runs1 runs2),
              r2,
            )
        | inr done ↦
            let whole : at + span_len limit step at ≡ limit = ground arith in
            (
              s1,
              rw (lt→ltb at limit h, spans_done fuel limit step (at + step) done)
                  (Runs-append (tiles span) [] s s1 s1 runs1 (λ rest. refl)),
              subst (λ to. Reached to s1) whole r1,
            )
      ]

  pub loop :
      (s : Npu)
      → 0 < limit
      → Reached 0 s
      → (s' : Npu) × Runs (flat_map tiles (spans limit step)) s s' × Reached limit s'
  loop s h r = loop_from limit 0 s h (omega arith) r
