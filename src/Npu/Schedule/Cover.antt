-- ===== src/Npu/Schedule/Cover.antt =====
-- The tiles of a plan cut the iteration space into pieces: each place (i, j, k) lies in exactly one.
use maps.Prelude.{
  ℕ, zero, suc, ◌+◌, ◌*◌, ◌<◌, ◌≤◌, ◌≡◌, ap₂, ◌∙◌, Bool, true, false, ◌&&◌, some, List, [], ◌∷◌,
  ◌++◌, arith, ltb, leb, if◌then◌else◌, lt→ltb, le→ltb, lt_or_le, inl, inr,
}
use mathlib.Core.List.{flat_map}
use maps.Npu.Descriptor.{Descriptor, validate}
use maps.Npu.Schedule.{GemmTile, build_plan}
use maps.Npu.Schedule.Spans.{Span, spans_from, spans}
use maps.Npu.Schedule.Plan.{
  tile_of, k_tiles, n_tiles, plan_of, IsSmall, IsPositive, validate-IsPositive, build_plan-plan_of,
}

-- The tile works on the product of A(i, k) and B(k, j).
abbrev pub within : ℕ → ℕ → ℕ → Bool
within start len i = leb start i && ltb i (start + len)

abbrev pub covers : ℕ → ℕ → ℕ → GemmTile → Bool
covers i j k t = within t.m0 t.m_len i && within t.n0 t.n_len j && within t.k0 t.k_len k

abbrev pub count_covering : ℕ → ℕ → ℕ → List GemmTile → ℕ
count_covering i j k [] = 0
count_covering i j k (t ∷ ts) = (if covers i j k t then 1 else 0) + count_covering i j k ts

abbrev count_spans : ℕ → List Span → ℕ
count_spans i [] = 0
count_spans i (s ∷ ss) = (if within s.start s.len i then 1 else 0) + count_spans i ss

count_covering-append :
    (i j k : ℕ) (xs ys : List GemmTile)
    → count_covering i j k (xs ++ ys) ≡ count_covering i j k xs + count_covering i j k ys
count_covering-append i j k [] ys = omega arith
count_covering-append i j k (x ∷ xs) ys = omega (arith, count_covering-append i j k xs ys)

-- A loop's spans hold each index from `at` to the limit once, and no other.
count_spans_from :
    (fuel limit step at i : ℕ)
    → 0 < step
    → limit ≤ at + fuel
    → count_spans i (spans_from fuel limit step at) ≡ (if leb at i && ltb i limit then 1 else 0)
count_spans_from zero limit step at i pos h = ground arith
count_spans_from (suc fuel) limit step at i pos h = elim (lt_or_le at limit) [
  | inl more ↦
      rw (lt→ltb at limit more)
        (ground (arith, count_spans_from fuel limit step (at + step) i pos (omega arith)))
  | inr done ↦ rw (le→ltb at limit done) (ground arith)
]

distribute :
    (outer inner : Bool) (x y : ℕ)
    → (if outer && inner then x else 0) + (if outer then y * x else 0)
      ≡ (if outer then ((if inner then 1 else 0) + y) * x else 0)
distribute true true x y = omega arith
distribute true false x y = omega arith
distribute false inner x y = omega arith

module _ (d : Descriptor) (i j k : ℕ) where
  count-k_tiles :
      (m n : Span) (ss : List Span)
      → count_covering i j k (flat_map (λ s. tile_of m n s ∷ []) ss)
        ≡ (if within m.start m.len i && within n.start n.len j then count_spans k ss else 0)
  unfolding flat_map
  count-k_tiles m n [] = ground arith
  count-k_tiles m n (s ∷ ss) = ground (arith, count-k_tiles m n ss)

  count-n_tiles :
      (m : Span) (ss : List Span)
      → count_covering i j k (flat_map (k_tiles d m) ss) ≡ (
          if within m.start m.len i
          then count_spans j ss * count_spans k (spans d.matrix_k d.tile_k)
          else 0)
  unfolding flat_map
  count-n_tiles m [] = ground arith
  count-n_tiles m (s ∷ ss) =
      count_covering-append i j k (k_tiles d m s) (flat_map (k_tiles d m) ss)
      ∙ ap₂ ◌+◌ (count-k_tiles m s (spans d.matrix_k d.tile_k)) (count-n_tiles m ss)
      ∙ distribute (within m.start m.len i) (within s.start s.len j)
          (count_spans k (spans d.matrix_k d.tile_k)) (count_spans j ss)

  count-m_tiles :
      (ss : List Span)
      → count_covering i j k (flat_map (n_tiles d) ss)
        ≡ count_spans i ss
          * (count_spans j (spans d.matrix_n d.tile_n) * count_spans k (spans d.matrix_k d.tile_k))
  unfolding flat_map
  count-m_tiles [] = omega arith
  count-m_tiles (s ∷ ss) =
      count_covering-append i j k (n_tiles d s) (flat_map (n_tiles d) ss)
      ∙ ap₂ ◌+◌ (count-n_tiles s (spans d.matrix_n d.tile_n)) (count-m_tiles ss)
      ∙ distribute true (within s.start s.len i) _ (count_spans i ss)

  count-plan_of :
      IsPositive d
      → count_covering i j k (plan_of d)
        ≡ (if ltb i d.matrix_m && ltb j d.matrix_n && ltb k d.matrix_k then 1 else 0)
  count-plan_of pos =
      count-m_tiles (spans d.matrix_m d.tile_m)
      ∙ ap₂ ◌*◌ (count_spans_from d.matrix_m d.matrix_m d.tile_m 0 i pos.tile_m_pos (omega arith)) (
          ap₂ ◌*◌ (count_spans_from d.matrix_n d.matrix_n d.tile_n 0 j pos.tile_n_pos (omega arith))
            (count_spans_from d.matrix_k d.matrix_k d.tile_k 0 k pos.tile_k_pos (omega arith)))
      ∙ ground arith

-- The plan of a valid descriptor with dimensions below 2 ^ 31 exists, and its tiles hold each
-- product A(i, k) * B(k, j) of the GEMM exactly once and nothing outside the matrices.
pub build_plan_covers :
    (d : Descriptor)
    → validate d ≡ true
    → IsSmall d
    → (plan : List GemmTile) × (build_plan d ≡ some (plan, true))
      × ((i j k : ℕ)
          → count_covering i j k plan
            ≡ (if ltb i d.matrix_m && ltb j d.matrix_n && ltb k d.matrix_k then 1 else 0))
build_plan_covers d valid small = (
  plan_of d,
  build_plan-plan_of d valid small,
  λ i j k. count-plan_of d i j k (validate-IsPositive d valid),
)
