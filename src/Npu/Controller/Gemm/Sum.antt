-- ===== src/Npu/Controller/Gemm/Sum.antt =====
-- The tiles of one place of C, in the order of the plan: each adds its part of the sum.
use maps.Prelude.{
  ℕ, ◌+◌, ◌*◌, ◌-◌, ◌%◌, ◌<◌, ◌≤◌, ◌≡◌, ◌≢◌, ◌^◌, ◌==◌, refl, ap₂, ◌∙◌, sym, subst, true, false,
  List, [], ◌∷◌, length, get_or, arith, if◌then◌else◌,
}
use maps.Npu.Array.{dims_fit}
use maps.Npu.Array.Dot.{dot, sum_products_congr}
use maps.Npu.Config.{Dataflow, os, ws, is, other, buffer_sizes}
use maps.Npu.Controller.Gemm.Loop.{IsSpan, Runs, Runs-tile, loop}
use maps.Npu.Controller.Gemm.Region.{HasProduct, a_at, b_at, product_at, dot_split, IsKept, IsApart}
use maps.Npu.Controller.Monad.{Npu}
use maps.Npu.Controller.Tile.Correct.{run_tile-HasTile, after}
use maps.Npu.Controller.Tile.Layout.{IsLayout, IsTile, a_place, b_place, c_place}
use maps.Npu.Controller.Tile.Move.{IsReadyNpu}
use maps.Npu.Descriptor.{Descriptor, tile_fits}
use maps.Npu.Descriptor.Roundtrip.{validate-fits}
use maps.Npu.Schedule.Plan.{tile_of, k_tiles, validate-IsPositive}
use maps.Npu.Schedule.Spans.{Span}

-- The tiles fit the buffers.
pub record IsBuffered (d : Descriptor) : Type 0 where
  pub a_buffered : d.tile_m * d.tile_k ≤ buffer_sizes
  pub b_buffered : d.tile_k * d.tile_n ≤ buffer_sizes
  pub c_buffered : d.tile_m * d.tile_n ≤ buffer_sizes

mul_mono : (a b m n : ℕ) → a ≤ m → b ≤ n → a * b ≤ m * n
mul_mono a b m n h k = grind arith

-- A smaller tile fits too.
dims_fit_mono :
    (mode : Dataflow) (m n k tm tn tk : ℕ)
    → tile_fits mode tm tn tk ≡ true
    → m ≤ tm
    → n ≤ tn
    → k ≤ tk
    → dims_fit mode m n k ≡ true
unfolding tile_fits dims_fit
dims_fit_mono os m n k tm tn tk h hm hn hk = ground arith
dims_fit_mono ws m n k tm tn tk h hm hn hk = ground arith
dims_fit_mono is m n k tm tn tk h hm hn hk = ground arith
dims_fit_mono (other x) m n k tm tn tk h hm hn hk = cc

module _ (d : Descriptor) (old : List ℕ) (layout : IsLayout d (length old))
    (buffered : IsBuffered d) (apart : IsApart d old) where
  tile_of-IsTile :
      (m n k : Span)
      → IsSpan d.matrix_m d.tile_m m
      → IsSpan d.matrix_n d.tile_n n
      → IsSpan d.matrix_k d.tile_k k
      → IsTile d (tile_of m n k)
  tile_of-IsTile m n k hm hn hk = record {
    m_pos = hm.pos;
    n_pos = hn.pos;
    k_pos = hk.pos;
    m_end = hm.end;
    n_end = hn.end;
    k_end = hk.end;
    fits =
        dims_fit_mono d.mode m.len n.len k.len d.tile_m d.tile_n d.tile_k
          (validate-fits d layout.valid) hm.bounded hn.bounded hk.bounded;
    a_fits =
        omega (
          arith,
          mul_mono m.len k.len d.tile_m d.tile_k hm.bounded hk.bounded,
          buffered.a_buffered,
        );
    b_fits =
        omega (
          arith,
          mul_mono k.len n.len d.tile_k d.tile_n hk.bounded hn.bounded,
          buffered.b_buffered,
        );
    c_fits =
        omega (
          arith,
          mul_mono m.len n.len d.tile_m d.tile_n hm.bounded hn.bounded,
          buffered.c_buffered,
        );
  }

  -- The NPU between two tiles.
  pub record IsBetween (s : Npu) : Type 0 where
    pub ready : IsReadyNpu s
    pub desc : s.controller.current_desc ≡ d
    pub kept : IsKept d old s.memory.words

  -- The element of C, as the first tile of a sum at `at` takes it.
  abbrev pub sum_at : ℕ → Npu → ℕ → ℕ → ℕ
  sum_at at s i j = if at == 0 then 0 else get_or s.memory.words (c_place d i j) 0

  -- The first `at` products of the sum at (i, j).
  abbrev pub part_at : ℕ → ℕ → ℕ → ℕ
  part_at at i j = dot (a_at d old i) (λ k. b_at d old k j) 0 at

  abbrev pub InBlock : Span → Span → ℕ → ℕ → Type 0
  InBlock m n i j = (m.start ≤ i) × (i < m.start + m.len) × (n.start ≤ j) × (j < n.start + n.len)

  module _ (m n : Span) (hm : IsSpan d.matrix_m d.tile_m m)
      (hn : IsSpan d.matrix_n d.tile_n n) where
    -- What the tiles of one place leave behind, from `s0` on, after `upto` products of each sum.
    pub record HasSum (s0 : Npu) (upto : ℕ) (s : Npu) : Type 0 where
      pub between : IsBetween s
      pub sums : (i j : ℕ) → InBlock m n i j → sum_at upto s i j ≡ part_at upto i j
      pub outside :
          (x : ℕ)
          → ((i j : ℕ) → InBlock m n i j → x ≢ c_place d i j)
          → get_or s.memory.words x 0 ≡ get_or s0.memory.words x 0

    in_block : (i j : ℕ) → i < m.len → j < n.len → InBlock m n (m.start + i) (n.start + j)
    in_block i j hi hj = omega arith

    -- The tile's sum is the next part of the whole one.
    next_part :
        (k : Span) (s : Npu)
        → IsSpan d.matrix_k d.tile_k k
        → IsKept d old s.memory.words
        → (i j : ℕ) → i < m.len
        → j < n.len
        → sum_at k.start s (m.start + i) (n.start + j) ≡ part_at k.start (m.start + i) (n.start + j)
        → after d (tile_of m n k) s.memory.words i j
          ≡ part_at (k.start + k.len) (m.start + i) (n.start + j)
    next_part k s hk kept i j hi hj sum =
        ap₂ (λ x y. (x + y) % 2 ^ 32) sum
          (sum_products_congr _ _ _ _ k.len
            (λ q hq. kept.outside (a_place d (m.start + i) (k.start + q)) (λ i' j' hi' hj'.
              apart.a_apart (m.start + i) (k.start + q) i' j' (omega (arith, hm.end))
                (omega (arith, hk.end)) hi' hj'))
            (λ q hq. kept.outside (b_place d (k.start + q) (n.start + j)) (λ i' j' hi' hj'.
              apart.b_apart (k.start + q) (n.start + j) i' j' (omega (arith, hk.end))
                (omega (arith, hn.end)) hi' hj')))
        ∙ dot_split (a_at d old (m.start + i)) (λ q. b_at d old q (n.start + j)) k.start k.len

    from_start :
        (value value' : ℕ → ℕ → ℕ)
        → ((i j : ℕ)
            → i < m.len
            → j < n.len
            → value (m.start + i) (n.start + j) ≡ value' (m.start + i) (n.start + j))
        → (i j : ℕ) → InBlock m n i j
        → value i j ≡ value' i j
    from_start value value' h i j (a, b, c, e) =
        let ei : m.start + (i - m.start) ≡ i = omega arith in
        let ej : n.start + (j - n.start) ≡ j = omega arith in
        subst (λ i. value i j ≡ value' i j) ei
          (subst (λ j. value (m.start + (i - m.start)) j ≡ value' (m.start + (i - m.start)) j) ej
            (h (i - m.start) (j - n.start) (omega arith) (omega arith)))

    tile-HasSum :
        (s0 : Npu) (k : Span) (s : Npu)
        → IsSpan d.matrix_k d.tile_k k
        → HasSum s0 k.start s
        → (s' : Npu) × Runs (tile_of m n k ∷ []) s s' × HasSum s0 (k.start + k.len) s'
    tile-HasSum s0 k s hk h =
        let t = tile_of m n k in
        let b = h.between in
        let (s', runs, ready, desc, has) =
          run_tile-HasTile d (length old) layout t (tile_of-IsTile m n k hm hn hk) s b.ready b.desc
            b.kept.same_size
            (λ i j hi hj.
              rw (h.sums (m.start + i) (n.start + j) (in_block i j hi hj)) (omega arith)) in
        let later : (k.start + k.len == 0) ≡ false = ground (arith, hk.pos) in
        (
          s',
          Runs-tile t s s' runs,
          record {
            between = record {
              ready = ready;
              desc = desc;
              kept = record {
                same_size = has.same_size ∙ b.kept.same_size;
                outside = λ x out.
                    has.outside x (λ i j hi hj.
                      out (m.start + i) (n.start + j) (omega (arith, hm.end))
                        (omega (arith, hn.end)))
                    ∙ b.kept.outside x out;
              };
            };
            sums =
                from_start (sum_at (k.start + k.len) s') (part_at (k.start + k.len)) (λ i j hi hj.
                  rw later (
                    has.inside i j hi hj
                    ∙ next_part k s hk b.kept i j hi hj
                        (h.sums (m.start + i) (n.start + j) (in_block i j hi hj))));
            outside = λ x out.
                has.outside x (λ i j hi hj. out (m.start + i) (n.start + j) (in_block i j hi hj))
                ∙ h.outside x out;
          },
        )

    -- The tiles of one place leave the product there.
    pub k_tiles-HasProduct :
        (s : Npu)
        → IsBetween s
        → (s' : Npu) × Runs (k_tiles d m n) s s'
          × IsBetween s'
          × HasProduct d old (InBlock m n) s.memory.words s'.memory.words
    k_tiles-HasProduct s between =
        let pos = validate-IsPositive d layout.valid in
        let (s', runs, h) =
          loop d.matrix_k d.tile_k pos.tile_k_pos (λ k. tile_of m n k ∷ []) (HasSum s)
            (λ k s1 hk r. tile-HasSum s k s1 hk r) s pos.k_pos
            (record { between = between; sums = λ i j b. refl; outside = λ x out. refl }) in
        let later : (d.matrix_k == 0) ≡ false = ground (arith, pos.k_pos) in
        (
          s',
          runs,
          h.between,
          record {
            same_size = h.between.kept.same_size ∙ sym between.kept.same_size;
            inside = λ i j b.
                subst
                  (λ first.
                    (if first then 0 else get_or s'.memory.words (c_place d i j) 0)
                    ≡ product_at d old i j)
                  later (h.sums i j b);
            outside = h.outside;
          },
        )
