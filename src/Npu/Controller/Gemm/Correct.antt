-- ===== src/Npu/Controller/Gemm/Correct.antt =====
-- `Controller::run` as a whole: the plan, tile by tile, and the matrices in DRAM after it.
use maps.Prelude.{
  ℕ, ◌+◌, ◌<◌, ◌≤◌, ◌≡◌, refl, ap, ◌∙◌, sym, true, false, some, List, [], length, arith, inl, inr,
  is_null, lt_or_le,
}
use mathlib.Core.List.{append-nil}
use maps.Npu.Array
use maps.Npu.Controller.{run, run_plan, scheduled, check_matrix_range}
use maps.Npu.Controller.Gemm.Loop.{IsSpan, Runs, loop}
use maps.Npu.Controller.Gemm.Range.{IsAddressed, check_matrix_range-IsLayout}
use maps.Npu.Controller.Gemm.Region.{HasProduct, HasProduct_join, IsApart}
use maps.Npu.Controller.Gemm.Sum.{IsBuffered, IsBetween, InBlock, k_tiles-HasProduct}
use maps.Npu.Controller.Monad.{Npu}
use maps.Npu.Controller.Tile.Layout.{IsLayout}
use maps.Npu.Controller.Tile.Move.{IsReadyNpu}
use maps.Npu.Descriptor.{Descriptor, validate}
use maps.Npu.Schedule.{GemmTile}
use maps.Npu.Schedule.Plan.{
  IsSmall, build_plan-plan_of, validate-IsPositive, k_tiles, n_tiles, plan_of,
}
use maps.Npu.Schedule.Spans.{Span}
use maps.Npu.Status.{NpuState, NpuError}

module _ (d : Descriptor) (old : List ℕ) (layout : IsLayout d (length old))
    (buffered : IsBuffered d) (apart : IsApart d old) where
  -- The rows of a span, up to a column.
  abbrev Columns : Span → ℕ → ℕ → ℕ → Type 0
  Columns m upto i j = (m.start ≤ i) × (i < m.start + m.len) × (j < upto)

  abbrev Rows : ℕ → ℕ → ℕ → Type 0
  Rows upto i j = (i < upto) × (j < d.matrix_n)

  -- The region holds the product, and the NPU is ready for the next tile.
  record Reached (region : ℕ → ℕ → Type 0) (s0 s : Npu) : Type 0 where
    between : IsBetween d old layout buffered apart s
    product : HasProduct d old region s0.memory.words s.memory.words

  nothing :
      (region : ℕ → ℕ → Type 0) (s : Npu)
      → IsBetween d old layout buffered apart s
      → ((i j : ℕ) → region i j → ⊥)
      → Reached region s s
  nothing region s h none_in = record {
    between = h;
    product = record {
      same_size = refl;
      inside = λ i j r. absurd (none_in i j r);
      outside = λ x out. refl;
    };
  }

  n_tiles-Reached :
      (m : Span) (s : Npu)
      → IsSpan d.matrix_m d.tile_m m
      → IsBetween d old layout buffered apart s
      → (s' : Npu) × Runs (n_tiles d m) s s' × Reached (Columns m d.matrix_n) s s'
  n_tiles-Reached m s0 hm h =
      let pos = validate-IsPositive d layout.valid in
      loop d.matrix_n d.tile_n pos.tile_n_pos (k_tiles d m) (λ at s. Reached (Columns m at) s0 s)
        (λ n s hn r.
          (let (s', runs, between, more) =
              k_tiles-HasProduct d old layout buffered apart m n hm hn s r.between in
            (
              s',
              runs,
              record {
                between = between;
                product =
                    HasProduct_join d old (Columns m n.start)
                      (InBlock d old layout buffered apart m n) (Columns m (n.start + n.len))
                      s0.memory.words s.memory.words s'.memory.words r.product more
                      (λ i j (a, b, c). elim (lt_or_le j n.start) [
                        | inl p ↦ inl (a, b, p)
                        | inr p ↦ inr (a, b, p, c)
                      ])
                      (λ i j c. omega arith) (λ i j c. omega arith) (λ i j c. omega (arith, hn.end))
                      (λ i j c c'. omega arith);
              },
            )))
        s0 pos.n_pos (nothing (Columns m 0) s0 h (λ i j r. omega arith))

  plan_of-Reached :
      (s : Npu)
      → IsBetween d old layout buffered apart s
      → (s' : Npu) × Runs (plan_of d) s s' × Reached (Rows d.matrix_m) s s'
  plan_of-Reached s0 h =
      let pos = validate-IsPositive d layout.valid in
      loop d.matrix_m d.tile_m pos.tile_m_pos (n_tiles d) (λ at s. Reached (Rows at) s0 s)
        (λ m s hm r.
          (let (s', runs, more) = n_tiles-Reached m s hm r.between in
            (
              s',
              runs,
              record {
                between = more.between;
                product =
                    HasProduct_join d old (Rows m.start) (Columns m d.matrix_n)
                      (Rows (m.start + m.len)) s0.memory.words s.memory.words s'.memory.words
                      r.product more.product
                      (λ i j (a, b). elim (lt_or_le i m.start) [
                        | inl p ↦ inl (p, b)
                        | inr p ↦ inr (p, a, b)
                      ])
                      (λ i j c. omega arith) (λ i j c. omega arith) (λ i j c. omega arith)
                      (λ i j c c'. omega arith);
              },
            )))
        s0 pos.m_pos (nothing (Rows 0) s0 h (λ i j r. omega arith))

-- The NPU as `run` hands it to the tiles.
abbrev scheduled_npu : Npu → List GemmTile → Npu
scheduled_npu s plan = record s {
  controller = record (s.controller) {
    state = NpuState.busy;
    error = NpuError.no_error;
    plan = plan;
    array = Array.reset s.controller.array;
  };
}

run-run_plan :
    (s : Npu)
    → is_null s.controller.memory ≡ false
    → IsSmall s.controller.current_desc
    → validate s.controller.current_desc ≡ true
    → check_matrix_range s.controller s.memory ≡ true
    → run s
      ≡ some (let plan = plan_of s.controller.current_desc in run_plan plan (scheduled_npu s plan))
unfolding run scheduled
run-run_plan s bound_to small valid fits =
    rw (valid, fits, bound_to, build_plan-plan_of s.controller.current_desc valid small) refl

-- The elements of C.
abbrev pub InC : Descriptor → ℕ → ℕ → Type 0
InC d i j = (i < d.matrix_m) × (j < d.matrix_n)

-- A run that passes the checks of `run`, on tiles that fit the buffers and with C apart from A and B,
-- succeeds: it ends in the state DONE, C in DRAM is the product of A and B modulo 2 ^ 32, element by
-- element, and every other word of the memory is as before.
pub run-IsProduct :
    (s : Npu)
    → IsReadyNpu s
    → is_null s.controller.memory ≡ false
    → IsSmall s.controller.current_desc
    → IsAddressed s.controller.current_desc
    → validate s.controller.current_desc ≡ true
    → check_matrix_range s.controller s.memory ≡ true
    → IsBuffered s.controller.current_desc
    → IsApart s.controller.current_desc s.memory.words
    → (s' : Npu) × (run s ≡ some (s', true))
      × (s'.controller.state ≡ NpuState.done)
      × HasProduct s.controller.current_desc s.memory.words
          (InC s.controller.current_desc)
          s.memory.words
          s'.memory.words
unfolding run_plan
run-IsProduct s ready bound_to small addressed valid fits buffered apart =
    let d = s.controller.current_desc in
    let plan = plan_of d in
    let layout =
      check_matrix_range-IsLayout s bound_to small addressed valid ready.memory_small fits in
    let s0 = scheduled_npu s plan in
    let (s', runs, reached) = plan_of-Reached d s.memory.words layout buffered apart s0 (record {
      ready = record {
        not_busy = ready.not_busy;
        memory_bound = ready.memory_bound;
        size_known = ready.size_known;
        memory_small = ready.memory_small;
        input_size = ready.input_size;
        weight_size = ready.weight_size;
        output_size = ready.output_size;
      };
      desc = refl;
      kept = record { same_size = refl; outside = λ x out. refl };
    }) in
    (
      (run_plan [] s').0,
      run-run_plan s bound_to small valid fits
          ∙ ap some (ap (λ l. run_plan l s0) (sym (append-nil plan)) ∙ runs []),
      refl,
      reached.product,
    )
