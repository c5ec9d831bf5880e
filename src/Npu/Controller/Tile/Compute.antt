-- ===== src/Npu/Controller/Tile/Compute.antt =====
-- `compute_tile`: the output buffer holds the product of the tiles in the other two.
use maps.Prelude.{
  ℕ, ◌+◌, ◌*◌, ◌%◌, ◌<◌, ◌≤◌, ◌≡◌, ◌^◌, ◌==◌, refl, ap, ap₂, ◌∙◌, none, some, Option, List, length,
  arith, Bool-cases, inl, inr, take, drop, replicate, u32, length-take, length-append,
  length-replicate,
}
use maps.Npu.Array.{run_gemm_tile}
use maps.Npu.Array.Dot.{dot, sum_products_congr}
use maps.Npu.Array.Gemm.{run_gemm_tile-IsProduct, IsShape, start_at, gemm_at}
use maps.Npu.Array.Tile.{tile_at, place-lt}
use maps.Npu.Buffer.{Buffer}
use maps.Npu.Controller.Monad.{Npu, M, ◌>>=◌, pure}
use maps.Npu.Controller.Tile.{dumped, c_in_tile, compute, fill_output, compute_tile}
use maps.Npu.Controller.Tile.Layout.{IsTile}
use maps.Npu.Controller.Tile.Move.{IsReadyNpu, bind_ok}
use maps.Npu.Descriptor.{Descriptor}
use maps.Npu.Dma.{weight, input, output}
use maps.Npu.Schedule.{GemmTile}
use maps.Npu.Controller.Tile.Filled.{
  get_or-take_append, length-drop, dump_of, read_buffer, dumped_lem, tile_at-dump_of, compute_lem,
  fill_output_lem, le_mul, mul_comm, start, with_output, put_buffer, computed,
}

module _ (d : Descriptor) (t : GemmTile) (ok : IsTile d t) where
  a_len : u32 (t.m_len * t.k_len) ≡ t.m_len * t.k_len
  a_len = omega (arith, ok.a_fits)

  b_len : u32 (t.k_len * t.n_len) ≡ t.k_len * t.n_len
  b_len = omega (arith, ok.b_fits)

  c_len : u32 (t.m_len * t.n_len) ≡ t.m_len * t.n_len
  c_len = omega (arith, ok.c_fits)

  c_in_tile_lem :
      (s : Npu)
      → IsReadyNpu s
      → (o : Buffer) × (c_in : Option (List ℕ)) × (c_in_tile t s ≡ (with_output s o, some c_in))
        × (o.words ≡ s.controller.output_buffer.words)
        × ((i j : ℕ) → i < t.m_len → j < t.n_len → start_at c_in t.n_len i j ≡ start t s i j)
  unfolding c_in_tile
  c_in_tile_lem s ready = elim (Bool-cases (t.k0 == 0)) [
    | inl first ↦ (
      s.controller.output_buffer,
      none,
      rw (first, c_in_tile) refl,
      refl,
      λ i j hi hj. rw first refl,
    )
    | inr later ↦
        let len = u32 (t.m_len * t.n_len) in
        let words = s.controller.output_buffer.words in
        let room : len ≤ length words = omega (arith, c_len, ok.c_fits, ready.output_size) in
        (
          read_buffer s.controller.output_buffer len,
          some (dump_of words len),
          rw (later, c_in_tile)
              (bind_ok (dumped output len) (λ c_in. pure (some c_in)) s
                (dumped_lem output len s room)),
          refl,
          λ i j hi hj. rw later (tile_at-dump_of t.m_len t.n_len len words i j c_len room hi hj),
        )
  ]

  shape : IsShape t.m_len t.n_len t.k_len
  shape = record {
    m_pos = ok.m_pos;
    n_pos = ok.n_pos;
    k_pos = ok.k_pos;
    a_small = omega (arith, ok.a_fits);
    b_small = omega (arith, ok.b_fits);
    c_small = omega (arith, ok.c_fits);
    cycles_small = omega (
      arith,
      le_mul t.m_len t.k_len ok.k_pos,
      le_mul t.k_len t.n_len ok.n_pos,
      le_mul t.n_len t.m_len ok.m_pos,
      ok.a_fits,
      ok.b_fits,
      mul_comm t.n_len t.m_len,
      ok.c_fits,
    );
  }

  -- A state with the same engine, memory and descriptor, ready for the next transfer, whose output
  -- buffer holds `value`.
  pub record Keeps (s s' : Npu) (value : ℕ → ℕ → ℕ) : Type 0 where
    pub ready : IsReadyNpu s'
    pub engine_kept : s'.controller.dma ≡ s.controller.dma
    pub memory_kept : s'.memory ≡ s.memory
    pub desc_kept : s'.controller.current_desc ≡ s.controller.current_desc
    pub cells :
        (i j : ℕ)
        → i < t.m_len
        → j < t.n_len
        → tile_at t.n_len s'.controller.output_buffer.words i j ≡ value i j

  -- The array and the output buffer.
  abbrev multiply : List ℕ → List ℕ → Option (List ℕ) → M (Unit {0})
  multiply a b c_in = do c_out ← compute d t a b c_in; fill_output c_out (u32 (t.m_len * t.n_len))

  multiply_lem :
      (a b : List ℕ) (c_in : Option (List ℕ)) (s : Npu)
      → IsReadyNpu s
      → ((i j : ℕ) → i < t.m_len → j < t.n_len → start_at c_in t.n_len i j < 2 ^ 32)
      → (s' : Npu) × (multiply a b c_in s ≡ (s', some tt))
        × Keeps s s' (gemm_at a b c_in t.n_len t.k_len)
  multiply_lem a b c_in s ready fits =
      let lc = u32 (t.m_len * t.n_len) in
      let blank : List ℕ = replicate lc 0 in
      let (done, cycles, (out, is_out, room_out, cells)) =
        run_gemm_tile-IsProduct d.mode a b c_in t.m_len t.n_len t.k_len blank s.controller.array
          shape ok.fits (omega (arith, length-replicate {A = ℕ} lc 0, c_len)) fits in
      let r =
        run_gemm_tile d.mode (some a) (some b) c_in t.m_len t.n_len t.k_len (some blank)
          s.controller.array in
      let s4 = computed r t s in
      let runs_r : compute d t a b c_in s ≡ (s4, some (some out)) =
        compute_lem d t a b c_in s done ∙ ap (λ x. (s4, some x)) is_out in
      let room_o : lc ≤ length s.controller.output_buffer.words =
        omega (arith, c_len, ok.c_fits, ready.output_size) in
      let (f, runs_f, words_f) = fill_output_lem out lc s4 room_o in
      let rest : List ℕ = drop lc (replicate (length s.controller.output_buffer.words) 0) in
      let room : lc ≤ length out = omega (arith, c_len, room_out) in
      let room_rest : lc ≤ length (replicate {A = ℕ} (length s.controller.output_buffer.words) 0) =
        omega
          (arith, length-replicate {A = ℕ} (length s.controller.output_buffer.words) 0, room_o) in
      (
        with_output s4 f,
        bind_ok (compute d t a b c_in) (λ c_out. fill_output c_out lc) s runs_r ∙ runs_f,
        record {
          ready = record {
            not_busy = ready.not_busy;
            memory_bound = ready.memory_bound;
            size_known = ready.size_known;
            memory_small = ready.memory_small;
            input_size = ready.input_size;
            weight_size = ready.weight_size;
            output_size = omega (
              arith,
              ap length words_f,
              length-append (take lc out) rest,
              length-take lc out room,
              length-drop lc (replicate (length s.controller.output_buffer.words) 0) room_rest,
              length-replicate {A = ℕ} (length s.controller.output_buffer.words) 0,
              ready.output_size,
            );
          };
          engine_kept = refl;
          memory_kept = refl;
          desc_kept = refl;
          cells = λ i j hi hj.
              ap (λ w. tile_at t.n_len w i j) words_f
              ∙ get_or-take_append out rest lc (i * t.n_len + j) room
                  (omega (arith, place-lt t.m_len t.n_len i j hi hj, c_len))
              ∙ cells i j hi hj;
        },
      )

  abbrev after_b : List ℕ → List ℕ → M (Unit {0})
  after_b a b = do c_in ← c_in_tile t; multiply a b c_in

  abbrev after_a : List ℕ → M (Unit {0})
  after_a a = do b ← dumped weight (u32 (t.k_len * t.n_len)); after_b a b

  -- `compute_tile` succeeds, keeps the memory and the engine, and leaves in the output buffer the
  -- sums that start with what the output buffer held, or with 0 at the first tile of a sum.
  pub compute_tile_lem :
      (s : Npu)
      → IsReadyNpu s
      → ((i j : ℕ) → i < t.m_len → j < t.n_len → start t s i j < 2 ^ 32)
      → (s' : Npu) × (compute_tile d t s ≡ (s', some tt))
        × Keeps s s' (λ i j.
          dot
            (λ k. tile_at t.k_len s.controller.input_buffer.words i k)
            (λ k. tile_at t.n_len s.controller.weight_buffer.words k j)
            (start t s i j)
            t.k_len)
  unfolding compute_tile
  compute_tile_lem s ready fits =
      let la = u32 (t.m_len * t.k_len) in
      let lb = u32 (t.k_len * t.n_len) in
      let wa = s.controller.input_buffer.words in
      let wb = s.controller.weight_buffer.words in
      let room_a : la ≤ length wa = omega (arith, a_len, ok.a_fits, ready.input_size) in
      let room_b : lb ≤ length wb = omega (arith, b_len, ok.b_fits, ready.weight_size) in
      let a = dump_of wa la in
      let b = dump_of wb lb in
      let s1 = put_buffer input (read_buffer s.controller.input_buffer la) s in
      let s2 = put_buffer weight (read_buffer s.controller.weight_buffer lb) s1 in
      let ready2 : IsReadyNpu s2 = record {
        not_busy = ready.not_busy;
        memory_bound = ready.memory_bound;
        size_known = ready.size_known;
        memory_small = ready.memory_small;
        input_size = ready.input_size;
        weight_size = ready.weight_size;
        output_size = ready.output_size;
      } in
      let (o, c_in, runs_c, words_c, starts) = c_in_tile_lem s2 ready2 in
      let s3 = with_output s2 o in
      let ready3 : IsReadyNpu s3 = record {
        not_busy = ready.not_busy;
        memory_bound = ready.memory_bound;
        size_known = ready.size_known;
        memory_small = ready.memory_small;
        input_size = ready.input_size;
        weight_size = ready.weight_size;
        output_size = ap length words_c ∙ ready.output_size;
      } in
      let (s', runs, kept) =
        multiply_lem a b c_in s3 ready3 (λ i j hi hj. rw (starts i j hi hj) (fits i j hi hj)) in
      (
        s',
        bind_ok (dumped input la) after_a s (dumped_lem input la s room_a)
            ∙ (bind_ok (dumped weight lb) (after_b a) s1 (dumped_lem weight lb s1 room_b)
                ∙ (bind_ok (c_in_tile t) (multiply a b) s2 runs_c ∙ runs)),
        record {
          ready = kept.ready;
          engine_kept = kept.engine_kept;
          memory_kept = kept.memory_kept;
          desc_kept = kept.desc_kept;
          cells = λ i j hi hj.
              kept.cells i j hi hj
              ∙ ap₂ (λ x y. (x + y) % 2 ^ 32) (starts i j hi hj)
                  (sum_products_congr _ _ _ _ t.k_len
                    (λ k hk. tile_at-dump_of t.m_len t.k_len la wa i k a_len room_a hi hk)
                    (λ k hk. tile_at-dump_of t.k_len t.n_len lb wb k j b_len room_b hk hj));
        },
      )
