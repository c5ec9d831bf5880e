-- ===== src/Npu/Controller/Tile/Correct.antt =====
-- `run_tile` as a whole, on the matrices in DRAM.
use maps.Prelude.{
  ℕ, ◌-◌, ◌+◌, ◌*◌, ◌%◌, ◌<◌, ◌≤◌, ◌≡◌, ◌≢◌, ◌^◌, ◌==◌, refl, ap, ap₂, ◌∙◌, sym, subst, false, not,
  some, List, length, get_or, arith, Bool-cases, inl, inr, if◌then◌else◌,
}
use maps.Npu.Array.Dot.{dot, sum_products_congr}
use maps.Npu.Array.Tile.{tile_at}
use maps.Npu.Controller.Monad.{Npu, M, ◌>>◌, check}
use maps.Npu.Controller.Tile.{
  moved, run_tile, load_tiles, compute_tile, store_tile, req_c_out, byte_offset_c, count_write,
  exceeds,
}
use maps.Npu.Controller.Tile.Compute.{compute_tile_lem}
use maps.Npu.Controller.Tile.Filled.{start}
use maps.Npu.Controller.Tile.Fetch.{
  IsBlock, block_place, block_in_memory, block_in_buffer, block-IsWords, block-IsFormed,
  moved_to-IsReadyNpu, IsFree, tile_at-place,
}
use maps.Npu.Controller.Tile.Layout.{IsLayout, IsTile, a_place, b_place, c_place}
use maps.Npu.Controller.Tile.Load.{load_tiles-IsFed, HasPartialSums, c-IsBlock}
use maps.Npu.Controller.Tile.Move.{IsReadyNpu, bind_ok, moved_to, moved-store}
use maps.Npu.Descriptor.{Descriptor, word_addr}
use maps.Npu.Dma.{output, buffer_to_dram}
use maps.Npu.Dma.Block.{place, put_rows, put_rows_inside, put_rows_outside, length-put_rows}
use maps.Npu.Dma.Moves.{completed, IsFormed}
use maps.Npu.Dma.Store.{buffer_block}
use maps.Npu.Dma.Submit.{IsWords, StaysInRange, size_exact}
use maps.Npu.Schedule.{GemmTile}
use maps.Npu.Status.{out_of_range}

-- The sum at the tile's element (i, j) before the tile: 0 at the first tile of a sum.
abbrev pub before : Descriptor → GemmTile → List ℕ → ℕ → ℕ → ℕ
before d t words i j = if t.k0 == 0 then 0 else get_or words (c_place d (t.m0 + i) (t.n0 + j)) 0

-- The sum after it: the tile's products of the matrices in `words` are added.
abbrev pub after : Descriptor → GemmTile → List ℕ → ℕ → ℕ → ℕ
after d t words i j =
    dot (λ k. get_or words (a_place d (t.m0 + i) (t.k0 + k)) 0)
      (λ k. get_or words (b_place d (t.k0 + k) (t.n0 + j)) 0) (before d t words i j) t.k_len

module _ (d : Descriptor) (n : ℕ) (layout : IsLayout d n) (t : GemmTile) (ok : IsTile d t) where
  -- A memory with `value` in the tile of C, and otherwise as it was.
  pub record HasTile (value : ℕ → ℕ → ℕ) (words words' : List ℕ) : Type 0 where
    pub same_size : length words' ≡ length words
    pub inside :
        (i j : ℕ)
        → i < t.m_len
        → j < t.n_len
        → get_or words' (c_place d (t.m0 + i) (t.n0 + j)) 0 ≡ value i j
    pub outside :
        (x : ℕ)
        → ((i j : ℕ) → i < t.m_len → j < t.n_len → x ≢ c_place d (t.m0 + i) (t.n0 + j))
        → get_or words' x 0 ≡ get_or words x 0

  block : IsBlock d.matrix_c_base d.matrix_m d.matrix_n t.m0 t.n0 t.m_len t.n_len n
  block = c-IsBlock d n layout t ok

  -- The place of the block, with its parameters.
  c_block_place :
      (i j : ℕ)
      → place (word_addr (req_c_out d t).dram_base) d.matrix_n i j ≡ c_place d (t.m0 + i) (t.n0 + j)
  unfolding byte_offset_c
  c_block_place i j = block_place _ _ _ _ _ _ _ n block i j

  put_rows-HasTile :
      (value : ℕ → ℕ → ℕ) (words : List ℕ)
      → length words ≡ n
      → HasTile value words
          (put_rows (word_addr (req_c_out d t).dram_base) d.matrix_n value t.n_len 0 t.m_len words)
  unfolding byte_offset_c
  put_rows-HasTile value words same = record {
    same_size = length-put_rows w d.matrix_n value t.n_len 0 t.m_len words;
    inside = λ i j hi hj.
        ap (λ p. get_or (put_rows w d.matrix_n value t.n_len 0 t.m_len words) p 0)
          (sym (c_block_place i j))
        ∙ put_rows_inside w d.matrix_n value t.n_len 0 t.m_len words i j (omega (arith, ok.n_end))
            room (omega arith) (omega arith) hj;
    outside = λ x out.
        put_rows_outside w d.matrix_n value t.n_len 0 t.m_len words x room
          (λ i j p q hj e. out i j (omega arith) hj (e ∙ c_block_place i j));
  }
    where
      w : ℕ
      w = word_addr (req_c_out d t).dram_base

      room : (r : ℕ) → 0 ≤ r → r < 0 + t.m_len → place w d.matrix_n r 0 + t.n_len ≤ length words
      room r p q =
          let last : place w d.matrix_n r (t.n_len - 1) < n =
            block_in_memory _ _ _ _ _ _ _ n block r (t.n_len - 1) (omega arith)
              (omega (arith, ok.n_pos)) in
          omega (arith, last, same, ok.n_pos)

  -- `store_tile` succeeds and puts the output buffer into C.
  store_tile-HasTile :
      (s : Npu)
      → IsReadyNpu s
      → s.controller.dma.buffer ≡ some output
      → length s.memory.words ≡ n
      → (s' : Npu) × (store_tile d t s ≡ (s', some tt))
        × IsReadyNpu s'
        × (s'.controller.current_desc ≡ s.controller.current_desc)
        × HasTile
            (λ i j. tile_at t.n_len s.controller.output_buffer.words i j)
            s.memory.words
            s'.memory.words
  unfolding store_tile byte_offset_c
  store_tile-HasTile s ready bound_to same =
      let req = req_c_out d t in
      let words = s.controller.output_buffer.words in
      let w : IsWords req = (let o = block-IsWords _ _ _ _ _ _ _ n block in omega arith) in
      let f = block-IsFormed _ _ _ _ _ _ _ n block in
      let formed : IsFormed req = record {
        length_pos = ok.n_pos;
        rows_pos = ok.m_pos;
        src_pos = ok.n_pos;
        dst_pos = f.src_pos;
        aligned = f.aligned;
      } in
      let range : StaysInRange buffer_to_dram req
          (record { memory = s.memory; buffer = s.controller.output_buffer }) =
        λ r c hr hc. (
          subst (λ l. place (word_addr req.dram_base) d.matrix_n r c < l) (sym same)
              (block_in_memory _ _ _ _ _ _ _ n block r c hr hc),
          subst (λ l. place 0 t.n_len r c < l) (sym ready.output_size)
              (block_in_buffer _ _ _ _ _ _ _ n block r c hr hc),
        ) in
      let (b, m, runs, kept, filled) =
        moved-store output req s ready bound_to ready.output_size w formed refl range in
      let e = completed req s.controller.dma in
      let s' = moved_to output s b e m in
      let has = put_rows-HasTile (buffer_block req words) s.memory.words same in
      let has' : HasTile (buffer_block req words) s.memory.words m.words =
        subst (HasTile (buffer_block req words) s.memory.words) (sym filled) has in
      let free : IsFree output (length s.memory.words) e = record {
        not_busy = refl;
        bound_to = bound_to;
        memory_bound = ready.memory_bound;
        size_known = ready.size_known;
      } in
      let ready' =
        moved_to-IsReadyNpu output s b e m ready (ap length kept ∙ ready.output_size) has'.same_size
          free in
      (
        (count_write (t.n_len * t.m_len) s').0,
        bind_ok (moved req) (λ _. count_write (t.n_len * t.m_len)) s runs,
        record {
          not_busy = ready'.not_busy;
          memory_bound = ready'.memory_bound;
          size_known = ready'.size_known;
          memory_small = ready'.memory_small;
          input_size = ready'.input_size;
          weight_size = ready'.weight_size;
          output_size = ready'.output_size;
        },
        refl,
        record {
          same_size = has'.same_size;
          inside = λ i j hi hj. has'.inside i j hi hj ∙ sym (tile_at-place t.n_len words i j);
          outside = has'.outside;
        },
      )

  not_exceeds : (s : Npu) → IsReadyNpu s → exceeds s.controller t ≡ false
  not_exceeds s ready =
      let c = s.controller in
      let ea = size_exact c.input_buffer (omega (arith, ready.input_size)) in
      let eb = size_exact c.weight_buffer (omega (arith, ready.weight_size)) in
      let ec = size_exact c.output_buffer (omega (arith, ready.output_size)) in
      ground (
        arith, ea, eb, ec, ready.input_size, ready.weight_size, ready.output_size, ok.a_fits,
        ok.b_fits, ok.c_fits,
      )

  -- The partial sums in the output buffer are those in C.
  start-before :
      (s s' : Npu)
      → HasPartialSums d n layout t ok s s'
      → (i j : ℕ) → i < t.m_len
      → j < t.n_len
      → start t s' i j ≡ before d t s.memory.words i j
  start-before s s' sums i j hi hj = elim (Bool-cases (t.k0 == 0)) [
    | inl first ↦ rw first refl
    | inr later ↦ rw later (sums later i j hi hj)
  ]

  -- `run_tile` with its descriptor.
  abbrev run_with : Descriptor → M (Unit {0})
  run_with d' s =
      (do
        check (not (exceeds s.controller t)) out_of_range
        load_tiles d' t
        compute_tile d' t
        store_tile d' t)
        s

  abbrev after_load : M (Unit {0})
  after_load = do compute_tile d t; store_tile d t

  abbrev after_check : M (Unit {0})
  after_check = do load_tiles d t; after_load

  -- Total correctness of `run_tile`, on a controller that is ready for a tile in range.
  pub run_tile-HasTile :
      (s : Npu)
      → IsReadyNpu s
      → s.controller.current_desc ≡ d
      → length s.memory.words ≡ n
      → ((i j : ℕ) → i < t.m_len → j < t.n_len → before d t s.memory.words i j < 2 ^ 32)
      → (s' : Npu) × (run_tile t s ≡ (s', some tt))
        × IsReadyNpu s'
        × (s'.controller.current_desc ≡ d)
        × HasTile (after d t s.memory.words) s.memory.words s'.memory.words
  unfolding run_tile
  run_tile-HasTile s ready desc same fits =
      let (s1, runs1, fed, sums) = load_tiles-IsFed d n layout t ok s ready same in
      let starts = start-before s s1 sums in
      let (s2, runs2, kept) =
        compute_tile_lem d t ok s1 fed.ready
          (λ i j hi hj. rw (starts i j hi hj) (fits i j hi hj)) in
      let words = s.memory.words in
      let memory2 = kept.memory_kept ∙ fed.memory_kept in
      let same2 : length s2.memory.words ≡ n = ap (λ m. length m.words) memory2 ∙ same in
      let (s3, runs3, ready3, desc3, has) =
        store_tile-HasTile s2 kept.ready (ap (λ e. e.buffer) kept.engine_kept ∙ fed.bound_to)
          same2 in
      let passes = ap (λ b. check (not b) out_of_range s) (not_exceeds s ready) in
      (
        s3,
        ap (λ d'. run_with d' s) desc
            ∙ (bind_ok (check (not (exceeds s.controller t)) out_of_range) (λ _. after_check) s
                  passes
                ∙ (bind_ok (load_tiles d t) (λ _. after_load) s runs1
                    ∙ (bind_ok (compute_tile d t) (λ _. store_tile d t) s1 runs2 ∙ runs3))),
        ready3,
        desc3 ∙ kept.desc_kept ∙ fed.desc_kept ∙ desc,
        record {
          same_size = has.same_size ∙ ap (λ m. length m.words) memory2;
          inside = λ i j hi hj.
              has.inside i j hi hj
              ∙ kept.cells i j hi hj
              ∙ ap₂ (λ x y. (x + y) % 2 ^ 32) (starts i j hi hj)
                  (sum_products_congr _ _ _ _ t.k_len (λ k hk. fed.a_loaded i k hi hk)
                    (λ k hk. fed.b_loaded k j hk hj));
          outside = λ x out. has.outside x out ∙ ap (λ m. get_or m.words x 0) memory2;
        },
      )
