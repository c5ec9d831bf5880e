-- ===== src/Npu/Controller/Tile/Load.antt =====
-- `load_tiles`: the tiles of A, B and, past the first, of C are in the three buffers.
use maps.Prelude.{
  ℕ, ◌+◌, ◌*◌, ◌<◌, ◌≡◌, ◌==◌, refl, ap, ◌∙◌, true, false, some, length, get_or, Bool-cases, inl,
  inr, length-replicate, Bool,
}
use maps.Npu.Array.Tile.{tile_at}
use maps.Npu.Buffer
use maps.Npu.Buffer.{Buffer}
use maps.Npu.Controller.Monad.{Npu, M, ◌>>◌, bind_dma}
use maps.Npu.Controller.Tile.{
  moved, load_tiles, load_c_in, count_read, reset_output, req_a, req_b, req_c_in, byte_offset_a,
  byte_offset_b, byte_offset_c,
}
use maps.Npu.Controller.Tile.Fetch.{
  IsFree, IsBlock, bound_engine, bind_buffer-free, moved_to-IsReadyNpu, fetched,
}
use maps.Npu.Controller.Tile.Layout.{IsLayout, IsTile, a_place, b_place, c_place, validate-aligned}
use maps.Npu.Controller.Tile.Move.{IsReadyNpu, moved_to, bind_ok}
use maps.Npu.Descriptor.{Descriptor}
use maps.Npu.Dma.{BufferId, weight, input, output}
use maps.Npu.Dma.Moves.{completed}
use maps.Npu.Schedule.{GemmTile}

clash : {b : Bool} → b ≡ true → b ≡ false → ⊥
clash p q = cc

module _ (d : Descriptor) (n : ℕ) (layout : IsLayout d n) (t : GemmTile) (ok : IsTile d t) where
  a-IsBlock : IsBlock d.matrix_a_base d.matrix_m d.matrix_k t.m0 t.k0 t.m_len t.k_len n
  a-IsBlock = record {
    aligned = (validate-aligned d layout.valid).0;
    end = layout.a_end;
    r_pos = ok.m_pos;
    c_pos = ok.k_pos;
    r_end = ok.m_end;
    c_end = ok.k_end;
    fits = ok.a_fits;
    rows_small = layout.small.m_small;
    cols_small = layout.small.k_small;
    memory_small = layout.memory_small;
  }

  b-IsBlock : IsBlock d.matrix_b_base d.matrix_k d.matrix_n t.k0 t.n0 t.k_len t.n_len n
  b-IsBlock = record {
    aligned = (validate-aligned d layout.valid).1;
    end = layout.b_end;
    r_pos = ok.k_pos;
    c_pos = ok.n_pos;
    r_end = ok.k_end;
    c_end = ok.n_end;
    fits = ok.b_fits;
    rows_small = layout.small.k_small;
    cols_small = layout.small.n_small;
    memory_small = layout.memory_small;
  }

  pub c-IsBlock : IsBlock d.matrix_c_base d.matrix_m d.matrix_n t.m0 t.n0 t.m_len t.n_len n
  c-IsBlock = record {
    aligned = (validate-aligned d layout.valid).2;
    end = layout.c_end;
    r_pos = ok.m_pos;
    c_pos = ok.n_pos;
    r_end = ok.m_end;
    c_end = ok.n_end;
    fits = ok.c_fits;
    rows_small = layout.small.m_small;
    cols_small = layout.small.n_small;
    memory_small = layout.memory_small;
  }

  -- The input and the weight buffer hold the tiles of A and B in the memory of `s`, which is kept.
  pub record IsFed (s s' : Npu) : Type 0 where
    pub ready : IsReadyNpu s'
    pub bound_to : s'.controller.dma.buffer ≡ some output
    pub desc_kept : s'.controller.current_desc ≡ s.controller.current_desc
    pub memory_kept : s'.memory ≡ s.memory
    pub a_loaded :
        (r c : ℕ)
        → r < t.m_len
        → c < t.k_len
        → tile_at t.k_len s'.controller.input_buffer.words r c
          ≡ get_or s.memory.words (a_place d (t.m0 + r) (t.k0 + c)) 0
    pub b_loaded :
        (r c : ℕ)
        → r < t.k_len
        → c < t.n_len
        → tile_at t.n_len s'.controller.weight_buffer.words r c
          ≡ get_or s.memory.words (b_place d (t.k0 + r) (t.n0 + c)) 0

  -- Past the first tile of a sum, the output buffer holds the tile of C.
  abbrev pub HasPartialSums : Npu → Npu → Type 0
  HasPartialSums s s' =
      (t.k0 == 0) ≡ false
      → (r c : ℕ) → r < t.m_len
      → c < t.n_len
      → tile_at t.n_len s'.controller.output_buffer.words r c
        ≡ get_or s.memory.words (c_place d (t.m0 + r) (t.n0 + c)) 0

  -- A controller whose engine is bound to another buffer.
  abbrev rebound : BufferId → Npu → Npu
  rebound id s = record s {
    controller = record (s.controller) { dma = bound_engine id s.controller.dma };
  }

  rebound-IsReadyNpu : (id : BufferId) (s : Npu) → IsReadyNpu s → IsReadyNpu (rebound id s)
  rebound-IsReadyNpu id s h = record {
    not_busy = refl;
    memory_bound = h.memory_bound;
    size_known = h.size_known;
    memory_small = h.memory_small;
    input_size = h.input_size;
    weight_size = h.weight_size;
    output_size = h.output_size;
  }

  abbrev counted : ℕ → Npu → Npu
  counted words s = (count_read words s).0

  abbrev cleared : Npu → Npu
  cleared s = record s {
    controller = record (s.controller) { output_buffer = Buffer.reset s.controller.output_buffer };
  }

  counted-IsReadyNpu : (words : ℕ) (s : Npu) → IsReadyNpu s → IsReadyNpu (counted words s)
  counted-IsReadyNpu words s h = record {
    not_busy = h.not_busy;
    memory_bound = h.memory_bound;
    size_known = h.size_known;
    memory_small = h.memory_small;
    input_size = h.input_size;
    weight_size = h.weight_size;
    output_size = h.output_size;
  }

  cleared-IsReadyNpu : (s : Npu) → IsReadyNpu s → IsReadyNpu (cleared s)
  unfolding Buffer.reset
  cleared-IsReadyNpu s h = record {
    not_busy = h.not_busy;
    memory_bound = h.memory_bound;
    size_known = h.size_known;
    memory_small = h.memory_small;
    input_size = h.input_size;
    weight_size = h.weight_size;
    output_size = length-replicate (length s.controller.output_buffer.words) 0 ∙ h.output_size;
  }

  -- What `load_c_in` adds.
  load_c_in-IsFed :
      (s s' : Npu)
      → IsFed s s'
      → length s.memory.words ≡ n
      → (s'' : Npu) × (load_c_in d t s' ≡ (s'', some tt)) × IsFed s s'' × HasPartialSums s s''
  unfolding load_c_in byte_offset_c
  load_c_in-IsFed s s' h same = elim (Bool-cases (t.k0 == 0)) [
    | inl first ↦ (s', rw (first, load_c_in) refl, h, λ later. absurd (clash first later))
    | inr later ↦
        let same' : length s'.memory.words ≡ n = ap (λ m. length m.words) h.memory_kept ∙ same in
        let (b, e, l, cells) =
          fetched _ _ _ _ _ _ _ n c-IsBlock output s' h.ready h.bound_to h.ready.output_size
            same' in
        let s'' = moved_to output s' b (completed (req_c_in d t) s'.controller.dma) s'.memory in
        let runs : moved (req_c_in d t) s' ≡ (s'', some tt) = e in
        let free : IsFree output (length s'.memory.words) s''.controller.dma = record {
          not_busy = refl;
          bound_to = h.bound_to;
          memory_bound = h.ready.memory_bound;
          size_known = h.ready.size_known;
        } in
        (
          counted (t.n_len * t.m_len) s'',
          rw (later, load_c_in)
              (bind_ok (moved (req_c_in d t)) (λ _. count_read (t.n_len * t.m_len)) s' runs),
          record {
            ready =
                counted-IsReadyNpu (t.n_len * t.m_len) s'' (
                  moved_to-IsReadyNpu output s' b s''.controller.dma s'.memory h.ready l refl free);
            bound_to = h.bound_to;
            desc_kept = h.desc_kept;
            memory_kept = h.memory_kept;
            a_loaded = h.a_loaded;
            b_loaded = h.b_loaded;
          },
          λ _ r c hr hc.
              cells r c hr hc
              ∙ ap (λ m. get_or m.words (c_place d (t.m0 + r) (t.n0 + c)) 0) h.memory_kept,
        )
  ]

  -- What `load_tiles` does after its first and its second transfer.
  abbrev after_b : M (Unit {0})
  after_b = do count_read (t.n_len * t.k_len); reset_output; bind_dma output; load_c_in d t

  abbrev after_a : M (Unit {0})
  after_a = do count_read (t.k_len * t.m_len); bind_dma weight; moved (req_b d t); after_b

  pub load_tiles-IsFed :
      (s : Npu)
      → IsReadyNpu s
      → length s.memory.words ≡ n
      → (s' : Npu) × (load_tiles d t s ≡ (s', some tt)) × IsFed s s' × HasPartialSums s s'
  unfolding load_tiles byte_offset_a byte_offset_b
  load_tiles-IsFed s ready same =
      let s1 = rebound input s in
      let (ba, ea, la, ca) =
        fetched _ _ _ _ _ _ _ n a-IsBlock input s1 (rebound-IsReadyNpu input s ready) refl
          ready.input_size same in
      let s2 = moved_to input s1 ba (completed (req_a d t) s1.controller.dma) s1.memory in
      let runs_a : moved (req_a d t) s1 ≡ (s2, some tt) = ea in
      let free2 : IsFree input (length s.memory.words) s2.controller.dma = record {
        not_busy = refl;
        bound_to = refl;
        memory_bound = ready.memory_bound;
        size_known = ready.size_known;
      } in
      let ready2 =
        moved_to-IsReadyNpu input s1 ba s2.controller.dma s1.memory
          (rebound-IsReadyNpu input s ready) la refl free2 in
      let s3 = counted (t.k_len * t.m_len) s2 in
      let s4 = rebound weight s3 in
      let ready4 : IsReadyNpu s4 =
        rebound-IsReadyNpu weight s3 (counted-IsReadyNpu (t.k_len * t.m_len) s2 ready2) in
      let (bb, eb, lb, cb) =
        fetched _ _ _ _ _ _ _ n b-IsBlock weight s4 ready4 refl ready.weight_size same in
      let s5 = moved_to weight s4 bb (completed (req_b d t) s4.controller.dma) s4.memory in
      let runs_b : moved (req_b d t) s4 ≡ (s5, some tt) = eb in
      let free5 : IsFree weight (length s.memory.words) s5.controller.dma = record {
        not_busy = refl;
        bound_to = refl;
        memory_bound = ready.memory_bound;
        size_known = ready.size_known;
      } in
      let ready5 =
        moved_to-IsReadyNpu weight s4 bb s5.controller.dma s4.memory ready4 lb refl free5 in
      let s6 = counted (t.n_len * t.k_len) s5 in
      let s8 = rebound output (cleared s6) in
      let fed : IsFed s s8 = record {
        ready =
            rebound-IsReadyNpu output (cleared s6)
              (cleared-IsReadyNpu s6 (counted-IsReadyNpu (t.n_len * t.k_len) s5 ready5));
        bound_to = refl;
        desc_kept = refl;
        memory_kept = refl;
        a_loaded = ca;
        b_loaded = cb;
      } in
      let (s9, e9, fed9, sums) = load_c_in-IsFed s s8 fed same in
      let second : after_a s2 ≡ (s9, some tt) =
        rw (bind_buffer-free weight s3.controller.dma refl) (
          bind_ok (moved (req_b d t)) (λ _. after_b) s4 runs_b
          ∙ rw (bind_buffer-free output s6.controller.dma refl) e9) in
      (
        s9,
        rw (bind_buffer-free input s.controller.dma ready.not_busy, load_tiles)
            (bind_ok (moved (req_a d t)) (λ _. after_a) s1 runs_a ∙ second),
        fed9,
        sums,
      )
