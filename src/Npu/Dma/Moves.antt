-- ===== src/Npu/Dma/Moves.antt =====
-- The contract of `DmaEngine` from `submit` to the end of `run_sync`.
use maps.Prelude.{
  ℕ, ◌+◌, ◌*◌, ◌<◌, ◌≡◌, ◌%◌, ◌↔◌, refl, ap, ◌∙◌, sym, subst, true, false, some, length, arith,
  Bool, u64, Option,
}
use maps.Npu.Buffer.{Buffer}
use maps.Npu.Buffer
use maps.Npu.Descriptor.{word_addr, is_word_aligned}
use maps.Npu.Dma.{
  DmaRequest, DmaEngine, DmaState, DmaError, DmaDirection, dram_to_buffer, buffer_to_dram, unknown,
  submit, run_sync, Transfer, leaves_range, is_malformed, rows_loop, finish,
}
use maps.Npu.Dma.Block.{put_rows, HasBlock, put_rows-HasBlock}
use maps.Npu.Dma.Run.{IsInRange, dram_block, rows_load, IsLoaded}
use maps.Npu.Dma.Store.{buffer_block, rows_store, IsStored}
use maps.Npu.Dma.Submit.{
  IsWords, IsReady, IsSmall, StaysInRange, IsKnown, mem_stride, buf_stride, leaves_range_iff,
  size_exact,
}

-- A request that names words at all, and at a word of DRAM.
pub record IsFormed (req : DmaRequest) : Type 0 where
  pub length_pos : 0 < req.length
  pub rows_pos : 0 < req.rows
  pub src_pos : 0 < req.src_stride
  pub dst_pos : 0 < req.dst_stride
  pub aligned : req.dram_base % 4 ≡ 0

is_malformed_iff : (req : DmaRequest) → (is_malformed req ≡ false) ↔ IsFormed req
unfolding is_word_aligned
is_malformed_iff req = ground arith

IsKnown-of_some :
    (dir : DmaDirection) (m b : ℕ) (req : DmaRequest) {x : Bool}
    → leaves_range dir m b req ≡ some x
    → IsKnown dir
unfolding leaves_range
IsKnown-of_some dram_to_buffer m b req e = tt
IsKnown-of_some buffer_to_dram m b req e = tt
IsKnown-of_some unknown m b req e = cc

-- The engine that has accepted a request.
abbrev pub holding : DmaRequest → DmaEngine → DmaEngine
holding req d = record d {
  current_req = req;
  has_request = true;
  state = DmaState.busy;
  error = DmaError.no_error;
}

module _ (req : DmaRequest) (d : DmaEngine) (t : Transfer) (w : IsWords req)
    (ready : IsReady d t.memory) (small : IsSmall t) where
  abbrev check : Option Bool
  check = leaves_range req.direction (length t.memory.words) (length t.buffer.words) req

  checks_same : leaves_range req.direction d.dram_size (Buffer.size t.buffer) req ≡ check
  checks_same = rw (size_exact t.buffer small.buffer_small, ready.size_known) refl

  submit_accepts :
      is_malformed req ≡ false → check ≡ some false → submit t.buffer req d ≡ (holding req d, true)
  unfolding submit
  submit_accepts formed e =
      let range = checks_same ∙ e in
      ground (arith, ready.not_busy, ready.buffer_bound, ready.memory_bound, formed, range)

  submit_inverts :
      (submit t.buffer req d).1 ≡ true → (is_malformed req ≡ false) × (check ≡ some false)
  unfolding submit
  submit_inverts h =
      ground (arith, ready.not_busy, ready.buffer_bound, ready.memory_bound, checks_same)

  -- A request in range is accepted, and the engine then holds it.
  pub submit-holding :
      IsFormed req
      → IsKnown req.direction
      → StaysInRange req.direction req t
      → submit t.buffer req d ≡ (holding req d, true)
  submit-holding f known range =
      submit_accepts ((is_malformed_iff req).1 f)
        ((leaves_range_iff req t w small f.rows_pos f.length_pos req.direction known).1 range)

  -- An engine that is not busy and is bound to the memory and a buffer, of fewer than 2 ^ 32 words
  -- each, accepts exactly the well-formed requests, of fields below 2 ^ 32, whose every word is in the memory and in
  -- the buffer.
  pub submit_iff :
      ((submit t.buffer req d).1 ≡ true)
      ↔ (IsFormed req × IsKnown req.direction × StaysInRange req.direction req t)
  submit_iff = (
    λ h.
        let (formed, range) = submit_inverts h in
        let f = (is_malformed_iff req).0 formed in
        let known = IsKnown-of_some req.direction _ _ req range in
        (
          f,
          known,
          (leaves_range_iff req t w small f.rows_pos f.length_pos req.direction known).0 range,
        ),
    λ (f, known, range). ap (λ r. r.1) (submit-holding f known range),
  )

-- The engine after a transfer: done, idle for the next request, with the transfer in its counts.
abbrev pub completed : DmaRequest → DmaEngine → DmaEngine
completed req d =
    let elems = u64 (req.length * req.rows) in
    record d {
      current_req = req;
      has_request = false;
      state = DmaState.done;
      error = DmaError.no_error;
      stats = record {
        bytes_moved = u64 (d.stats.bytes_moved + u64 (elems * 4));
        transfer_count = u64 (d.stats.transfer_count + 1);
        cycle_count = u64 (d.stats.cycle_count + elems);
      };
    }

run_sync_finishes :
    (req : DmaRequest) (d : DmaEngine) (t : Transfer)
    → (rows_loop req 0 req.rows t).1 ≡ DmaError.no_error
    → let r = run_sync t (holding req d) in
      (r.done ≡ true) × (r.engine ≡ completed req d) × (r.transfer ≡ (rows_loop req 0 req.rows t).0)
unfolding run_sync
run_sync_finishes req d t e = rw (e, finish) (refl, refl, refl)

module _ (req : DmaRequest) (d : DmaEngine) (t : Transfer) (small : IsSmall t) where
  in_range :
      (dir : DmaDirection)
      → StaysInRange dir req t
      → IsInRange req (mem_stride dir req) (buf_stride dir req) t
  in_range dir h = record {
    mem_small = small.memory_small;
    buf_small = small.buffer_small;
    mem_words = λ r c p q. (h r c p q).0;
    buf_words = λ r c p q. (h r c p q).1;
  }

  -- The words that `run_sync` leaves, row after row.
  pub load_puts :
      req.direction ≡ dram_to_buffer
      → StaysInRange dram_to_buffer req t
      → let r = run_sync t (holding req d) in
        (r.done ≡ true)
        × (r.engine ≡ completed req d)
        × (r.transfer.memory ≡ t.memory)
        × (r.transfer.buffer.words
            ≡ put_rows req.buffer_base req.dst_stride
                (dram_block req t.memory.words)
                req.length
                0
                req.rows
                t.buffer.words)
  load_puts e range =
      let loop : IsLoaded req e t.memory _ (rows_loop req 0 req.rows t) =
        rows_load req e t.memory 0 req.rows t refl (in_range dram_to_buffer range) (omega arith) in
      let (done, engine, transfer) = run_sync_finishes req d t loop.succeeds in
      (
        done,
        engine,
        ap (λ x. x.memory) transfer ∙ loop.memory_kept,
        ap (λ x. x.buffer.words) transfer ∙ loop.words_put,
      )

  pub store_puts :
      req.direction ≡ buffer_to_dram
      → StaysInRange buffer_to_dram req t
      → let r = run_sync t (holding req d) in
        (r.done ≡ true)
        × (r.engine ≡ completed req d)
        × (r.transfer.buffer.words ≡ t.buffer.words)
        × (r.transfer.memory.words
            ≡ put_rows
                (word_addr req.dram_base)
                req.dst_stride
                (buffer_block req t.buffer.words)
                req.length
                0
                req.rows
                t.memory.words)
  store_puts e range =
      let loop : IsStored req e t.buffer.words _ (rows_loop req 0 req.rows t) =
        rows_store req e t.buffer.words 0 req.rows t refl (in_range buffer_to_dram range)
          (omega arith) in
      let (done, engine, transfer) = run_sync_finishes req d t loop.succeeds in
      (
        done,
        engine,
        ap (λ x. x.buffer.words) transfer ∙ loop.buffer_kept,
        ap (λ x. x.memory.words) transfer ∙ loop.words_put,
      )

  -- An accepted request from DRAM to the buffer, with rows of a word or more and every word in range
  -- of a memory and a buffer of fewer than 2 ^ 32 words, runs to its end: the engine is done and has
  -- counted the transfer, the memory is kept, and the buffer has its old size. Column `c` of row `r`
  -- of the destination holds that column of the row of DRAM, unless the destination of a later row
  -- overlaps it, whose word it then holds; every word outside the destination is as before.
  pub load_moves :
      req.direction ≡ dram_to_buffer
      → 0 < req.length
      → StaysInRange dram_to_buffer req t
      → let r = run_sync t (holding req d) in
        (r.done ≡ true)
        × (r.engine ≡ completed req d)
        × (r.transfer.memory ≡ t.memory)
        × HasBlock req.buffer_base req.dst_stride
            (dram_block req t.memory.words)
            req.length
            req.rows
            t.buffer.words
            r.transfer.buffer.words
  load_moves e pos range =
      let (done, engine, memory, words) = load_puts e range in
      let block = dram_block req t.memory.words in
      (
        done,
        engine,
        memory,
        subst (HasBlock req.buffer_base req.dst_stride block req.length req.rows t.buffer.words)
            (sym words)
            (put_rows-HasBlock req.buffer_base req.dst_stride block req.length req.rows
              t.buffer.words (λ r c p q. (range r c p q).1) pos),
      )

  -- An accepted request from the buffer to DRAM, with rows of a word or more and every word in range
  -- of a memory and a buffer of fewer than 2 ^ 32 words, runs to its end: the engine is done and has
  -- counted the transfer, the words of the buffer are kept, and the memory has its old size. Column
  -- `c` of row `r` of the destination holds that column of the row of the buffer, unless the
  -- destination of a later row overlaps it, whose word it then holds; every word outside the
  -- destination is as before.
  pub store_moves :
      req.direction ≡ buffer_to_dram
      → 0 < req.length
      → StaysInRange buffer_to_dram req t
      → let r = run_sync t (holding req d) in
        (r.done ≡ true)
        × (r.engine ≡ completed req d)
        × (r.transfer.buffer.words ≡ t.buffer.words)
        × HasBlock
            (word_addr req.dram_base)
            req.dst_stride
            (buffer_block req t.buffer.words)
            req.length
            req.rows
            t.memory.words
            r.transfer.memory.words
  store_moves e pos range =
      let (done, engine, buffer, words) = store_puts e range in
      let to = word_addr req.dram_base in
      let block = buffer_block req t.buffer.words in
      (
        done,
        engine,
        buffer,
        subst (HasBlock to req.dst_stride block req.length req.rows t.memory.words) (sym words) (
            put_rows-HasBlock to req.dst_stride block req.length req.rows t.memory.words
              (λ r c p q. (range r c p q).0) pos),
      )
