-- ===== src/Npu/Dma/Store.antt =====
-- `DmaEngine::run_sync` from the buffer to DRAM: a request whose words are all in range is carried out in full.
use maps.Prelude.{
  ℕ, zero, suc, ◌+◌, ◌<◌, ◌≤◌, ◌≡◌, refl, ap, subst, ◌∙◌, sym, true, some, List, length, set,
  get_or, arith, u32, u64, length-set,
}
use maps.Memory.{Memory}
use maps.Memory
use maps.Memory.Access.{write_in_range_lem}
use maps.Npu.Buffer.{Buffer}
use maps.Npu.Buffer
use maps.Npu.Buffer.Access.{read_in_range as buffer_read_in_range}
use maps.Npu.Descriptor.{word_addr}
use maps.Npu.Dma.{
  DmaRequest, buffer_to_dram, DmaError, no_error, Transfer, step, row_loop, rows_loop,
}
use maps.Npu.Dma.Block.{place, put_row, put_rows, length-put_row}
use maps.Npu.Dma.Run.{IsInRange}

-- What a read of the buffer finds at (r, c).
abbrev pub buffer_block : DmaRequest → List ℕ → ℕ → ℕ → ℕ
buffer_block req words r c = get_or words (place req.buffer_base req.src_stride r c) 0

module _ (req : DmaRequest) (direction : req.direction ≡ buffer_to_dram) (buf : List ℕ) where
  abbrev buf_value : ℕ → ℕ → ℕ
  buf_value = buffer_block req buf

  abbrev stored : Transfer → ℕ → ℕ → Transfer
  stored t r c = record {
    memory = record {
      words =
          set t.memory.words (place (word_addr req.dram_base) req.dst_stride r c) (buf_value r c);
    };
    buffer = record (t.buffer) { read_count = u64 (t.buffer.read_count + 1) };
  }

  step_store :
      (r c : ℕ) (t : Transfer)
      → t.buffer.words ≡ buf
      → IsInRange req req.dst_stride req.src_stride t
      → r < req.rows
      → c < req.length
      → step req.direction req r c t ≡ (stored t r c, no_error)
  step_store r c t same ok hr hc = ap (λ d. step d req r c t) direction ∙ forward
    where
      x : ℕ
      x = place req.buffer_base req.src_stride r c

      y : ℕ
      y = place (word_addr req.dram_base) req.dst_stride r c

      ex : u32 x ≡ x
      ex = omega (arith, ok.buf_small, ok.buf_words r c hr hc)

      ey : u32 y ≡ y
      ey = omega (arith, ok.mem_small, ok.mem_words r c hr hc)

      reads : Buffer.read t.buffer (u32 x) ≡ ((stored t r c).buffer, some (buf_value r c))
      reads = rw ex (
          buffer_read_in_range t.buffer x (ok.buf_words r c hr hc)
          ∙ ap (λ w. ((stored t r c).buffer, some (get_or w x 0))) same)

      writes : Memory.write t.memory (u32 y) (buf_value r c) ≡ ((stored t r c).memory, true)
      writes = rw ey (write_in_range_lem t.memory y (buf_value r c) (ok.mem_words r c hr hc))

      forward : step buffer_to_dram req r c t ≡ (stored t r c, no_error)
      forward =
          unfold step in
          rw (ap (λ p. p.1) reads, ap (λ p. p.0) reads, step)
            (rw (ap (λ p. p.1) writes, ap (λ p. p.0) writes, step) refl)

  -- The outcome of a loop: no error, the buffer's words as they were, and `words` in the memory.
  pub record IsStored (words : List ℕ) (r : Transfer × DmaError) : Type 0 where
    pub succeeds : r.1 ≡ no_error
    pub buffer_kept : r.0.buffer.words ≡ buf
    pub words_put : r.0.memory.words ≡ words

  IsInRange-stored :
      (t : Transfer) (r c : ℕ)
      → IsInRange req req.dst_stride req.src_stride t
      → IsInRange req req.dst_stride req.src_stride (stored t r c)
  IsInRange-stored t r c ok =
      let e =
        length-set t.memory.words (place (word_addr req.dram_base) req.dst_stride r c)
          (buf_value r c) in
      record {
        mem_small = rw e ok.mem_small;
        buf_small = ok.buf_small;
        mem_words = λ r' c' hr hc. rw e (ok.mem_words r' c' hr hc);
        buf_words = ok.buf_words;
      }

  row_store :
      (r c n : ℕ) (t : Transfer)
      → t.buffer.words ≡ buf
      → IsInRange req req.dst_stride req.src_stride t
      → r < req.rows
      → c + n ≤ req.length
      → IsStored
          (put_row (word_addr req.dram_base) req.dst_stride buf_value r c n t.memory.words)
          (row_loop req r c n t)
  unfolding row_loop put_row
  row_store r c zero t same ok hr hn = record {
    succeeds = refl;
    buffer_kept = same;
    words_put = refl;
  }
  row_store r c (suc n) t same ok hr hn =
      let e = step_store r c t same ok hr (omega arith) in
      rw (ap (λ p. p.1) e, ap (λ p. p.0) e, row_loop)
        (row_store r (c + 1) n (stored t r c) same (IsInRange-stored t r c ok) hr (omega arith))

  IsInRange-row :
      (t : Transfer) (r : Transfer × DmaError) (words : List ℕ)
      → IsInRange req req.dst_stride req.src_stride t
      → t.buffer.words ≡ buf
      → IsStored words r
      → length words ≡ length t.memory.words
      → IsInRange req req.dst_stride req.src_stride r.0
  IsInRange-row t r words ok same h e =
      let em = ap length h.words_put ∙ e in
      let eb = ap length (h.buffer_kept ∙ sym same) in
      record {
        mem_small = rw em ok.mem_small;
        buf_small = rw eb ok.buf_small;
        mem_words = λ r' c' hr hc. rw em (ok.mem_words r' c' hr hc);
        buf_words = λ r' c' hr hc. rw eb (ok.buf_words r' c' hr hc);
      }

  pub rows_store :
      (r n : ℕ) (t : Transfer)
      → t.buffer.words ≡ buf
      → IsInRange req req.dst_stride req.src_stride t
      → r + n ≤ req.rows
      → IsStored
          (put_rows
            (word_addr req.dram_base)
            req.dst_stride
            buf_value
            req.length
            r
            n
            t.memory.words)
          (rows_loop req r n t)
  unfolding rows_loop put_rows
  rows_store r zero t same ok hn = record { succeeds = refl; buffer_kept = same; words_put = refl }
  rows_store r (suc n) t same ok hn =
      rw (row.succeeds, rows_loop)
        (subst
          (λ w.
            IsStored
              (put_rows (word_addr req.dram_base) req.dst_stride buf_value req.length (r + 1) n w)
              (rows_loop req (r + 1) n (row_loop req r 0 req.length t).0))
          row.words_put
          (rows_store (r + 1) n (row_loop req r 0 req.length t).0 row.buffer_kept
            (IsInRange-row t (row_loop req r 0 req.length t) _ ok same row (
              length-put_row (word_addr req.dram_base) req.dst_stride buf_value r 0 req.length
                t.memory.words))
            (omega arith)))
    where
      row :
          IsStored
            (put_row
              (word_addr req.dram_base)
              req.dst_stride
              buf_value
              r
              0
              req.length
              t.memory.words)
            (row_loop req r 0 req.length t)
      row = row_store r 0 req.length t same ok (omega arith) (omega arith)
