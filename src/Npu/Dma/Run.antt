-- ===== src/Npu/Dma/Run.antt =====
-- `DmaEngine::run_sync`: a request whose words are all in range is carried out in full.
use maps.Prelude.{
  ℕ, zero, suc, ◌+◌, ◌<◌, ◌≤◌, ◌≡◌, ◌^◌, refl, ap, subst, ◌∙◌, sym, true, some, List, length, set,
  get_or, arith, u32, u64, length-set,
}
use maps.Memory.{Memory}
use maps.Memory
use maps.Memory.Access.{read_in_range}
use maps.Npu.Buffer.{Buffer}
use maps.Npu.Buffer
use maps.Npu.Buffer.Access.{write_in_range}
use maps.Npu.Descriptor.{word_addr}
use maps.Npu.Dma.{
  DmaRequest, dram_to_buffer, DmaError, no_error, Transfer, step, row_loop, rows_loop,
}
use maps.Npu.Dma.Block.{place, put_row, put_rows, length-put_row}

-- What a row of a request needs: each of its words is in the memory and in the buffer.
pub record IsInRange (req : DmaRequest) (mem_stride buf_stride : ℕ) (t : Transfer) : Type 0 where
  pub mem_small : length t.memory.words < 2 ^ 32
  pub buf_small : length t.buffer.words < 2 ^ 32
  pub mem_words :
      (r c : ℕ)
      → r < req.rows
      → c < req.length
      → place (word_addr req.dram_base) mem_stride r c < length t.memory.words
  pub buf_words :
      (r c : ℕ)
      → r < req.rows
      → c < req.length
      → place req.buffer_base buf_stride r c < length t.buffer.words

-- What a read of DRAM finds at (r, c).
abbrev pub dram_block : DmaRequest → List ℕ → ℕ → ℕ → ℕ
dram_block req words r c = get_or words (place (word_addr req.dram_base) req.src_stride r c) 0

module _ (req : DmaRequest) (direction : req.direction ≡ dram_to_buffer) (mem : Memory) where
  abbrev mem_value : ℕ → ℕ → ℕ
  mem_value = dram_block req mem.words

  abbrev loaded : Transfer → ℕ → ℕ → Transfer
  loaded t r c = record t {
    buffer = record (t.buffer) {
      words = set t.buffer.words (place req.buffer_base req.dst_stride r c) (mem_value r c);
      write_count = u64 (t.buffer.write_count + 1);
    };
  }

  step_load :
      (r c : ℕ) (t : Transfer)
      → t.memory ≡ mem
      → IsInRange req req.src_stride req.dst_stride t
      → r < req.rows
      → c < req.length
      → step req.direction req r c t ≡ (loaded t r c, no_error)
  step_load r c t same ok hr hc = ap (λ d. step d req r c t) direction ∙ forward
    where
      x : ℕ
      x = place (word_addr req.dram_base) req.src_stride r c

      y : ℕ
      y = place req.buffer_base req.dst_stride r c

      ex : u32 x ≡ x
      ex = omega (arith, ok.mem_small, ok.mem_words r c hr hc)

      ey : u32 y ≡ y
      ey = omega (arith, ok.buf_small, ok.buf_words r c hr hc)

      reads : Memory.read t.memory (u32 x) ≡ some (mem_value r c)
      reads =
          rw (ex, same)
            (read_in_range mem x (subst (λ m. x < length m.words) same (ok.mem_words r c hr hc)))

      writes : Buffer.write t.buffer (u32 y) (mem_value r c) ≡ ((loaded t r c).buffer, true)
      writes = rw ey (write_in_range t.buffer y (mem_value r c) (ok.buf_words r c hr hc))

      forward : step dram_to_buffer req r c t ≡ (loaded t r c, no_error)
      forward = unfold step in rw (reads, step) (rw (writes, step) refl)

  -- The outcome of a loop: no error, the memory as it was, and `words` in the buffer.
  pub record IsLoaded (words : List ℕ) (r : Transfer × DmaError) : Type 0 where
    pub succeeds : r.1 ≡ no_error
    pub memory_kept : r.0.memory ≡ mem
    pub words_put : r.0.buffer.words ≡ words

  IsInRange-loaded :
      (t : Transfer) (r c : ℕ)
      → IsInRange req req.src_stride req.dst_stride t
      → IsInRange req req.src_stride req.dst_stride (loaded t r c)
  IsInRange-loaded t r c ok =
      let e =
        length-set t.buffer.words (place req.buffer_base req.dst_stride r c) (mem_value r c) in
      record {
        mem_small = ok.mem_small;
        buf_small = rw e ok.buf_small;
        mem_words = ok.mem_words;
        buf_words = λ r' c' hr hc. rw e (ok.buf_words r' c' hr hc);
      }

  row_load :
      (r c n : ℕ) (t : Transfer)
      → t.memory ≡ mem
      → IsInRange req req.src_stride req.dst_stride t
      → r < req.rows
      → c + n ≤ req.length
      → IsLoaded
          (put_row req.buffer_base req.dst_stride mem_value r c n t.buffer.words)
          (row_loop req r c n t)
  unfolding row_loop put_row
  row_load r c zero t same ok hr hn = record {
    succeeds = refl;
    memory_kept = same;
    words_put = refl;
  }
  row_load r c (suc n) t same ok hr hn =
      let e = step_load r c t same ok hr (omega arith) in
      rw (ap (λ p. p.1) e, ap (λ p. p.0) e, row_loop)
        (row_load r (c + 1) n (loaded t r c) same (IsInRange-loaded t r c ok) hr (omega arith))

  IsInRange-row :
      (t : Transfer) (r : Transfer × DmaError) (words : List ℕ)
      → IsInRange req req.src_stride req.dst_stride t
      → t.memory ≡ mem
      → IsLoaded words r
      → length words ≡ length t.buffer.words
      → IsInRange req req.src_stride req.dst_stride r.0
  IsInRange-row t r words ok same h e =
      let em = h.memory_kept ∙ sym same in
      let eb = ap length h.words_put ∙ e in
      record {
        mem_small = rw em ok.mem_small;
        buf_small = rw eb ok.buf_small;
        mem_words = λ r' c' hr hc. rw em (ok.mem_words r' c' hr hc);
        buf_words = λ r' c' hr hc. rw eb (ok.buf_words r' c' hr hc);
      }

  pub rows_load :
      (r n : ℕ) (t : Transfer)
      → t.memory ≡ mem
      → IsInRange req req.src_stride req.dst_stride t
      → r + n ≤ req.rows
      → IsLoaded
          (put_rows req.buffer_base req.dst_stride mem_value req.length r n t.buffer.words)
          (rows_loop req r n t)
  unfolding rows_loop put_rows
  rows_load r zero t same ok hn = record { succeeds = refl; memory_kept = same; words_put = refl }
  rows_load r (suc n) t same ok hn =
      rw (row.succeeds, rows_loop)
        (subst
          (λ w.
            IsLoaded (put_rows req.buffer_base req.dst_stride mem_value req.length (r + 1) n w)
              (rows_loop req (r + 1) n (row_loop req r 0 req.length t).0))
          row.words_put
          (rows_load (r + 1) n (row_loop req r 0 req.length t).0 row.memory_kept
            (IsInRange-row t (row_loop req r 0 req.length t) _ ok same row (
              length-put_row req.buffer_base req.dst_stride mem_value r 0 req.length
                t.buffer.words))
            (omega arith)))
    where
      row :
          IsLoaded
            (put_row req.buffer_base req.dst_stride mem_value r 0 req.length t.buffer.words)
            (row_loop req r 0 req.length t)
      row = row_load r 0 req.length t same ok (omega arith) (omega arith)
