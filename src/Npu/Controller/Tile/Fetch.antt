-- ===== src/Npu/Controller/Tile/Fetch.antt =====
-- A block of a matrix into a buffer: `bind_buffer` and the transfer.
use maps.Prelude.{
  ℕ, ◌+◌, ◌*◌, ◌%◌, ◌<◌, ◌≤◌, ◌≡◌, ◌^◌, refl, ap, ◌∙◌, sym, false, some, length, get_or, is_null,
  arith, u32, List, subst,
}
use maps.Memory.{Memory}
use maps.Npu.Array.Tile.{tile_at, place-lt, row_below}
use maps.Npu.Buffer.{Buffer}
use maps.Npu.Config.{buffer_sizes}
use maps.Npu.Controller.Monad.{Npu, buffer_at}
use maps.Npu.Controller.Tile.{moved}
use maps.Npu.Controller.Tile.Layout.{place_sub, place_in, address-aligned, address-word}
use maps.Npu.Controller.Tile.Move.{IsReadyNpu, moved_to, moved-load}
use maps.Npu.Descriptor.{word_addr}
use maps.Npu.Dma.{
  DmaRequest, DmaEngine, DmaState, DmaError, BufferId, weight, input, output, host, dram_to_buffer,
  is_busy, bind_buffer,
}
use maps.Npu.Dma.Block.{place, put_rows, put_rows_inside, length-put_rows}
use maps.Npu.Dma.Moves.{IsFormed, completed}
use maps.Npu.Dma.Run.{dram_block}
use maps.Npu.Dma.Submit.{IsWords, StaysInRange}

-- An engine that is free for the next transfer of a memory of `n` words.
pub record IsFree (id : BufferId) (n : ℕ) (e : DmaEngine) : Type 0 where
  pub not_busy : is_busy e.state ≡ false
  pub bound_to : e.buffer ≡ some id
  pub memory_bound : is_null e.memory ≡ false
  pub size_known : e.dram_size ≡ n

-- The engine after `bind_buffer` when it is free.
abbrev pub bound_engine : BufferId → DmaEngine → DmaEngine
bound_engine id e = record e { buffer = some id; state = DmaState.idle; error = DmaError.no_error }

pub bind_buffer-free :
    (id : BufferId) (e : DmaEngine)
    → is_busy e.state ≡ false
    → bind_buffer (some id) e ≡ bound_engine id e
unfolding bind_buffer
bind_buffer-free id e h = rw h refl

-- A controller stays ready under a transfer that keeps the sizes.
pub moved_to-IsReadyNpu :
    (id : BufferId) (s : Npu) (b : Buffer) (e : DmaEngine) (m : Memory)
    → IsReadyNpu s
    → length b.words ≡ buffer_sizes
    → length m.words ≡ length s.memory.words
    → IsFree id (length s.memory.words) e
    → IsReadyNpu (moved_to id s b e m)
moved_to-IsReadyNpu weight s b e m ready size kept free = record {
  not_busy = free.not_busy;
  memory_bound = free.memory_bound;
  size_known = free.size_known ∙ sym kept;
  memory_small = rw kept ready.memory_small;
  input_size = ready.input_size;
  weight_size = size;
  output_size = ready.output_size;
}
moved_to-IsReadyNpu input s b e m ready size kept free = record {
  not_busy = free.not_busy;
  memory_bound = free.memory_bound;
  size_known = free.size_known ∙ sym kept;
  memory_small = rw kept ready.memory_small;
  input_size = size;
  weight_size = ready.weight_size;
  output_size = ready.output_size;
}
moved_to-IsReadyNpu output s b e m ready size kept free = record {
  not_busy = free.not_busy;
  memory_bound = free.memory_bound;
  size_known = free.size_known ∙ sym kept;
  memory_small = rw kept ready.memory_small;
  input_size = ready.input_size;
  weight_size = ready.weight_size;
  output_size = size;
}
moved_to-IsReadyNpu host s b e m ready size kept free = record {
  not_busy = free.not_busy;
  memory_bound = free.memory_bound;
  size_known = free.size_known ∙ sym kept;
  memory_small = rw kept ready.memory_small;
  input_size = ready.input_size;
  weight_size = ready.weight_size;
  output_size = ready.output_size;
}

-- A tile's element is the word of a block at 0.
pub tile_at-place :
    (cols : ℕ) (words : List ℕ) (r c : ℕ)
    → tile_at cols words r c ≡ get_or words (place 0 cols r c) 0
tile_at-place cols words r c = ap (λ p. get_or words p 0) (omega arith)

-- The block of `rlen` rows and `clen` columns at (r0, c0) of a matrix of `rows` rows and `cols`
-- columns at the byte address `base`.
pub record IsBlock (base rows cols r0 c0 rlen clen n : ℕ) : Type 0 where
  pub aligned : base % 4 ≡ 0
  pub end : word_addr base + rows * cols ≤ n
  pub r_pos : 0 < rlen
  pub c_pos : 0 < clen
  pub r_end : r0 + rlen ≤ rows
  pub c_end : c0 + clen ≤ cols
  pub fits : rlen * clen ≤ buffer_sizes
  pub rows_small : rows < 2 ^ 31
  pub cols_small : cols < 2 ^ 31
  pub memory_small : n ≤ 2 ^ 30

module _ (base rows cols r0 c0 rlen clen n : ℕ)
    (ok : IsBlock base rows cols r0 c0 rlen clen n) where
  abbrev pub block_req : DmaRequest
  block_req = record {
    direction = dram_to_buffer;
    dram_base = u32 (base + u32 ((r0 * cols + c0) * 4));
    buffer_base = 0;
    length = clen;
    rows = rlen;
    src_stride = cols;
    dst_stride = clen;
  }

  r0-lt : r0 < rows
  r0-lt = omega (arith, ok.r_end, ok.r_pos)

  c0-lt : c0 < cols
  c0-lt = omega (arith, ok.c_end, ok.c_pos)

  pub start_word : word_addr block_req.dram_base ≡ word_addr base + (r0 * cols + c0)
  start_word = address-word base rows cols r0 c0 n ok.aligned ok.end ok.memory_small r0-lt c0-lt

  -- A word of the block, by its row and column in the matrix.
  pub block_place :
      (r c : ℕ)
      → place (word_addr block_req.dram_base) cols r c
        ≡ place (word_addr base) cols (r0 + r) (c0 + c)
  block_place r c =
      ap (λ w. place w cols r c) start_word ∙ place_sub (word_addr base) cols r0 c0 r c

  pub block_in_memory :
      (r c : ℕ) → r < rlen → c < clen → place (word_addr block_req.dram_base) cols r c < n
  block_in_memory r c hr hc = rw (block_place r c) (
      place_in (word_addr base) rows cols n (r0 + r) (c0 + c) ok.end (omega (arith, ok.r_end))
        (omega (arith, ok.c_end)))

  pub block_in_buffer : (r c : ℕ) → r < rlen → c < clen → place 0 clen r c < buffer_sizes
  block_in_buffer r c hr hc = omega (arith, place-lt rlen clen r c hr hc, ok.fits)

  pub block-IsWords : IsWords block_req
  block-IsWords = let o = ok in omega arith

  pub block-IsFormed : IsFormed block_req
  block-IsFormed = record {
    length_pos = ok.c_pos;
    rows_pos = ok.r_pos;
    src_pos = omega (arith, ok.c_end, ok.c_pos);
    dst_pos = ok.c_pos;
    aligned = address-aligned base rows cols r0 c0 n ok.aligned ok.end ok.memory_small r0-lt c0-lt;
  }

  -- The transfer of the block: it succeeds, and the buffer holds the block row by row.
  pub fetched :
      (id : BufferId) (s : Npu)
      → IsReadyNpu s
      → s.controller.dma.buffer ≡ some id
      → length (buffer_at id s.controller).words ≡ buffer_sizes
      → length s.memory.words ≡ n
      → (b : Buffer) × (moved block_req s
          ≡ (moved_to id s b (completed block_req s.controller.dma) s.memory, some tt))
        × (length b.words ≡ buffer_sizes)
        × ((r c : ℕ)
            → r < rlen
            → c < clen
            → tile_at clen b.words r c
              ≡ get_or s.memory.words (place (word_addr base) cols (r0 + r) (c0 + c)) 0)
  fetched id s ready bound_to size same =
      let range : StaysInRange dram_to_buffer block_req
          (record { memory = s.memory; buffer = buffer_at id s.controller }) =
        λ r c hr hc. (
          subst (λ l. place (word_addr block_req.dram_base) cols r c < l) (sym same)
              (block_in_memory r c hr hc),
          subst (λ l. place 0 clen r c < l) (sym size) (block_in_buffer r c hr hc),
        ) in
      let (b, runs, words) =
        moved-load id block_req s ready bound_to size block-IsWords block-IsFormed refl range in
      let old = (buffer_at id s.controller).words in
      let value = dram_block block_req s.memory.words in
      (
        b,
        runs,
        ap length words ∙ length-put_rows 0 clen value clen 0 rlen old ∙ size,
        λ r c hr hc.
            ap (λ w. tile_at clen w r c) words
            ∙ tile_at-place clen (put_rows 0 clen value clen 0 rlen old) r c
            ∙ put_rows_inside 0 clen value clen 0 rlen old r c (omega arith)
                (λ r' p q. omega (arith, size, row_below clen r' rlen (omega arith), ok.fits))
                (omega arith) (omega arith) hc
            ∙ ap (λ p. get_or s.memory.words p 0) (block_place r c),
      )
