-- ===== src/Npu/Dma/Tests.antt =====
-- Transfers at concrete inputs.
use maps.Prelude.{◌≡◌, ◌↔◌, refl, true, false, some, [], ◌∷◌, arith, bound}
use maps.Memory
use maps.Npu.Buffer
use maps.Npu.Descriptor.{word_addr, is_word_aligned}
use maps.Npu.Dma.{
  DmaRequest, DmaEngine, DmaState, DmaError, Transfer, dram_to_buffer, buffer_to_dram, submit,
  run_sync, rows_loop, row_loop, step, input, no_request, no_stats,
}
use maps.Npu.Dma.Block.{HasBlock}
use maps.Npu.Dma.Run.{dram_block}
use maps.Npu.Dma.Store.{buffer_block}
use maps.Npu.Dma.Submit.{IsWords, IsReady, IsSmall, StaysInRange, IsKnown}
use maps.Npu.Dma.Moves.{IsFormed, submit_iff, load_moves, store_moves, holding, completed}

abbrev world : Transfer
world = record {
  memory = record { words = 1 ∷ 2 ∷ 3 ∷ 4 ∷ 5 ∷ 6 ∷ 7 ∷ 8 ∷ [] };
  buffer = record { words = 0 ∷ 0 ∷ 0 ∷ 0 ∷ []; read_count = 0; write_count = 0 };
}

abbrev engine : DmaEngine
engine = record {
  buffer = some input;
  memory = bound;
  dram_size = 8;
  current_req = no_request;
  has_request = false;
  state = DmaState.idle;
  error = DmaError.no_error;
  stats = no_stats;
}

-- Two rows of two words from DRAM word 1 with stride 4, and back.
abbrev fetch : DmaRequest
fetch = record {
  direction = dram_to_buffer;
  dram_base = 4;
  buffer_base = 0;
  length = 2;
  rows = 2;
  src_stride = 4;
  dst_stride = 2;
}

abbrev put_back : DmaRequest
put_back = record {
  direction = buffer_to_dram;
  dram_base = 4;
  buffer_base = 0;
  length = 2;
  rows = 2;
  src_stride = 2;
  dst_stride = 4;
}

fetch_runs :
    (run_sync world (submit world.buffer fetch engine).0).transfer.buffer.words ≡ 2 ∷ 3 ∷ 6 ∷ 7 ∷ []
unfolding submit run_sync word_addr is_word_aligned Memory.read Buffer.write Buffer.size rows_loop
    row_loop step
fetch_runs = refl

fetch-IsWords : IsWords fetch
fetch-IsWords = omega arith

engine-IsReady : IsReady engine world.memory
engine-IsReady = record {
  not_busy = refl;
  buffer_bound = refl;
  memory_bound = refl;
  size_known = refl;
}

world-IsSmall : IsSmall world
world-IsSmall = omega arith

fetch_in_range : StaysInRange dram_to_buffer fetch world
unfolding word_addr
fetch_in_range r c hr hc = (omega arith, omega arith)

put_back_in_range : StaysInRange buffer_to_dram put_back world
unfolding word_addr
put_back_in_range r c hr hc = (omega arith, omega arith)

submit_iff_example :
    ((submit world.buffer fetch engine).1 ≡ true)
    ↔ (IsFormed fetch × IsKnown dram_to_buffer × StaysInRange dram_to_buffer fetch world)
submit_iff_example = submit_iff fetch engine world fetch-IsWords engine-IsReady world-IsSmall

load_moves_example :
    let r = run_sync world (holding fetch engine) in
    (r.done ≡ true)
    × (r.engine ≡ completed fetch engine)
    × (r.transfer.memory ≡ world.memory)
    × HasBlock 0 2
        (dram_block fetch world.memory.words)
        2
        2
        world.buffer.words
        r.transfer.buffer.words
load_moves_example = load_moves fetch engine world world-IsSmall refl (omega arith) fetch_in_range

store_moves_example :
    let r = run_sync world (holding put_back engine) in
    (r.done ≡ true)
    × (r.engine ≡ completed put_back engine)
    × (r.transfer.buffer.words ≡ world.buffer.words)
    × HasBlock
        (word_addr 4)
        4
        (buffer_block put_back world.buffer.words)
        2
        2
        world.memory.words
        r.transfer.memory.words
store_moves_example =
    store_moves put_back engine world world-IsSmall refl (omega arith) put_back_in_range
