-- ===== src/Npu/Controller/Tile.antt =====
-- `Controller::run_tile`: one tile from DRAM through the buffers and the array and back.
pub mod Move
pub mod Layout
pub mod Fetch
pub mod Load
pub mod Filled
pub mod Compute
pub mod Correct
pub mod Error
use maps.Prelude.{
  ℕ, ◌+◌, ◌*◌, Bool, not, ◌||◌, Option, none, some, List, [], replicate, ltb, ◌==◌, if◌then◌else◌,
  u32, u64,
}
use maps.Npu.Array.{run_gemm_tile}
use mathlib.Core.Option
use maps.Npu.Buffer
use maps.Npu.Dma.{DmaRequest, dram_to_buffer, buffer_to_dram, BufferId, weight, input, output}
use maps.Npu.Descriptor.{Descriptor}
use maps.Npu.Schedule.{GemmTile}
use maps.Npu.Status.{out_of_range, buffer_fail}
use maps.Npu.Controller.Monad.{
  Controller, M, pure, ◌>>=◌, ◌>>◌, modify, check, bind_dma, transfer, buffer_at, set_buffer,
}

pub byte_offset_a : Descriptor → ℕ → ℕ → ℕ
byte_offset_a d m k = u32 ((m * d.matrix_k + k) * 4)

pub byte_offset_b : Descriptor → ℕ → ℕ → ℕ
byte_offset_b d k n = u32 ((k * d.matrix_n + n) * 4)

pub byte_offset_c : Descriptor → ℕ → ℕ → ℕ
byte_offset_c d m n = u32 ((m * d.matrix_n + n) * 4)

-- The four requests of a tile.
abbrev pub req_a : Descriptor → GemmTile → DmaRequest
req_a d tile = record {
  direction = dram_to_buffer;
  dram_base = u32 (d.matrix_a_base + byte_offset_a d tile.m0 tile.k0);
  buffer_base = 0;
  length = tile.k_len;
  rows = tile.m_len;
  src_stride = d.matrix_k;
  dst_stride = tile.k_len;
}

abbrev pub req_b : Descriptor → GemmTile → DmaRequest
req_b d tile = record {
  direction = dram_to_buffer;
  dram_base = u32 (d.matrix_b_base + byte_offset_b d tile.k0 tile.n0);
  buffer_base = 0;
  length = tile.n_len;
  rows = tile.k_len;
  src_stride = d.matrix_n;
  dst_stride = tile.n_len;
}

abbrev pub req_c_in : Descriptor → GemmTile → DmaRequest
req_c_in d tile = record {
  direction = dram_to_buffer;
  dram_base = u32 (d.matrix_c_base + byte_offset_c d tile.m0 tile.n0);
  buffer_base = 0;
  length = tile.n_len;
  rows = tile.m_len;
  src_stride = d.matrix_n;
  dst_stride = tile.n_len;
}

abbrev pub req_c_out : Descriptor → GemmTile → DmaRequest
req_c_out d tile = record {
  direction = buffer_to_dram;
  dram_base = u32 (d.matrix_c_base + byte_offset_c d tile.m0 tile.n0);
  buffer_base = 0;
  length = tile.n_len;
  rows = tile.m_len;
  src_stride = tile.n_len;
  dst_stride = d.matrix_n;
}

abbrev pub count_read : ℕ → M (Unit {0})
count_read n =
    modify
      λ c. record c { perf = record (c.perf) { dma_read_count = u64 (c.perf.dma_read_count + n) } }

abbrev pub count_write : ℕ → M (Unit {0})
count_write n =
    modify λ c. record c {
      perf = record (c.perf) { dma_write_count = u64 (c.perf.dma_write_count + n) };
    }

-- `if (!dma_.submit(req) || !dma_.run_sync()) { error_ = BUFFER_FAIL; return false; }`.
pub moved : DmaRequest → M (Unit {0})
moved req = do ok ← transfer req; check ok buffer_fail

-- `buffer.dump(tile.data(), len)` into a tile of `len` zeros, `BUFFER_FAIL` if it fails.
pub dumped : BufferId → ℕ → M (List ℕ)
dumped id len s =
    let (b, out, ok) = Buffer.dump (buffer_at id s.controller) (some (replicate len 0)) len in
    (check ok buffer_fail >> pure (Option.get_or out []))
      (record s { controller = set_buffer id b s.controller })

-- `output_buffer_.reset()`.
abbrev pub reset_output : M (Unit {0})
reset_output = modify λ c. record c { output_buffer = Buffer.reset c.output_buffer }

-- The partial sums of the earlier tiles are read back, except at `k0 == 0`.
pub load_c_in : Descriptor → GemmTile → M (Unit {0})
unfolding moved
load_c_in d tile =
    if tile.k0 == 0
    then pure tt
    else (do moved (req_c_in d tile); count_read (tile.n_len * tile.m_len))

-- `c_in_ptr`.
pub c_in_tile : GemmTile → M (Option (List ℕ))
unfolding dumped
c_in_tile tile =
    if tile.k0 == 0
    then pure none
    else (do c_in ← dumped output (u32 (tile.m_len * tile.n_len)); pure (some c_in))

-- `array_.run_gemm_tile(...)` and its counts; the tile that it fills.
pub compute : Descriptor → GemmTile → List ℕ → List ℕ → Option (List ℕ) → M (Option (List ℕ))
compute d tile a b c_in s =
    let r =
      run_gemm_tile d.mode (some a) (some b) c_in tile.m_len tile.n_len tile.k_len
        (some (replicate (u32 (tile.m_len * tile.n_len)) 0)) s.controller.array in
    (do
      check r.done buffer_fail
      modify λ c. record c {
        perf = record (c.perf) {
          cycle_count = u64 (c.perf.cycle_count + r.cycles);
          mac_count = u64 (c.perf.mac_count + u64 (tile.m_len * tile.n_len * tile.k_len));
        };
      }
      pure r.c_out)
      (record s { controller = record (s.controller) { array = r.array } })

-- The output buffer is cleared and filled with the tile.
pub fill_output : Option (List ℕ) → ℕ → M (Unit {0})
fill_output c_out len s =
    let (b, ok) = Buffer.load (Buffer.reset s.controller.output_buffer) c_out len in
    check ok buffer_fail (record s { controller = record (s.controller) { output_buffer = b } })

-- The tile is larger than a buffer.
abbrev pub exceeds : Controller → GemmTile → Bool
exceeds c tile =
    ltb (Buffer.size c.input_buffer) (u32 (tile.m_len * tile.k_len))
    || ltb (Buffer.size c.weight_buffer) (u32 (tile.k_len * tile.n_len))
    || ltb (Buffer.size c.output_buffer) (u32 (tile.m_len * tile.n_len))

-- The A tile into the input buffer, the B tile into the weight buffer and, after the first tile
-- of a sum, the C tile into the output buffer.
pub load_tiles : Descriptor → GemmTile → M (Unit {0})
unfolding moved load_c_in
load_tiles d tile = do
  bind_dma input
  moved (req_a d tile)
  count_read (tile.k_len * tile.m_len)
  bind_dma weight
  moved (req_b d tile)
  count_read (tile.n_len * tile.k_len)
  reset_output
  bind_dma output
  load_c_in d tile

-- From the buffers through the array into the output buffer.
pub compute_tile : Descriptor → GemmTile → M (Unit {0})
unfolding dumped c_in_tile compute fill_output
compute_tile d tile = do
  a ← dumped input (u32 (tile.m_len * tile.k_len))
  b ← dumped weight (u32 (tile.k_len * tile.n_len))
  c_in ← c_in_tile tile
  c_out ← compute d tile a b c_in
  fill_output c_out (u32 (tile.m_len * tile.n_len))

-- The output buffer into DRAM.
pub store_tile : Descriptor → GemmTile → M (Unit {0})
unfolding moved
store_tile d tile = do moved (req_c_out d tile); count_write (tile.n_len * tile.m_len)

unfoldable pub run_tile : GemmTile → M (Unit {0})
run_tile tile s =
    let d = s.controller.current_desc in
    (do
      check (not (exceeds s.controller tile)) out_of_range
      load_tiles d tile
      compute_tile d tile
      store_tile d tile)
      s
