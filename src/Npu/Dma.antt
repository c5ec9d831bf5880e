-- ===== src/Npu/Dma.antt =====
-- `DmaEngine`: src/maps-sim/src/npu/dma.cpp. The memory and the buffer that its pointers lead to are
-- handed to the operations; `buffer` says which of the controller's buffers that is.
pub mod Block
pub mod Run
pub mod Store
pub mod Submit
pub mod Moves
pub mod Tests
use maps.Prelude.{
  ℕ, zero, suc, ◌+◌, ◌-◌, ◌*◌, ◌%◌, Bool, true, false, not, ◌||◌, Option, none, some, Ptr, null,
  bound, is_null, ltb, leb, ◌==◌, if◌then◌else◌, u32, u64,
}
use maps.Memory.{Memory}
use maps.Memory
use maps.Npu.Buffer.{Buffer}
use maps.Npu.Buffer
use maps.Npu.Descriptor.{is_word_aligned, word_addr}

pub data DmaState : Type 0 where
  idle busy done error : DmaState

pub data DmaError : Type 0 where
  no_error invalid_param out_of_range null_ptr not_ready : DmaError

-- `unknown` is a value that names no enumerator.
pub data DmaDirection : Type 0 where
  dram_to_buffer buffer_to_dram unknown : DmaDirection

pub data BufferId : Type 0 where
  weight input output host : BufferId

pub record DmaStats : Type 0 where
  pub bytes_moved : ℕ
  pub transfer_count : ℕ
  pub cycle_count : ℕ

pub record DmaRequest : Type 0 where
  pub direction : DmaDirection
  pub dram_base : ℕ
  pub buffer_base : ℕ
  pub length : ℕ
  pub rows : ℕ
  pub src_stride : ℕ
  pub dst_stride : ℕ

pub record DmaEngine : Type 0 where
  pub buffer : Option BufferId
  pub memory : Ptr
  pub dram_size : ℕ
  pub current_req : DmaRequest
  pub has_request : Bool
  pub state : DmaState
  pub error : DmaError
  pub stats : DmaStats

abbrev pub no_request : DmaRequest
no_request = record {
  direction = dram_to_buffer;
  dram_base = 0;
  buffer_base = 0;
  length = 0;
  rows = 0;
  src_stride = 0;
  dst_stride = 0;
}

abbrev pub no_stats : DmaStats
no_stats = record { bytes_moved = 0; transfer_count = 0; cycle_count = 0 }

abbrev pub make : DmaEngine
make = record {
  buffer = none;
  memory = null;
  dram_size = 0;
  current_req = no_request;
  has_request = false;
  state = idle;
  error = no_error;
  stats = no_stats;
}

abbrev pub is_busy : DmaState → Bool
is_busy busy = true
is_busy _ = false

-- `mem` with what it points to.
unfoldable pub bind_memory : Ptr → Memory → DmaEngine → DmaEngine
bind_memory null mem d = record d { state = error; error = null_ptr }
bind_memory bound mem d =
    let d' = record d { memory = bound; dram_size = Memory.size mem } in
    if is_busy d.state then d' else record d' { state = idle; error = no_error }

unfoldable pub bind_buffer : Option BufferId → DmaEngine → DmaEngine
bind_buffer none d = record d { state = error; error = null_ptr }
bind_buffer (some buf) d =
    let d' = record d { buffer = some buf } in
    if is_busy d.state then d' else record d' { state = idle; error = no_error }

abbrev pub fail : DmaError → DmaEngine → DmaEngine × Bool
fail e d = (record d { state = error; error = e }, false)

abbrev pub is_unbound : Option BufferId → Bool
is_unbound none = true
is_unbound (some _) = false

-- `base + (rows - 1) * stride + (length - 1)` on UINT64, the last word that a side touches.
abbrev pub last_word : ℕ → ℕ → DmaRequest → ℕ
last_word base stride req = u64 (base + (req.rows - 1) * stride + (req.length - 1))

-- The request leaves the memory or the buffer, by its direction; `none` is no direction.
pub leaves_range : DmaDirection → ℕ → ℕ → DmaRequest → Option Bool
leaves_range dram_to_buffer dram_size buffer_size req = some (
    leb dram_size (last_word (word_addr req.dram_base) req.src_stride req)
    || leb buffer_size (last_word req.buffer_base req.dst_stride req))
leaves_range buffer_to_dram dram_size buffer_size req = some (
    leb buffer_size (last_word req.buffer_base req.src_stride req)
    || leb dram_size (last_word (word_addr req.dram_base) req.dst_stride req))
leaves_range unknown dram_size buffer_size req = none

abbrev pub is_malformed : DmaRequest → Bool
is_malformed req =
    req.length == 0
    || req.rows == 0
    || req.src_stride == 0
    || req.dst_stride == 0
    || not (is_word_aligned req.dram_base)

unfoldable pub submit : Buffer → DmaRequest → DmaEngine → DmaEngine × Bool
unfolding leaves_range
submit buf req d =
    if is_busy d.state
    then fail not_ready d
    else if is_unbound d.buffer || is_null d.memory
    then fail null_ptr d
    else if is_malformed req
    then fail invalid_param d
    else elim (leaves_range req.direction d.dram_size (Buffer.size buf) req) [
      | none ↦ fail invalid_param d
      | some true ↦ fail out_of_range d
      | some false ↦
          (record d { current_req = req; has_request = true; state = busy; error = no_error }, true)
    ]

-- The memory and the buffer during a transfer.
pub record Transfer : Type 0 where
  pub memory : Memory
  pub buffer : Buffer

-- One round of the inner loop; the error is `no_error` where the loop goes on.
pub step : DmaDirection → DmaRequest → ℕ → ℕ → Transfer → Transfer × DmaError
step dram_to_buffer req r c t =
    elim (Memory.read t.memory (u32 (word_addr req.dram_base + r * req.src_stride + c))) [
      | none ↦ (t, out_of_range)
      | some value ↦
          let (buffer', written) =
            Buffer.write t.buffer (u32 (req.buffer_base + r * req.dst_stride + c)) value in
          if written then (record t { buffer = buffer' }, no_error) else (t, out_of_range)
    ]
step buffer_to_dram req r c t =
    let (buffer', value) = Buffer.read t.buffer (u32 (req.buffer_base + r * req.src_stride + c)) in
    elim value [
      | none ↦ (t, out_of_range)
      | some value ↦
          let (memory', written) =
            Memory.write t.memory (u32 (word_addr req.dram_base + r * req.dst_stride + c)) value in
          if written
          then (record { memory = memory'; buffer = buffer' }, no_error)
          else (record t { buffer = buffer' }, out_of_range)
    ]
step unknown req r c t = (t, invalid_param)

-- The rounds of row `r` from column `c` on, `n` of them.
pub row_loop : DmaRequest → ℕ → ℕ → ℕ → Transfer → Transfer × DmaError
row_loop req r c zero t = (t, no_error)
row_loop req r c (suc n) t =
    let (t', e) = step req.direction req r c t in
    elim e [ no_error ↦ row_loop req r (c + 1) n t' | e' ↦ (t', e') ]

-- The rows from `r` on, `n` of them.
pub rows_loop : DmaRequest → ℕ → ℕ → Transfer → Transfer × DmaError
rows_loop req r zero t = (t, no_error)
rows_loop req r (suc n) t =
    let (t', e) = row_loop req r 0 req.length t in
    elim e [ no_error ↦ rows_loop req (r + 1) n t' | e' ↦ (t', e') ]

pub record RunResult : Type 0 where
  pub engine : DmaEngine
  pub transfer : Transfer
  pub done : Bool

pub finish : DmaEngine → Transfer → DmaError → RunResult
finish d t no_error =
    let elems = u64 (d.current_req.length * d.current_req.rows) in
    record {
      engine = record d {
        stats = record {
          bytes_moved = u64 (d.stats.bytes_moved + u64 (elems * 4));
          transfer_count = u64 (d.stats.transfer_count + 1);
          cycle_count = u64 (d.stats.cycle_count + elems);
        };
        has_request = false;
        state = done;
        error = no_error;
      };
      transfer = t;
      done = true;
    }
finish d t e = record { engine = record d { state = error; error = e }; transfer = t; done = false }

unfoldable pub run_sync : Transfer → DmaEngine → RunResult
unfolding finish
run_sync t d =
    if not d.has_request || not (is_busy d.state)
    then record {
      engine = record d { state = error; error = not_ready };
      transfer = t;
      done = false;
    }
    else (let (t', e) = rows_loop d.current_req 0 d.current_req.rows t in finish d t' e)

unfoldable pub reset : DmaEngine → DmaEngine
reset d = record d {
  has_request = false;
  current_req = no_request;
  state = idle;
  error = no_error;
  stats = no_stats;
}
