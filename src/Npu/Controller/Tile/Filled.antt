-- ===== src/Npu/Controller/Tile/Filled.antt =====
-- The steps of `compute_tile`: the tiles read from the buffers, the run of the array and the output
-- buffer filled with its result.
use maps.Prelude.{
  ℕ, zero, suc, [], ◌∷◌, ◌+◌, ◌*◌, ◌<◌, ◌≤◌, ◌≡◌, ◌==◌, ◌++◌, refl, ◌∙◌, true, some, Option, List,
  length, get_or, arith, take, drop, replicate, u32, u64, if◌then◌else◌, length-take,
  get_or-append_left, get_or-take, length-replicate,
}
use maps.Npu.Array.{run_gemm_tile, TileResult}
use maps.Npu.Array.Tile.{tile_at, place-lt}
use maps.Npu.Buffer
use maps.Npu.Buffer.{Buffer}
use maps.Npu.Buffer.Access.{dump_in_range, load_in_range}
use maps.Npu.Controller.Monad.{Npu, buffer_at, set_buffer}
use maps.Npu.Controller.Tile.{dumped, compute, fill_output}
use maps.Npu.Descriptor.{Descriptor}
use maps.Npu.Dma.{BufferId}
use maps.Npu.Schedule.{GemmTile}

-- The first `len` words of a list, with anything after them.
pub get_or-take_append :
    (words rest : List ℕ) (len p : ℕ)
    → len ≤ length words
    → p < len
    → get_or (take len words ++ rest) p 0 ≡ get_or words p 0
get_or-take_append words rest len p room h =
    let taken = length-take len words room in
    get_or-append_left (take len words) rest p 0 (omega (arith, taken))
    ∙ get_or-take len words p 0 h

pub length-drop :
    (len : ℕ) (words : List ℕ) → len ≤ length words → length (drop len words) + len ≡ length words
length-drop zero words h = omega arith
length-drop (suc len) [] h = absurd (omega arith)
length-drop (suc len) (x ∷ words) h = omega (arith, length-drop len words)

-- What `dumped` gives: the first words of the buffer.
abbrev pub dump_of : List ℕ → ℕ → List ℕ
dump_of words len = take len words ++ drop len (replicate len 0)

abbrev pub read_buffer : Buffer → ℕ → Buffer
read_buffer b len = record b { read_count = u64 (b.read_count + len) }

pub dumped_lem :
    (id : BufferId) (len : ℕ) (s : Npu)
    → len ≤ length (buffer_at id s.controller).words
    → dumped id len s ≡ (
      record s {
        controller = set_buffer id (read_buffer (buffer_at id s.controller) len) s.controller;
      },
      some (dump_of (buffer_at id s.controller).words len),
    )
unfolding dumped
dumped_lem id len s room =
    rw (dump_in_range (buffer_at id s.controller) (replicate len 0) len room) refl

pub tile_at-dump_of :
    (rows cols len : ℕ) (words : List ℕ) (i j : ℕ)
    → len ≡ rows * cols
    → len ≤ length words
    → i < rows
    → j < cols
    → tile_at cols (dump_of words len) i j ≡ tile_at cols words i j
tile_at-dump_of rows cols len words i j same room hi hj =
    get_or-take_append words (drop len (replicate len 0)) len (i * cols + j) room
      (omega (arith, place-lt rows cols i j hi hj, same))

pub compute_lem :
    (d : Descriptor) (t : GemmTile) (a b : List ℕ) (c_in : Option (List ℕ)) (s : Npu)
    → let r =
        run_gemm_tile d.mode
          (some a)
          (some b)
          c_in
          t.m_len
          t.n_len
          t.k_len
          (some (replicate (u32 (t.m_len * t.n_len)) 0))
          s.controller.array in
      r.done ≡ true
      → compute d t a b c_in s ≡ (
        record s {
          controller = record (s.controller) {
            array = r.array;
            perf = record (s.controller.perf) {
              cycle_count = u64 (s.controller.perf.cycle_count + r.cycles);
              mac_count = u64 (s.controller.perf.mac_count + u64 (t.m_len * t.n_len * t.k_len));
            };
          };
        },
        some r.c_out,
      )
unfolding compute
compute_lem d t a b c_in s done = rw done refl

pub fill_output_lem :
    (out : List ℕ) (len : ℕ) (s : Npu)
    → len ≤ length s.controller.output_buffer.words
    → (o : Buffer) × (fill_output (some out) len s
        ≡ (record s { controller = record (s.controller) { output_buffer = o } }, some tt))
      × (o.words ≡ take len out ++ drop len (replicate (length s.controller.output_buffer.words) 0))
unfolding fill_output Buffer.reset
fill_output_lem out len s room =
    let cleared = Buffer.reset s.controller.output_buffer in
    let room' : len ≤ length cleared.words =
      omega (arith, length-replicate {A = ℕ} (length s.controller.output_buffer.words) 0, room) in
    (
      record cleared {
        words = take len out ++ drop len cleared.words;
        write_count = u64 (cleared.write_count + len);
      },
      rw (load_in_range cleared out len room') refl,
      refl,
    )

pub le_mul : (a b : ℕ) → 0 < b → a ≤ a * b
le_mul a b h = grind arith

pub mul_comm : (a b : ℕ) → a * b ≡ b * a
mul_comm a b = grind arith

-- Where the sum of the tile's element at (i, j) starts.
abbrev pub start : GemmTile → Npu → ℕ → ℕ → ℕ
start t s i j = if t.k0 == 0 then 0 else tile_at t.n_len s.controller.output_buffer.words i j

abbrev pub with_output : Npu → Buffer → Npu
with_output s o = record s { controller = record (s.controller) { output_buffer = o } }

abbrev pub put_buffer : BufferId → Buffer → Npu → Npu
put_buffer id b s = record s { controller = set_buffer id b s.controller }

-- The controller after the array has run.
abbrev pub computed : TileResult → GemmTile → Npu → Npu
computed r t s = record s {
  controller = record (s.controller) {
    array = r.array;
    perf = record (s.controller.perf) {
      cycle_count = u64 (s.controller.perf.cycle_count + r.cycles);
      mac_count = u64 (s.controller.perf.mac_count + u64 (t.m_len * t.n_len * t.k_len));
    };
  };
}
