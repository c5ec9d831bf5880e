-- ===== src/Loader/Tests.antt =====
-- Words loaded into a small memory.
use maps.Prelude.{
  ℕ, zero, suc, ◌+◌, ◌*◌, ◌≡◌, ◌<◌, ◌&&◌, refl, ap, Bool, true, some, List, [], ◌∷◌, arith, ltb,
  bound,
}
use maps.Bus.{Bus, Store}
use maps.Bus.Bytes.{byte_at}
use maps.Loader.{load_words, load_elf}
use maps.Loader.Elf.{load_elf-HoldsBytes}
use maps.Loader.Format.{segment_at, le32, is_elf}
use maps.Loader.Refuses.{IsFormed, load_elf-IsFormed}
use maps.Loader.Bytes.{IsBytes, HoldsBytes, with_memory}
use maps.Loader.Segment.{IsLoadable}
use maps.Loader.Segments.{AllLoadable, image_byte}
use maps.Loader.Words.{load_words-HasWords}
use maps.Memory.{Memory}
use maps.Memory.Transfer.{HasWords}
use maps.Npu.Device

abbrev bus : Bus
bus = record { memory = bound; npu = bound; console_output = bound }

abbrev memory : Memory
memory = record { words = 9 ∷ 9 ∷ 9 ∷ 9 ∷ [] }

abbrev store : Store
store = record { memory = memory; npu = Device.make; console = [] }

load_words-HasWords_example :
    (m' : Memory) × (load_words memory 1 (some (5 ∷ 6 ∷ 7 ∷ [])) 2 ≡ (m', true))
    × HasWords 1 0 (0 + 2) (5 ∷ 6 ∷ 7 ∷ []) memory.words m'.words
load_words-HasWords_example =
    load_words-HasWords memory 1 (5 ∷ 6 ∷ 7 ∷ []) 2 (omega arith) (omega arith)

-- An executable of one segment: three bytes for address 4, of which the file holds two.
abbrev elf_file : List ℕ
elf_file =
    0x7f ∷ b'E' ∷ b'L' ∷ b'F' ∷ 1 ∷ 1 ∷ 1 ∷ 0 ∷ 0 ∷ 0 ∷ 0 ∷ 0 ∷ 0 ∷ 0 ∷ 0 ∷ 0 ∷ 2 ∷ 0 ∷ 243 ∷ 0 ∷ 1
    ∷ 0 ∷ 0 ∷ 0 ∷ 4 ∷ 0 ∷ 0 ∷ 0 ∷ 52 ∷ 0 ∷ 0 ∷ 0 ∷ 0 ∷ 0 ∷ 0 ∷ 0 ∷ 0 ∷ 0 ∷ 0 ∷ 0 ∷ 52 ∷ 0 ∷ 32 ∷ 0
    ∷ 1 ∷ 0 ∷ 0 ∷ 0 ∷ 0 ∷ 0 ∷ 0 ∷ 0 ∷ 1 ∷ 0 ∷ 0 ∷ 0 ∷ 84 ∷ 0 ∷ 0 ∷ 0 ∷ 4 ∷ 0 ∷ 0 ∷ 0 ∷ 4 ∷ 0 ∷ 0 ∷ 0
    ∷ 2 ∷ 0 ∷ 0 ∷ 0 ∷ 3 ∷ 0 ∷ 0 ∷ 0 ∷ 5 ∷ 0 ∷ 0 ∷ 0 ∷ 4 ∷ 0 ∷ 0 ∷ 0 ∷ 19 ∷ 7 ∷ []

all_bytes : List ℕ → Bool
all_bytes [] = true
all_bytes (x ∷ bytes) = ltb x 256 && all_bytes bytes

all_bytes-IsBytes : (bytes : List ℕ) → all_bytes bytes ≡ true → IsBytes bytes
unfolding all_bytes
all_bytes-IsBytes [] h i = omega arith
all_bytes-IsBytes (x ∷ bytes) h zero = ground (arith, h)
all_bytes-IsBytes (x ∷ bytes) h (suc i) = all_bytes-IsBytes bytes (ground (arith, h)) i

elf_file-IsBytes : IsBytes elf_file
unfolding all_bytes
elf_file-IsBytes = all_bytes-IsBytes elf_file refl

elf_segment_fits : (j : ℕ) → j < 1 → IsLoadable bus 4 86 (segment_at elf_file (52 + j * 32))
elf_segment_fits zero h = record {
  file_part = omega arith;
  in_file = omega arith;
  room = record {
    memory_bound = refl;
    below_devices = omega arith;
    memory_small = omega arith;
    in_memory = omega arith;
  };
}
elf_segment_fits (suc j) h = absurd (omega arith)

elf_all : is_elf elf_file ≡ true → AllLoadable bus elf_file 52 32 4 0 1
elf_all = λ e j p q type. elf_segment_fits j q

load_elf-HoldsBytes_example :
    (m : Memory) × (load_elf bus (some elf_file) store ≡ (with_memory store m, 4, true))
    × HoldsBytes
        (λ x. image_byte elf_file 52 32 x 0 1 (byte_at memory.words x))
        memory.words
        m.words
load_elf-HoldsBytes_example =
    load_elf-HoldsBytes bus elf_file store elf_file-IsBytes (omega arith) elf_all

elf_loads : (load_elf bus (some elf_file) store).2 ≡ true
elf_loads =
    let (m, runs, has) =
      load_elf-HoldsBytes bus elf_file store elf_file-IsBytes (omega arith) elf_all in
    ap (λ (r : Store × ℕ × Bool). r.2) runs

load_elf-IsFormed_example :
    (is_elf elf_file ≡ true)
    × ((j : ℕ)
        → j < 1
        → le32 elf_file (52 + j * 32) ≡ 1
        → IsFormed 86 (segment_at elf_file (52 + j * 32)))
load_elf-IsFormed_example =
    load_elf-IsFormed bus elf_file store elf_file-IsBytes (omega arith) elf_loads
