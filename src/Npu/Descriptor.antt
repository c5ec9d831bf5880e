-- ===== src/Npu/Descriptor.antt =====
-- `Descriptor`, the ten words that describe a GEMM: src/maps-sim/src/npu/descriptor.cpp.
pub mod Valid
pub mod Roundtrip
pub mod Tests
use maps.Prelude.{
  ℕ, zero, suc, ◌+◌, ◌/◌, ◌%◌, ◌^◌, ◌<◌, ◌≤◌, ◌≡◌, Bool, true, false, not, ◌&&◌, ◌||◌, Option, none,
  some, List, [], ◌∷◌, ltb, leb, ◌==◌, if◌then◌else◌, u32, get_or,
}
use maps.Npu.Config.{Dataflow, ws, os, is, other, array_rows, array_cols, tile_sizes}
use maps.Memory.{Memory}
use maps.Memory

unfoldable pub is_word_aligned : ℕ → Bool
is_word_aligned addr = addr % 4 == 0

unfoldable pub word_addr : ℕ → ℕ
word_addr byte_addr = byte_addr / 4

pub record Descriptor : Type 0 where
  pub matrix_m : ℕ
  pub matrix_n : ℕ
  pub matrix_k : ℕ
  pub mode : Dataflow
  pub matrix_a_base : ℕ
  pub matrix_b_base : ℕ
  pub matrix_c_base : ℕ
  pub tile_m : ℕ
  pub tile_n : ℕ
  pub tile_k : ℕ

-- The constructor calls `reset`, which sets every field.
abbrev pub make : Descriptor
make = record {
  matrix_m = 0;
  matrix_n = 0;
  matrix_k = 0;
  mode = os;
  matrix_a_base = 0;
  matrix_b_base = 0;
  matrix_c_base = 0;
  tile_m = tile_sizes;
  tile_n = tile_sizes;
  tile_k = tile_sizes;
}

abbrev pub reset : Descriptor → Descriptor
reset d = make

abbrev pub set_matrix_mnk : ℕ → ℕ → ℕ → Descriptor → Descriptor
set_matrix_mnk m n k d = record d { matrix_m = m; matrix_n = n; matrix_k = k }

abbrev pub set_matrix_base : ℕ → ℕ → ℕ → Descriptor → Descriptor
set_matrix_base a b c d = record d { matrix_a_base = a; matrix_b_base = b; matrix_c_base = c }

abbrev pub set_dataflow : Dataflow → Descriptor → Descriptor
set_dataflow mode d = record d { mode = mode }

abbrev pub set_tile : ℕ → ℕ → ℕ → Descriptor → Descriptor
set_tile m n k d = record d { tile_m = m; tile_n = n; tile_k = k }

-- The `switch` of `validate`.
unfoldable pub tile_fits : Dataflow → ℕ → ℕ → ℕ → Bool
tile_fits os m n k = not (ltb array_rows m || ltb array_cols n)
tile_fits ws m n k = not (ltb array_rows k || ltb array_cols n)
tile_fits is m n k = not (ltb array_rows m || ltb array_cols k)
tile_fits (other _) m n k = false

unfoldable pub validate : Descriptor → Bool
unfolding tile_fits is_word_aligned
validate d =
    if d.matrix_m == 0 || d.matrix_n == 0 || d.matrix_k == 0
    then false
    else if d.tile_m == 0 || d.tile_n == 0 || d.tile_k == 0
    then false
    else if not (tile_fits d.mode d.tile_m d.tile_n d.tile_k)
    then false
    else if d.matrix_a_base == 0 || d.matrix_b_base == 0 || d.matrix_c_base == 0
    then false
    else if not (is_word_aligned d.matrix_a_base)
        || not (is_word_aligned d.matrix_b_base)
        || not (is_word_aligned d.matrix_c_base)
    then false
    else true

-- `static_cast<dataflow>(raw)` of a raw word that is not negative, and the cast back.
unfoldable pub dataflow_of : ℕ → Dataflow
dataflow_of zero = ws
dataflow_of (suc zero) = os
dataflow_of (suc (suc zero)) = is
dataflow_of (suc (suc (suc n))) = other (suc (suc (suc n)))

unfoldable pub dataflow_word : Dataflow → ℕ
dataflow_word ws = 0
dataflow_word os = 1
dataflow_word is = 2
dataflow_word (other n) = n

abbrev pub word_count : ℕ
word_count = 10

-- The loop of `load_from_memory` from word `i` on: `n` words, or `none` at the first that cannot
-- be read or is negative.
read_words : Memory → ℕ → ℕ → ℕ → Option (List ℕ)
read_words memory base_word i zero = some []
read_words memory base_word i (suc n) = elim (Memory.read memory (u32 (base_word + i))) [
  | none ↦ none
  | some raw ↦
      if ltb raw (2 ^ 31)
      then elim (read_words memory base_word (i + 1) n) [
        | none ↦ none
        | some rest ↦ some (raw ∷ rest)
      ]
      else none
]

abbrev raw_at : List ℕ → ℕ → ℕ
raw_at raw i = get_or raw i 0

-- `reset` and the four setters, on the words read.
of_words : List ℕ → Descriptor → Descriptor
of_words raw d = set_tile (raw_at raw 7) (raw_at raw 8) (raw_at raw 9) (
    set_dataflow (dataflow_of (raw_at raw 6)) (
      set_matrix_base (raw_at raw 3) (raw_at raw 4) (raw_at raw 5)
        (set_matrix_mnk (raw_at raw 0) (raw_at raw 1) (raw_at raw 2) (reset d))))

unfoldable pub load_from_memory : Memory → ℕ → Descriptor → Descriptor × Bool
unfolding read_words of_words dataflow_of is_word_aligned word_addr
load_from_memory memory base d =
    if not (is_word_aligned base)
    then (d, false)
    else elim (read_words memory (word_addr base) 0 word_count) [
      | none ↦ (d, false)
      | some raw ↦ (of_words raw d, validate (of_words raw d))
    ]

-- `raw` of `store_to_memory`.
unfoldable pub to_words : Descriptor → List ℕ
to_words d =
    d.matrix_m
    ∷ d.matrix_n
    ∷ d.matrix_k
    ∷ d.matrix_a_base
    ∷ d.matrix_b_base
    ∷ d.matrix_c_base
    ∷ dataflow_word d.mode
    ∷ d.tile_m
    ∷ d.tile_n
    ∷ d.tile_k
    ∷ []

-- Its loop from word `i` on; it stops at the first write that fails.
write_words : Memory → ℕ → ℕ → List ℕ → Memory × Bool
write_words memory base_word i [] = (memory, true)
write_words memory base_word i (raw ∷ rest) =
    let (memory', done) = Memory.write memory (u32 (base_word + i)) raw in
    elim done [ true ↦ write_words memory' base_word (i + 1) rest | false ↦ (memory', false) ]

pub store_to_memory : Descriptor → Memory → ℕ → Memory × Bool
unfolding to_words write_words dataflow_word is_word_aligned word_addr
store_to_memory d memory base =
    if not (validate d) || not (is_word_aligned base)
    then (memory, false)
    else write_words memory (word_addr base) 0 (to_words d)
