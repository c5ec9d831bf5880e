-- ===== src/Npu/Descriptor/Tests.antt =====
-- A descriptor stored and loaded.
use maps.Prelude.{◌≡◌, refl, true, replicate, arith}
use maps.Memory.{Memory}
use maps.Npu.Config.{is}
use maps.Npu.Descriptor.{
  Descriptor, make, validate, is_word_aligned, word_addr, to_words, dataflow_word, store_to_memory,
  load_from_memory,
}
use maps.Npu.Descriptor.Roundtrip.{IsNonNegative, load_from_memory-store_to_memory}

abbrev product : Descriptor
product = record {
  matrix_m = 20;
  matrix_n = 3;
  matrix_k = 18;
  mode = is;
  matrix_a_base = 64;
  matrix_b_base = 2048;
  matrix_c_base = 4096;
  tile_m = 16;
  tile_n = 32;
  tile_k = 8;
}

abbrev blank : Memory
blank = record { words = replicate 16 0 }

product-valid : validate product ≡ true
unfolding validate
product-valid = refl

product-IsNonNegative : IsNonNegative (to_words product)
unfolding to_words dataflow_word
product-IsNonNegative = (
  omega arith,
  (
    omega arith,
    (
      omega arith,
      (
        omega arith,
        (
          omega arith,
          (omega arith, (omega arith, (omega arith, (omega arith, (omega arith, tt))))),
        ),
      ),
    ),
  ),
)

eight-aligned : is_word_aligned 8 ≡ true
unfolding is_word_aligned
eight-aligned = refl

load_from_memory-store_to_memory_example :
    ((store_to_memory product blank 8).1 ≡ true)
    × (load_from_memory (store_to_memory product blank 8).0 8 make ≡ (product, true))
unfolding word_addr
load_from_memory-store_to_memory_example =
    load_from_memory-store_to_memory product blank 8 product-valid product-IsNonNegative
      eight-aligned (omega arith) (omega arith) make
