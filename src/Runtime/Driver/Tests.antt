-- ===== src/Runtime/Driver/Tests.antt =====
-- A product of two 2 x 2 matrices through the driver.
use maps.Prelude.{◌≡◌, ◌⊎◌, ◌&&◌, refl, Bool, some, [], bound, length, arith, if◌then◌else◌}
use maps.Bus.{Bus, Store}
use maps.Npu.Descriptor.{validate, word_addr, tile_fits}
use maps.Npu.Device.Tests.{
  memory, device, product, device-IsReady, product-valid, product-IsNonNegative, product-IsInMemory,
  product-IsApart,
}
use maps.Runtime.Access.Dram.{IsObject}
use maps.Runtime.Driver.{gemm, wait_done, desc_init, desc_valid, minus}
use maps.Runtime.Driver.Fields.{desc_valid-validate, held}
use maps.Runtime.Driver.Outcome.{gemm-returns}
use maps.Runtime.Driver.Registers.{wait_done-answer, answer}
use maps.Runtime.Driver.Gemm.{IsClear, HasResult, gemm-HasResult}

abbrev pub bus : Bus
bus = record { memory = bound; npu = bound; console_output = bound }

-- A at 4, B at 20, C at 36, and the descriptor at 80.
abbrev pub store : Store
store = record { memory = memory; npu = device; console = [] }

pub object : IsObject bus 80 (length store.memory.words)
object = record {
  memory_bound = refl;
  aligned = omega arith;
  below_devices = omega arith;
  in_memory = omega arith;
  memory_small = omega arith;
}

pub product-IsClear : IsClear product 80
unfolding word_addr
product-IsClear = record {
  a_clear = λ i k f h p q. omega arith;
  b_clear = λ k j f h p q. omega arith;
}

gemm-HasResult_example :
    (s' : Store) × (gemm bus 80 80 4 20 36 2 2 2 store ≡ some (s', some 0))
    × HasResult product 80 memory.words s'.memory.words
gemm-HasResult_example =
    gemm-HasResult bus store 80 4 20 36 2 2 2 object (omega arith) refl device-IsReady product-valid
      product-IsNonNegative product-IsInMemory product-IsApart product-IsClear

-- A null pointer to the descriptor.
null_refused : gemm bus 0 0 4 20 36 2 2 2 store ≡ some (store, some (minus 3))
unfolding gemm desc_init desc_valid
null_refused = refl

gemm-returns_example : (minus 3 ≡ 0) ⊎ (minus 3 ≡ minus 3)
gemm-returns_example = gemm-returns bus refl 0 0 4 20 36 2 2 2 store store (minus 3) null_refused

wait_done-answer_example :
    wait_done bus 3 store ≡ some (store, some (answer bus refl store.npu.controller.state))
wait_done-answer_example = wait_done-answer bus refl 3 store (omega arith)

desc_valid-validate_example :
    (ok : Bool) × (desc_valid bus 80 store ≡ some (store, some (if ok then 1 else 0)))
    × (validate (held 80 store) ≡ (
        ok
        && tile_fits
            (held 80 store).mode
            (held 80 store).tile_m
            (held 80 store).tile_n
            (held 80 store).tile_k))
desc_valid-validate_example = desc_valid-validate bus 80 32 object (omega arith) store refl
