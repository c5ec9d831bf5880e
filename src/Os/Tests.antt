-- ===== src/Os/Tests.antt =====
-- The operating system on small inputs.
use maps.Prelude.{◌≡◌, refl, some, arith, [], ◌∷◌}
use maps.Bus.{Store, read8}
use maps.Machine.{write_loop}
use maps.Npu.Device.Tests.{
  memory, product, device-IsReady, product-valid, product-IsNonNegative, product-IsInMemory,
  product-IsApart,
}
use maps.Memory
use maps.Os.Console.{console_write, console_write_cstr}
use maps.Os.Console.Cstr.{HoldsText, appended, console_write_cstr-appended}
use maps.Os.Console.Write.{outcome, console_write-write_loop}
use maps.Os.Npu.{npu_gemm}
use maps.Os.Npu.Submit.{npu_gemm-HasResult}
use maps.Runtime.Driver.Gemm.{HasResult}
use maps.Runtime.Driver.Tests.{bus, store, object, product-IsClear}

npu_gemm-HasResult_example :
    (s' : Store) × (npu_gemm bus 80 4 20 36 2 2 2 store ≡ some (s', some 0))
    × HasResult product 80 memory.words s'.memory.words
npu_gemm-HasResult_example =
    npu_gemm-HasResult bus store 80 4 20 36 2 2 2 object (omega arith) refl device-IsReady
      product-valid product-IsNonNegative product-IsInMemory product-IsApart product-IsClear

-- The last bytes of the memory, and one more.
console_write-write_loop_example :
    console_write bus 120 9 store ≡ outcome bus refl (write_loop bus 120 0 9 store)
console_write-write_loop_example = console_write-write_loop bus refl 120 9 store (omega arith)

-- The byte 1 at address 4, and a zero after it.
one_byte : HoldsText bus 4 store 0 (1 ∷ [])
unfolding read8 Memory.read Memory.size
one_byte = (refl, omega arith, refl)

console_write_cstr-appended_example :
    console_write_cstr bus 4 store ≡ some (appended bus 4 (1 ∷ []) store, some tt)
console_write_cstr-appended_example =
    console_write_cstr-appended bus 4 refl (1 ∷ []) store (omega arith) (omega arith) one_byte
