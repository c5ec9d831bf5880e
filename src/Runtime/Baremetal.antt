-- ===== src/Runtime/Baremetal.antt =====
-- The bare-metal example: src/maps-sim/examples/baremetal/main.c, and the part of the start-up code
-- src/maps-sim/src/runtime/crt0.S that calls it.
pub mod Loaded
pub mod Run
pub mod Tests
use maps.Prelude.{ℕ, ◌==◌, Bool, false, if◌then◌else◌, bit_or, sub32}
use maps.Runtime.Access.{store32, load32}
use maps.Runtime.Driver.{gemm}
use maps.Runtime.Syscall.{Program, pure, ◌>>=◌, ◌>>◌, on_bus, sys_write, sys_exit}

-- The addresses that the linker gives to the objects of the file.
pub record Image : Type 0 where
  pub status : ℕ
  pub desc : ℕ
  pub a : ℕ
  pub b : ℕ
  pub c : ℕ
  pub bss_value : ℕ
  pub done_msg : ℕ
  pub fail_msg : ℕ

-- `rc == 0 && maps_baremetal_bss_value == 0u`, which loads only where the first holds.
unfoldable pub is_good : Image → ℕ → Program Bool
is_good image rc =
    if rc == 0
    then (do value ← on_bus (λ bus. load32 bus image.bss_value); pure (value == 0))
    else pure false

-- `main` from the assignment to `maps_baremetal_status` on.
unfoldable pub report : Image → ℕ → Program ℕ
unfolding is_good
report image rc = do
  good ← is_good image rc
  on_bus (λ bus.
      store32 bus image.status (if good then 0x600d600d else bit_or 0xbad00000 (sub32 0 rc)))
  (if rc == 0 then sys_write image.done_msg 9 else sys_write image.fail_msg 11)
  pure rc

unfoldable pub main : Image → Program ℕ
unfolding report
main image = do
  rc ← on_bus (λ bus. gemm bus image.desc image.desc image.a image.b image.c 2 2 2)
  report image rc

-- `call main` to `call maps_sys_exit` of `_start`; the weak `maps_runtime_init` and
-- `maps_runtime_fini` are null.
unfoldable pub entry : Image → Program (Unit {0})
entry image = do rc ← main image; sys_exit rc
