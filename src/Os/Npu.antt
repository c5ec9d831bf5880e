-- ===== src/Os/Npu.antt =====
-- The NPU driver of the operating system: src/maps-os/drivers/npu.c. A pointer is its address, and an
-- `i32` its 32-bit pattern.
pub mod Submit
use maps.Prelude.{ℕ, zero, suc, ◌+◌, ◌==◌, if◌then◌else◌, true, false}
use maps.Bus.{Bus}
use maps.Runtime.Access.{M, pure, ◌>>=◌, ◌>>◌, store32, load32}
use maps.Runtime.Driver.{
  matrix_m, matrix_n, matrix_k, matrix_a_base, matrix_b_base, matrix_c_base, dataflow, tile_m,
  tile_n, tile_k, set_field, minus,
}

abbrev pub npu_base : ℕ
npu_base = 0x10000000

abbrev pub npu_desc_addr : ℕ
npu_desc_addr = 0x00

abbrev pub npu_cmd : ℕ
npu_cmd = 0x04

abbrev pub npu_status : ℕ
npu_status = 0x08

abbrev pub npu_error : ℕ
npu_error = 0x0c

abbrev pub npu_cmd_start : ℕ
npu_cmd_start = 1

abbrev pub npu_state_done : ℕ
npu_state_done = 2

abbrev pub npu_state_error : ℕ
npu_state_error = 3

abbrev pub npu_dataflow_os : ℕ
npu_dataflow_os = 1

-- `NPU_REG(offset)`.
abbrev pub reg_at : ℕ → ℕ
reg_at offset = npu_base + offset

module _ (bus : Bus) where
  -- `npu_desc_t` has the ten fields of the runtime's descriptor, in the same order.
  unfoldable pub npu_desc_init : (desc a b c m n k : ℕ) → M (Unit {0})
  npu_desc_init desc a b c m n k = if desc == 0 then pure tt else (do
    set_field bus desc matrix_m m
    set_field bus desc matrix_n n
    set_field bus desc matrix_k k
    set_field bus desc matrix_a_base a
    set_field bus desc matrix_b_base b
    set_field bus desc matrix_c_base c
    set_field bus desc dataflow npu_dataflow_os
    set_field bus desc tile_m 16
    set_field bus desc tile_n 16
    set_field bus desc tile_k 16)

  -- `return -(i32)NPU_REG(NPU_ERROR)`.
  abbrev pub error_code : M ℕ
  error_code = do code ← load32 bus (reg_at npu_error); pure (minus code)

  -- The loop of `npu_submit`, with the polls that are left.
  unfoldable pub poll_done : ℕ → M ℕ
  poll_done zero = pure (minus 2)
  poll_done (suc polls) =
      let rest = poll_done polls in
      (do
        status ← load32 bus (reg_at npu_status)
        (if status == npu_state_done
            then pure 0
            else if status == npu_state_error
            then error_code
            else rest))

  unfoldable pub npu_submit : ℕ → M ℕ
  npu_submit desc = if desc == 0 then pure (minus 1) else (do
    store32 bus (reg_at npu_desc_addr) desc
    store32 bus (reg_at npu_cmd) npu_cmd_start
    poll_done 1000000)

  -- `npu_gemm`, with the address of its static descriptor.
  unfoldable pub npu_gemm : (desc a b c m n k : ℕ) → M ℕ
  npu_gemm desc a b c m n k = do npu_desc_init desc a b c m n k; npu_submit desc
