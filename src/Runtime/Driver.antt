-- ===== src/Runtime/Driver.antt =====
-- The NPU driver: src/maps-sim/src/runtime/npu_driver.c. A pointer to a descriptor is its address;
-- an `int` result is its 32-bit pattern.
pub mod Fields
pub mod Registers
pub mod Gemm
pub mod Outcome
pub mod Tests
use maps.Prelude.{
  ℕ, zero, suc, ◌+◌, ◌*◌, Bool, true, false, not, ◌||◌, List, [], ◌∷◌, none, some, Option, ◌==◌,
  leb, u32, sub32, if◌then◌else◌, bit_and,
}
use maps.Bus.{Bus}
use maps.Runtime.Access.{M, pure, ◌>>=◌, ◌>>◌, store32, load32}

abbrev pub npu_base : ℕ
npu_base = 0x10000000

abbrev pub desc_addr_reg : ℕ
desc_addr_reg = 0x00

abbrev pub cmd_reg : ℕ
cmd_reg = 0x04

abbrev pub status_reg : ℕ
status_reg = 0x08

abbrev pub cmd_start : ℕ
cmd_start = 1

abbrev pub cmd_reset : ℕ
cmd_reset = 2

abbrev pub state_done : ℕ
state_done = 2

abbrev pub state_error : ℕ
state_error = 3

abbrev pub dataflow_os : ℕ
dataflow_os = 1

abbrev pub dataflow_is : ℕ
dataflow_is = 2

-- `MAPS_NPU_REG(offset)`.
abbrev pub npu_reg : ℕ → ℕ
npu_reg offset = npu_base + offset

-- The fields of `maps_npu_desc_t`, ten words in the order of their declaration.
abbrev pub matrix_m : ℕ
matrix_m = 0

abbrev pub matrix_n : ℕ
matrix_n = 1

abbrev pub matrix_k : ℕ
matrix_k = 2

abbrev pub matrix_a_base : ℕ
matrix_a_base = 3

abbrev pub matrix_b_base : ℕ
matrix_b_base = 4

abbrev pub matrix_c_base : ℕ
matrix_c_base = 5

abbrev pub dataflow : ℕ
dataflow = 6

abbrev pub tile_m : ℕ
tile_m = 7

abbrev pub tile_n : ℕ
tile_n = 8

abbrev pub tile_k : ℕ
tile_k = 9

-- `-n`, as an `int`.
abbrev pub minus : ℕ → ℕ
minus n = sub32 0 n

-- `value == 0`, and `(value & 3u) != 0`.
abbrev pub is_zero : ℕ → Bool
is_zero value = value == 0

abbrev pub is_unaligned : ℕ → Bool
is_unaligned value = not (bit_and value 3 == 0)

module _ (bus : Bus) where
  -- `desc->field`.
  unfoldable pub set_field : ℕ → ℕ → ℕ → M (Unit {0})
  set_field desc field value = store32 bus (desc + 4 * field) value

  unfoldable pub get_field : ℕ → ℕ → M ℕ
  get_field desc field = load32 bus (desc + 4 * field)

  unfoldable pub desc_init :
      ℕ → (a_base b_base c_base m n k dataflow_word tm tn tk : ℕ) → M (Unit {0})
  desc_init desc a_base b_base c_base m n k dataflow_word tm tn tk =
      if desc == 0 then pure tt else (do
        set_field desc matrix_m m
        set_field desc matrix_n n
        set_field desc matrix_k k
        set_field desc matrix_a_base a_base
        set_field desc matrix_b_base b_base
        set_field desc matrix_c_base c_base
        set_field desc dataflow dataflow_word
        set_field desc tile_m tm
        set_field desc tile_n tn
        set_field desc tile_k tk)

  -- `desc->f == x || desc->g == x || ...`, which stops at the first field that passes the test.
  unfoldable pub any_field : (ℕ → Bool) → ℕ → List ℕ → M Bool
  any_field test desc [] = pure false
  any_field test desc (field ∷ fields) = do
    value ← get_field desc field
    if test value then pure true else any_field test desc fields

  -- `return 0` at the first of the four tests that a field passes.
  unfoldable pub desc_valid : ℕ → M ℕ
  desc_valid desc = if desc == 0 then pure 0 else (do
    no_dim ← any_field is_zero desc (matrix_m ∷ matrix_n ∷ matrix_k ∷ [])
    if no_dim then pure 0 else (do
      no_base ← any_field is_zero desc (matrix_a_base ∷ matrix_b_base ∷ matrix_c_base ∷ [])
      if no_base then pure 0 else (do
        unaligned ← any_field is_unaligned desc (matrix_a_base ∷ matrix_b_base ∷ matrix_c_base ∷ [])
        if unaligned then pure 0 else (do
          no_tile ← any_field is_zero desc (tile_m ∷ tile_n ∷ tile_k ∷ [])
          if no_tile then pure 0 else (do
            mode ← get_field desc dataflow
            pure (if leb mode dataflow_is then 1 else 0))))))

  unfoldable pub reset : M (Unit {0})
  reset = store32 bus (npu_reg cmd_reg) cmd_reset

  unfoldable pub start : ℕ → M (Unit {0})
  start desc_addr = do
    store32 bus (npu_reg desc_addr_reg) desc_addr
    store32 bus (npu_reg cmd_reg) cmd_start

  -- The loop of `maps_npu_wait_done`, with the polls that are left.
  unfoldable pub wait_done : ℕ → M ℕ
  wait_done zero = pure (minus 1)
  wait_done (suc polls) =
      let rest = wait_done polls in
      (do
        status ← load32 bus (npu_reg status_reg)
        (if status == state_done
            then pure 0
            else if status == state_error
            then pure (minus 2)
            else rest))

  unfoldable pub gemm : (desc desc_addr a_base b_base c_base m n k : ℕ) → M ℕ
  gemm desc desc_addr a_base b_base c_base m n k = do
    desc_init desc a_base b_base c_base m n k dataflow_os 16 16 16
    valid ← desc_valid desc
    if valid == 0 then pure (minus 3) else (do start desc_addr; wait_done 1000000)
