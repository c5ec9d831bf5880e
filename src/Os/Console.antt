-- ===== src/Os/Console.antt =====
-- The console driver of the operating system: src/maps-os/drivers/console.c. A text is the address of
-- its bytes.
pub mod Write
pub mod Cstr
use maps.Prelude.{
  ℕ, zero, suc, ◌+◌, ◌^◌, Bool, ◌||◌, true, false, Option, none, some, ◌==◌, u8, u32, if◌then◌else◌,
}
use maps.Bus.{Bus, Store}
use maps.Bus
use maps.Runtime.Access.{M, pure, ◌>>=◌, ◌>>◌, store32}

abbrev pub console_base : ℕ
console_base = 0x10000100

abbrev pub console_data : ℕ
console_data = 0x00

-- `CONSOLE_REG(offset)`.
abbrev pub console_reg : ℕ → ℕ
console_reg offset = console_base + offset

module _ (bus : Bus) where
  unfoldable pub console_putc : ℕ → M (Unit {0})
  console_putc ch = store32 bus (console_reg console_data) (u8 ch)

  -- `text[i]`.
  unfoldable pub load8 : ℕ → M ℕ
  load8 addr s = some (s, Bus.read8 bus s addr)

  -- The loop of `console_write` from byte `i` on, `n` bytes.
  unfoldable pub write_bytes : ℕ → ℕ → ℕ → M (Unit {0})
  write_bytes text i zero = pure tt
  write_bytes text i (suc n) = do
    ch ← load8 (u32 (text + i))
    console_putc ch
    write_bytes text (i + 1) n

  unfoldable pub console_write : ℕ → ℕ → M (Unit {0})
  console_write text len = if text == 0 || len == 0 then pure tt else write_bytes text 0 len

  -- `while (text[len] != '\0') ++len;` from `len` on; the fuel is for the values of a UINT32, and
  -- without it the loop does not end.
  unfoldable pub cstr_length : ℕ → ℕ → ℕ → M ℕ
  cstr_length zero text len = λ s. none
  cstr_length (suc fuel) text len =
      let rest = cstr_length fuel text (u32 (len + 1)) in
      (do ch ← load8 (u32 (text + len)); (if ch == 0 then pure len else rest))

  unfoldable pub console_write_cstr : ℕ → M (Unit {0})
  console_write_cstr text =
      if text == 0 then pure tt else (do len ← cstr_length (2 ^ 32) text 0; console_write text len)
