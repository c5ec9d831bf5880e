-- ===== src/Os/Console/Write.antt =====
-- The text that the console driver writes.
use maps.Prelude.{
  ℕ, zero, suc, ◌+◌, ◌≡◌, ◌==◌, refl, ap, ◌∙◌, Bool, true, false, some, none, Option, bound, u8,
  u32, if◌then◌else◌, bit_and, bit_and_byte, arith, ◌<◌, ◌*◌, ◌≢◌, shr,
}
use maps.Bus.{Bus, Store, read8, write32, write_console, dram_byte_offset}
use maps.Machine.{write_loop, push_back}
use maps.Os.Console.{console_putc, load8, write_bytes, console_write}
use maps.Runtime.Access.{after, ◌>>◌, store32}

module _ (bus : Bus) (console_bound : bus.console_output ≡ bound) where
  console_putc-push_back :
      (s : Store) (ch : ℕ) → ch < 256 → console_putc bus ch s ≡ some (push_back ch s, some tt)
  unfolding console_putc store32 write32 write_console
  console_putc-push_back s ch h =
      let byte : u8 (bit_and (u8 ch) 0xff) ≡ ch =
        omega (arith, bit_and_byte (u8 ch) (omega arith)) in
      rw (console_bound, byte) refl

  -- What the bus reads is a byte.
  IsByte : Option ℕ → Type 0
  IsByte none = Unit {0}
  IsByte (some ch) = ch < 256

  u8-IsByte :
      (refused : Bool) (word : Option ℕ) (byte : ℕ → ℕ)
      → IsByte
          (if refused then none else elim word [ none ↦ none | some raw ↦ some (u8 (byte raw)) ])
  unfolding IsByte
  u8-IsByte true word byte = tt
  u8-IsByte false none byte = tt
  u8-IsByte false (some raw) byte = omega arith

  read8-IsByte : (s : Store) (addr : ℕ) → IsByte (read8 bus s addr)
  unfolding read8
  read8-IsByte s addr = u8-IsByte _ _ (λ raw. bit_and (shr raw (dram_byte_offset addr * 8)) 0xff)

  -- The outcome of a loop of the machine, as that of a program.
  abbrev pub outcome : Store × Bool → Option (Store × Option (Unit {0}))
  outcome (s, complete) = some (s, if complete then some tt else none)

  after_byte :
      (text i n : ℕ) (s : Store) (byte : Option ℕ)
      → IsByte byte
      → ((s' : Store)
          → write_bytes bus text (i + 1) n s' ≡ outcome (write_loop bus text (i + 1) n s'))
      → after (λ ch. console_putc bus ch >> write_bytes bus text (i + 1) n) (some (s, byte))
        ≡ outcome (elim byte [
          | none ↦ (s, false)
          | some ch ↦ write_loop bus text (i + 1) n (push_back ch s)
        ])
  unfolding IsByte
  after_byte text i n s none h ih = refl
  after_byte text i n s (some ch) h ih =
      ap (after (λ _. write_bytes bus text (i + 1) n)) (console_putc-push_back s ch h)
      ∙ ih (push_back ch s)

  write_bytes-write_loop :
      (text i n : ℕ) (s : Store) → write_bytes bus text i n s ≡ outcome (write_loop bus text i n s)
  unfolding write_bytes write_loop load8
  write_bytes-write_loop text i zero s = refl
  write_bytes-write_loop text i (suc n) s =
      after_byte text i n s (read8 bus s (u32 (text + i))) (read8-IsByte s (u32 (text + i)))
        (λ s'. write_bytes-write_loop text (i + 1) n s')

  -- The console driver against the WRITE call of the machine, on the same text at an address that is
  -- not null: both append the same bytes to the console, and where a byte cannot be read, where the
  -- machine's call gives up, the driver faults the CPU with the same bytes written.
  pub console_write-write_loop :
      (text len : ℕ) (s : Store)
      → text ≢ 0
      → console_write bus text len s ≡ outcome (write_loop bus text 0 len s)
  unfolding console_write write_loop
  console_write-write_loop text zero s h =
      let named : (text == 0) ≡ false = ground (arith, h) in rw named refl
  console_write-write_loop text (suc len) s h =
      let named : (text == 0) ≡ false = ground (arith, h) in
      let some_left : (suc len == 0) ≡ false = ground arith in
      rw (named, some_left) (write_bytes-write_loop text 0 (suc len) s)
