-- ===== src/Bus/Tests.antt =====
-- A word through the bus.
use maps.Prelude.{
  ℕ, zero, suc, ◌+◌, ◌*◌, ◌^◌, ◌<◌, get_or, ◌≡◌, refl, true, some, [], ◌∷◌, bound, if◌then◌else◌,
  ◌==◌, arith,
}
use maps.Bus.{Bus, Store, read8, read16, read32, write8, write32}
use maps.Bus.Bytes.{IsDramByte, byte_at, read8-write8}
use maps.Bus.Endian.{read32-bytes}
use maps.Memory.{IsValid}
use maps.Bus.Dram.{IsDramWord, read32-write32}
use maps.Npu.Device

abbrev bus : Bus
bus = record { memory = bound; npu = bound; console_output = bound }

abbrev store : Store
store = record { memory = record { words = 1 ∷ 2 ∷ 3 ∷ [] }; npu = Device.make; console = [] }

second_word : IsDramWord bus store 4
second_word = record {
  memory_bound = refl;
  aligned = omega arith;
  below_devices = omega arith;
  memory_small = omega arith;
  in_memory = omega arith;
}

third_word : IsDramWord bus store 8
third_word = record {
  memory_bound = refl;
  aligned = omega arith;
  below_devices = omega arith;
  memory_small = omega arith;
  in_memory = omega arith;
}

read32-write32_example :
    (s : Store) × (write32 bus 4 9 store ≡ some (s, true))
    × (read32 bus s 8 ≡ (if 4 == 8 then some 9 else read32 bus store 8))
read32-write32_example = read32-write32 bus store 4 8 9 second_word third_word

first_byte : IsDramByte bus 3 5
first_byte = record {
  memory_bound = refl;
  below_devices = omega arith;
  memory_small = omega arith;
  in_memory = omega arith;
}

second_byte : IsDramByte bus 3 6
second_byte = record {
  memory_bound = refl;
  below_devices = omega arith;
  memory_small = omega arith;
  in_memory = omega arith;
}

read8-write8_example :
    (s : Store) × (write8 bus 5 200 store ≡ (s, true))
    × (read8 bus s 6 ≡ (if 5 == 6 then some 200 else read8 bus store 6))
read8-write8_example = read8-write8 bus store 5 6 200 first_byte second_byte (omega arith)

store-IsValid : IsValid store.memory
store-IsValid = record { small = omega arith; words_fit = fits }
  where
    fits : (i : ℕ) → get_or store.memory.words i 0 < 2 ^ 32
    fits zero = omega arith
    fits (suc zero) = omega arith
    fits (suc (suc zero)) = omega arith
    fits (suc (suc (suc i))) = omega arith

read32-bytes_example :
    (read8 bus store 4 ≡ some 2)
    × (read8 bus store 5 ≡ some 0)
    × (read8 bus store 6 ≡ some 0)
    × (read8 bus store 7 ≡ some 0)
    × (read16 bus store 4
        ≡ some (byte_at store.memory.words 4 + 256 * byte_at store.memory.words 5))
    × (read16 bus store 6
        ≡ some (byte_at store.memory.words 6 + 256 * byte_at store.memory.words 7))
    × (read32 bus store 4
        ≡ some (
            byte_at store.memory.words 4
            + 256 * byte_at store.memory.words 5
            + 65536 * byte_at store.memory.words 6
            + 16777216 * byte_at store.memory.words 7))
read32-bytes_example = read32-bytes bus store 4 second_word store-IsValid
