-- ===== src/Runtime/Access/Dram.antt =====
-- Words of DRAM, as a C program loads and stores them.
use maps.Prelude.{
  ℕ, ◌+◌, ◌*◌, ◌/◌, ◌%◌, ◌<◌, ◌≤◌, ◌≡◌, ◌^◌, Bool, ap, ◌∙◌, some, Option, List, length, get_or, set,
  arith, bound,
}
use maps.Bus.{Bus, Store, npu_base}
use maps.Bus.Dram.{IsDramWord, read32-dram, write32-dram}
use maps.Memory
use maps.Memory.Access.{read_in_range, write_in_range_lem}
use maps.Runtime.Access.{store32, load32, stored}

-- The store with other words in its memory.
abbrev pub with_words : Store → List ℕ → Store
with_words s words = record s { memory = record { words = words } }

-- Ten words of DRAM, as an object at `base` holds them, in a memory with `n` words.
pub record IsObject (bus : Bus) (base n : ℕ) : Type 0 where
  pub memory_bound : bus.memory ≡ bound
  pub aligned : base % 4 ≡ 0
  pub below_devices : base + 40 ≤ npu_base
  pub in_memory : base / 4 + 10 ≤ n
  pub memory_small : n ≤ 2 ^ 30

module _ (bus : Bus) (base n : ℕ) (object : IsObject bus base n) where
  word-IsDramWord :
      (s : Store) (i : ℕ) → length s.memory.words ≡ n → i < 10 → IsDramWord bus s (base + 4 * i)
  word-IsDramWord s i same h = record {
    memory_bound = object.memory_bound;
    aligned = omega (arith, object.aligned);
    below_devices = omega (arith, object.below_devices);
    memory_small = omega (arith, object.memory_small, same);
    in_memory = omega (arith, object.in_memory, same);
  }

  word_index : (i : ℕ) → (base + 4 * i) / 4 ≡ base / 4 + i
  word_index i = omega arith

  pub store32-object :
      (s : Store) (i v : ℕ)
      → length s.memory.words ≡ n
      → i < 10
      → store32 bus (base + 4 * i) v s
        ≡ some (with_words s (set s.memory.words (base / 4 + i) v), some tt)
  unfolding store32
  store32-object s i v same h =
      let ok = word-IsDramWord s i same h in
      let there : (base + 4 * i) / 4 < length s.memory.words = ok.in_memory in
      ap stored (write32-dram bus s (base + 4 * i) ok v)
      ∙ ap (λ (r : Memory.Memory × Bool). store_result s r.0)
          (write_in_range_lem s.memory ((base + 4 * i) / 4) v there)
      ∙ ap (λ w. store_result s (record { words = set s.memory.words w v })) (word_index i)
    where
      store_result : Store → Memory.Memory → Option (Store × Option (Unit {0}))
      store_result s m = some (record s { memory = m }, some tt)

  pub load32-object :
      (s : Store) (i : ℕ)
      → length s.memory.words ≡ n
      → i < 10
      → load32 bus (base + 4 * i) s ≡ some (s, some (get_or s.memory.words (base / 4 + i) 0))
  unfolding load32
  load32-object s i same h =
      ap (λ v. some (s, v))
        (read32-dram bus s (base + 4 * i) (word-IsDramWord s i same h)
          ∙ rw (word_index i)
              (read_in_range s.memory (base / 4 + i) (omega (arith, object.in_memory, same))))
