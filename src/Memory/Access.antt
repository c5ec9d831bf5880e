-- ===== src/Memory/Access.antt =====
-- `Memory::read` and `Memory::write`: when they succeed, and what a read sees after a write.
use maps.Prelude.{
  ℕ, ◌≤◌, ◌<◌, ◌^◌, ◌≡◌, ◌≢◌, ap, true, false, some, none, length, set, arith, leb, length-set,
  get_or-set_self, get_or-set_ne, if◌then◌else◌, u32, ◌==◌,
}
use maps.Memory.{Memory, read, write, size, word, IsValid}

pub read_in_range : (m : Memory) (a : ℕ) → a < length m.words → read m a ≡ some (word m a)
unfolding read
read_in_range m a h = ground arith

pub read_out_of_range : (m : Memory) (a : ℕ) → length m.words ≤ a → read m a ≡ none
unfolding read
read_out_of_range m a h = ground arith

pub write_in_range_lem :
    (m : Memory) (a v : ℕ)
    → a < length m.words
    → write m a v ≡ (record { words = set m.words a v }, true)
unfolding write
write_in_range_lem m a v h = ground arith

pub write_in_range : (m : Memory) (a v : ℕ) → a < length m.words → (write m a v).1 ≡ true
unfolding write
write_in_range m a v h = ground arith

pub write_out_of_range : (m : Memory) (a v : ℕ) → length m.words ≤ a → write m a v ≡ (m, false)
unfolding write
write_out_of_range m a v h = ground arith

pub length-write : (m : Memory) (a v : ℕ) → length (write m a v).0.words ≡ length m.words
unfolding write
length-write m a v = ground (arith, length-set m.words a v)

pub size-write : (m : Memory) (a v : ℕ) → size (write m a v).0 ≡ size m
unfolding size
size-write m a v = ap u32 (length-write m a v)

pub word-write_self : (m : Memory) (a v : ℕ) → a < length m.words → word (write m a v).0 a ≡ v
unfolding write
word-write_self m a v h = ground (arith, get_or-set_self m.words a v 0)

pub word-write_ne : (m : Memory) (a b v : ℕ) → a ≢ b → word (write m a v).0 b ≡ word m b
unfolding write
word-write_ne m a b v h = ground (arith, get_or-set_ne m.words a b v 0)

-- What every address reads after a write: the value at the written address if that is in range,
-- and otherwise what it read before, errors included.
pub read-write :
    (m : Memory) (a b v : ℕ)
    → read (write m a v).0 b
      ≡ (if a == b then (if leb (length m.words) a then none else some v) else read m b)
unfolding read write
read-write m a b v =
    ground
      (arith, length-set m.words a v, get_or-set_self m.words a v 0, get_or-set_ne m.words a b v 0)

pub write-IsValid : (m : Memory) (a v : ℕ) → v < 2 ^ 32 → IsValid m → IsValid (write m a v).0
write-IsValid m a v h valid = record {
  small = omega (arith, length-write m a v, valid.small);
  words_fit = fits;
}
  where
    fits : (i : ℕ) → word (write m a v).0 i < 2 ^ 32
    fits i =
        unfold write in
        ground
          (arith, get_or-set_self m.words a v 0, get_or-set_ne m.words a i v 0, valid.words_fit i)
