-- ===== src/Npu/Buffer/Access.antt =====
-- `Buffer::read`, `write`, `load` and `dump` in range: the words, the counts and the result.
use maps.Prelude.{
  ℕ, ◌+◌, ◌<◌, ◌≤◌, ◌≡◌, true, some, List, ◌++◌, length, set, take, drop, arith, u64,
}
use maps.Npu.Buffer.{Buffer, read, write, load, dump, word}

pub read_in_range :
    (b : Buffer) (a : ℕ)
    → a < length b.words
    → read b a ≡ (record b { read_count = u64 (b.read_count + 1) }, some (word b a))
unfolding read
read_in_range b a h = ground arith

pub write_in_range :
    (b : Buffer) (a v : ℕ)
    → a < length b.words
    → write b a v
      ≡ (record b { words = set b.words a v; write_count = u64 (b.write_count + 1) }, true)
unfolding write
write_in_range b a v h = ground arith

pub load_in_range :
    (b : Buffer) (src : List ℕ) (len : ℕ)
    → len ≤ length b.words
    → load b (some src) len ≡ (
      record b {
        words = take len src ++ drop len b.words;
        write_count = u64 (b.write_count + len);
      },
      true,
    )
unfolding load
load_in_range b src len h = ground arith

pub dump_in_range :
    (b : Buffer) (dst : List ℕ) (len : ℕ)
    → len ≤ length b.words
    → dump b (some dst) len ≡ (
      record b { read_count = u64 (b.read_count + len) },
      some (take len b.words ++ drop len dst),
      true,
    )
unfolding dump
dump_in_range b dst len h = ground arith
