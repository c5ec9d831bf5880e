-- ===== src/Npu/Buffer.antt =====
-- `Buffer`, an on-chip buffer with access counts: src/maps-sim/src/npu/buffer.cpp.
-- `read` and `dump` are const in C++ but count, in a mutable field; here they return the buffer.
pub mod Access
use maps.Prelude.{
  ℕ, ◌+◌, ◌%◌, ◌^◌, ◌≡◌, Bool, true, false, Option, none, some, List, ◌++◌, length, get_or, set,
  replicate, take, drop, ltb, leb, if◌then◌else◌, u32, u64, map,
}

pub record Buffer : Type 0 where
  pub words : List ℕ
  pub read_count : ℕ
  pub write_count : ℕ

unfoldable pub make : ℕ → Buffer
make capacity = record { words = replicate capacity 0; read_count = 0; write_count = 0 }

-- `std::fill(begin, end, 0)` keeps the size.
unfoldable pub reset : Buffer → Buffer
reset b = record { words = replicate (length b.words) 0; read_count = 0; write_count = 0 }

-- `out` is `none` for `false`.
unfoldable pub read : Buffer → ℕ → Buffer × Option ℕ
read b addr =
    if leb (length b.words) addr
    then (b, none)
    else (record b { read_count = u64 (b.read_count + 1) }, some (get_or b.words addr 0))

unfoldable pub write : Buffer → ℕ → ℕ → Buffer × Bool
write b addr value =
    if leb (length b.words) addr
    then (b, false)
    else (record b { words = set b.words addr value; write_count = u64 (b.write_count + 1) }, true)

-- `std::copy(src, src + len, data_.begin())`.
unfoldable pub load : Buffer → Option (List ℕ) → ℕ → Buffer × Bool
load b none len = (b, false)
load b (some src) len = if ltb (length b.words) len then (b, false) else (
  record b { words = take len src ++ drop len b.words; write_count = u64 (b.write_count + len) },
  true,
)

-- `std::copy(data_.begin(), data_.begin() + len, dst)`; the new contents of `dst`.
unfoldable pub dump : Buffer → Option (List ℕ) → ℕ → Buffer × Option (List ℕ) × Bool
dump b none len = (b, none, false)
dump b (some dst) len = if ltb (length b.words) len then (b, some dst, false) else (
  record b { read_count = u64 (b.read_count + len) },
  some (take len b.words ++ drop len dst),
  true,
)

unfoldable pub size : Buffer → ℕ
size b = u32 (length b.words)

pub capacity : Buffer → ℕ
capacity b = u32 (length b.words)

abbrev pub word : Buffer → ℕ → ℕ
word b addr = get_or b.words addr 0
