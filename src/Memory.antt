-- ===== src/Memory.antt =====
-- `Memory`, the DRAM model: src/maps-sim/src/common/memory.cpp and include/common/memory.h.
-- A null `src` or `dst` is `none`; reading `src` past its end, which C++ leaves undefined, gives 0.
pub mod Access
pub mod Transfer
pub mod Tests
use maps.Prelude.{
  ℕ, zero, suc, ◌+◌, ◌-◌, ◌<◌, ◌≤◌, ◌^◌, Bool, true, false, ◌||◌, Option, none, some, List, length,
  get_elem?, get_or, set, replicate, ltb, leb, if◌then◌else◌, u32,
}

-- `data_`, in INT32 words.
pub record Memory : Type 0 where
  pub words : List ℕ

pub make : ℕ → Memory
make capacity = record { words = replicate capacity 0 }

-- `out`, or `none` for `false`, which leaves `out` alone.
unfoldable pub read : Memory → ℕ → Option ℕ
read m addr = if leb (length m.words) addr then none else some (get_or m.words addr 0)

unfoldable pub write : Memory → ℕ → ℕ → Memory × Bool
write m addr value =
    if leb (length m.words) addr
    then (m, false)
    else (record { words = set m.words addr value }, true)

-- The rounds of `load` from `i` on, `n` of them.
load_loop : ℕ → ℕ → List ℕ → List ℕ → ℕ → List ℕ
load_loop base i src words zero = words
load_loop base i src words (suc n) =
    load_loop base (i + 1) src (set words (u32 (base + i)) (get_or src i 0)) n

pub load : Memory → ℕ → Option (List ℕ) → ℕ → Memory × Bool
load m base none len = (m, false)
load m base (some src) len =
    if ltb (length m.words) base || ltb (length m.words - base) len
    then (m, false)
    else (record { words = load_loop base 0 src m.words len }, true)

dump_loop : ℕ → ℕ → List ℕ → List ℕ → ℕ → List ℕ
dump_loop base i words dst zero = dst
dump_loop base i words dst (suc n) =
    dump_loop base (i + 1) words (set dst i (get_or words (u32 (base + i)) 0)) n

-- The new contents of `dst`, and the result.
pub dump : Memory → ℕ → Option (List ℕ) → ℕ → Option (List ℕ) × Bool
dump m base none len = (none, false)
dump m base (some dst) len =
    if ltb (length m.words) base || ltb (length m.words - base) len
    then (some dst, false)
    else (some (dump_loop base 0 m.words dst len), true)

unfoldable pub size : Memory → ℕ
size m = u32 (length m.words)

-- The word at an address, and what a C++ `Memory` always satisfies: the capacity is a UINT32.
abbrev pub word : Memory → ℕ → ℕ
word m addr = get_or m.words addr 0

pub record IsValid (m : Memory) : Type 0 where
  pub small : length m.words < 2 ^ 32
  pub words_fit : (i : ℕ) → word m i < 2 ^ 32
