-- ===== src/Loader/Words.antt =====
-- What the memory holds after `BinaryLoader::load_words`.
use maps.Prelude.{
  ℕ, zero, suc, ◌+◌, ◌<◌, ◌≤◌, ◌≡◌, ◌^◌, refl, true, some, List, length, get_or, set, arith, u32,
  length-set,
}
use maps.Memory.{Memory, write}
use maps.Memory.Access.{write_in_range_lem}
use maps.Memory.Transfer.{HasWords, put_first, put_nothing}
use maps.Loader.{load_words, load_words_loop}

load_words_loop-HasWords :
    (base : ℕ) (words : List ℕ) (i n : ℕ) (m : Memory)
    → base + i + n ≤ length m.words
    → length m.words < 2 ^ 32
    → (m' : Memory) × (load_words_loop base words i n m ≡ (m', true))
      × HasWords base i (i + n) words m.words m'.words
unfolding load_words_loop
load_words_loop-HasWords base words i zero m room small =
    (m, refl, put_nothing base i words m.words)
load_words_loop-HasWords base words i (suc n) m room small =
    let v = get_or words i 0 in
    let next = set m.words (base + i) v in
    let same = length-set m.words (base + i) v in
    let address : u32 (base + i) ≡ base + i = omega (arith, room, small) in
    let stored : write m (u32 (base + i)) v ≡ (record { words = next }, true) =
      rw address (write_in_range_lem m (base + i) v (omega (arith, room))) in
    let (m', runs, has) =
      load_words_loop-HasWords base words (i + 1) n (record { words = next })
        (omega (arith, room, same)) (omega (arith, small, same)) in
    (
      m',
      rw (stored, load_words_loop) (rw stored runs),
      put_first base i n words m.words m'.words (omega (arith, room)) has,
    )

-- `load_words` of `count` words to a place with room for them, in a memory of fewer than 2 ^ 32 words:
-- it succeeds, each word stands at its place, and every other word of the memory is as before.
pub load_words-HasWords :
    (m : Memory) (base : ℕ) (words : List ℕ) (count : ℕ)
    → base + count ≤ length m.words
    → length m.words < 2 ^ 32
    → (m' : Memory) × (load_words m base (some words) count ≡ (m', true))
      × HasWords base 0 (0 + count) words m.words m'.words
unfolding load_words
load_words-HasWords m base words count room small =
    load_words_loop-HasWords base words 0 count m (omega (arith, room)) small
