-- ===== src/Memory/Transfer.antt =====
-- `Memory::load` and `Memory::dump` of a block of words.
use maps.Prelude.{
  ℕ, zero, suc, ◌+◌, ◌-◌, ◌<◌, ◌≤◌, ◌≡◌, ◌≢◌, ◌||◌, ◌^◌, refl, ◌∙◌, sym, subst, true, false, some,
  List, length, get_or, set, arith, u32, ltb, lt_or_le, inl, inr, length-set, get_or-set_self,
  get_or-set_ne,
}
use maps.Memory.{Memory, load, dump, load_loop, dump_loop}

-- The words `words[from], ..., words[to - 1]` at their places, and every other word as before.
pub record HasWords (base from to : ℕ) (words old new : List ℕ) : Type 0 where
  pub same_size : length new ≡ length old
  pub inside : (k : ℕ) → from ≤ k → k < to → get_or new (base + k) 0 ≡ get_or words k 0
  pub outside :
      (x : ℕ) → ((k : ℕ) → from ≤ k → k < to → x ≢ base + k) → get_or new x 0 ≡ get_or old x 0

-- One word more, at the front.
pub put_first :
    (base i n : ℕ) (words old new : List ℕ)
    → base + i < length old
    → HasWords base (i + 1) (i + 1 + n) words (set old (base + i) (get_or words i 0)) new
    → HasWords base i (i + suc n) words old new
put_first base i n words old new room has =
    let v = get_or words i 0 in
    record {
      same_size = has.same_size ∙ length-set old (base + i) v;
      inside = λ k p q. elim (lt_or_le i k) [
        | inl later ↦ has.inside k (omega arith) (omega arith)
        | inr first ↦
            let here : i ≡ k = omega arith in
            subst (λ k. get_or new (base + k) 0 ≡ get_or words k 0) here
              (has.outside (base + i) (λ j p' q' e. omega arith)
                ∙ get_or-set_self old (base + i) v 0 room)
      ];
      outside = λ x out.
          has.outside x (λ k p q. out k (omega arith) (omega arith))
          ∙ get_or-set_ne old (base + i) x v 0 (λ e. out i (omega arith) (omega arith) (sym e));
    }

pub put_nothing : (base i : ℕ) (words old : List ℕ) → HasWords base i (i + 0) words old old
put_nothing base i words old = record {
  same_size = refl;
  inside = λ k p q. absurd (omega arith);
  outside = λ x out. refl;
}

load_loop-HasWords :
    (base i : ℕ) (src words : List ℕ) (n : ℕ)
    → base + i + n ≤ length words
    → length words < 2 ^ 32
    → HasWords base i (i + n) src words (load_loop base i src words n)
unfolding load_loop
load_loop-HasWords base i src words zero room small = put_nothing base i src words
load_loop-HasWords base i src words (suc n) room small =
    let v = get_or src i 0 in
    let address : u32 (base + i) ≡ base + i = omega (arith, room, small) in
    let same = length-set words (base + i) v in
    rw address (
      put_first base i n src words (load_loop base (i + 1) src (set words (base + i) v) n)
        (omega (arith, room))
        (load_loop-HasWords base (i + 1) src (set words (base + i) v) n (omega (arith, room, same))
          (omega (arith, small, same))))

dump_loop-kept :
    (base i : ℕ) (words dst : List ℕ) (n k : ℕ)
    → k < i
    → get_or (dump_loop base i words dst n) k 0 ≡ get_or dst k 0
unfolding dump_loop
dump_loop-kept base i words dst zero k h = refl
dump_loop-kept base i words dst (suc n) k h =
    dump_loop-kept base (i + 1) words (set dst i (get_or words (u32 (base + i)) 0)) n k
      (omega arith)
    ∙ get_or-set_ne dst i k (get_or words (u32 (base + i)) 0) 0 (λ e. omega arith)

dump_loop_lem :
    (base i : ℕ) (words dst : List ℕ) (n k : ℕ)
    → base + i + n ≤ length words
    → length words < 2 ^ 32
    → i + n ≤ length dst
    → i ≤ k
    → k < i + n
    → get_or (dump_loop base i words dst n) k 0 ≡ get_or words (base + k) 0
unfolding dump_loop
dump_loop_lem base i words dst zero k room small fits p q = absurd (omega arith)
dump_loop_lem base i words dst (suc n) k room small fits p q =
    let address : u32 (base + i) ≡ base + i = omega (arith, room, small) in
    let v = get_or words (base + i) 0 in
    let same = length-set dst i v in
    rw address (elim (lt_or_le i k) [
      | inl later ↦
          dump_loop_lem base (i + 1) words (set dst i v) n k (omega (arith, room)) small
            (omega (arith, fits, same)) (omega arith) (omega arith)
      | inr first ↦
          let here : i ≡ k = omega arith in
          subst
            (λ k.
              get_or (dump_loop base (i + 1) words (set dst i v) n) k 0 ≡ get_or words (base + k) 0)
            here
            (dump_loop-kept base (i + 1) words (set dst i v) n i (omega arith)
              ∙ get_or-set_self dst i v 0 (omega (arith, fits)))
    ])

in_range :
    (size base len : ℕ) → base + len ≤ size → (ltb size base || ltb (size - base) len) ≡ false
in_range size base len h = ground arith

-- A block loaded into a memory of fewer than 2 ^ 32 words, at a place with room for it, and dumped from
-- there into an array that is long enough: both succeed, the array holds the block, and every word of
-- the memory outside the block is as before.
pub dump-load :
    (m : Memory) (base : ℕ) (src dst : List ℕ) (len : ℕ)
    → base + len ≤ length m.words
    → length m.words < 2 ^ 32
    → len ≤ length dst
    → (m' : Memory) × (out : List ℕ) × (load m base (some src) len ≡ (m', true))
      × (dump m' base (some dst) len ≡ (some out, true))
      × ((k : ℕ) → k < len → get_or out k 0 ≡ get_or src k 0)
      × ((x : ℕ) → ((k : ℕ) → k < len → x ≢ base + k) → get_or m'.words x 0 ≡ get_or m.words x 0)
unfolding load dump
dump-load m base src dst len room small fits =
    let words = load_loop base 0 src m.words len in
    let has = load_loop-HasWords base 0 src m.words len (omega (arith, room)) small in
    let same = has.same_size in
    (
      record { words = words },
      dump_loop base 0 words dst len,
      rw (in_range (length m.words) base len room) refl,
      rw (in_range (length words) base len (omega (arith, room, same))) refl,
      (λ k h.
          dump_loop_lem base 0 words dst len k (omega (arith, room, same))
            (omega (arith, small, same)) (omega (arith, fits)) (omega arith) (omega arith)
          ∙ has.inside k (omega arith) (omega arith)),
      (λ x out. has.outside x (λ k p q. out k (omega arith))),
    )
