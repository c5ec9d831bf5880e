-- ===== src/Loader/Bytes.antt =====
-- What the memory holds, byte by byte, after `BinaryLoader::load_bytes`.
use maps.Prelude.{
  ℕ, zero, suc, ◌+◌, ◌*◌, ◌-◌, ◌/◌, ◌%◌, ◌<◌, ◌≤◌, ◌≡◌, ◌==◌, ◌^◌, ◌&&◌, refl, ap, ◌∙◌, sym, subst,
  fun_ext, Bool, true, false, some, List, [], length, get_or, arith, bound, length-set, u32, ltb,
  leb, if◌then◌else◌, set_byte, Bool-cases, inl, inr, ==→eq, ==→ne,
}
use maps.Bus.{Bus, Store, write8, npu_base}
use maps.Bus.Bytes.{IsDramByte, byte_at, put_byte, write8-put_byte, byte_at-put_byte}
use maps.Loader.{load_bytes, load_bytes_loop, zero_loop}
use maps.Memory.{Memory}

-- Every byte of a file is one.
abbrev pub IsBytes : List ℕ → Type 0
IsBytes bytes = (i : ℕ) → get_or bytes i 0 < 256

-- The addresses up to `to` lie in a memory of `n` words, below the devices.
pub record IsRoom (b : Bus) (n to : ℕ) : Type 0 where
  pub memory_bound : b.memory ≡ bound
  pub below_devices : to ≤ npu_base
  pub memory_small : n < 2 ^ 32
  pub in_memory : to ≤ 4 * n

-- Whether `x` is one of the addresses from `from` to `to - 1`.
abbrev pub within : ℕ → ℕ → ℕ → Bool
within from to x = leb from x && ltb x to

-- A memory of the same size whose bytes are `value`.
pub record HoldsBytes (value : ℕ → ℕ) (old new : List ℕ) : Type 0 where
  pub same_size : length new ≡ length old
  pub bytes : (x : ℕ) → byte_at new x ≡ value x

abbrev pub with_memory : Store → Memory → Store
with_memory s m = record s { memory = m }

none_within :
    (base i : ℕ) (bytes : List ℕ) (old x : ℕ)
    → old ≡ (if within (base + i) (base + i + 0) x then get_or bytes (x - base) 0 else old)
none_within base i bytes old x =
    let e : within (base + i) (base + i + 0) x ≡ false = ground arith in rw e refl

-- One byte put, and the rest of the loop.
one_more :
    (base i n : ℕ) (bytes : List ℕ) (x new old : ℕ)
    → new ≡ (if base + i == x then get_or bytes i 0 else old)
    → (if within (base + (i + 1)) (base + (i + 1) + n) x then get_or bytes (x - base) 0 else new)
      ≡ (if within (base + i) (base + i + suc n) x then get_or bytes (x - base) 0 else old)
one_more base i n bytes x new old put = elim (Bool-cases (base + i == x)) [
  | inl here ↦
      let e = ==→eq (base + i) x here in
      let past : within (base + (i + 1)) (base + (i + 1) + n) x ≡ false = ground (arith, e) in
      let now : within (base + i) (base + i + suc n) x ≡ true = ground (arith, e) in
      let index : i ≡ x - base = omega (arith, e) in
      rw (past, now)
        (put
          ∙ ap (λ t. if t then get_or bytes i 0 else old) here
          ∙ ap (λ k. get_or bytes k 0) index)
  | inr apart ↦
      let e = ==→ne (base + i) x apart in
      let same : within (base + (i + 1)) (base + (i + 1) + n) x
          ≡ within (base + i) (base + i + suc n) x =
        ground (arith, e) in
      let kept : new ≡ old = put ∙ ap (λ t. if t then get_or bytes i 0 else old) apart in
      rw (same, kept) refl
]

pub load_bytes_loop-HoldsBytes :
    (b : Bus) (base : ℕ) (bytes : List ℕ) (i n : ℕ) (s : Store)
    → IsBytes bytes
    → IsRoom b (length s.memory.words) (base + i + n)
    → (m : Memory) × (load_bytes_loop b base bytes i n s ≡ (with_memory s m, true))
      × HoldsBytes
          (λ x.
            if within (base + i) (base + i + n) x
            then get_or bytes (x - base) 0
            else byte_at s.memory.words x)
          s.memory.words
          m.words
unfolding load_bytes_loop
load_bytes_loop-HoldsBytes b base bytes i zero s fit room = (
  s.memory,
  refl,
  record { same_size = refl; bytes = λ x. none_within base i bytes (byte_at s.memory.words x) x },
)
load_bytes_loop-HoldsBytes b base bytes i (suc n) s fit room =
    let words = s.memory.words in
    let v = get_or bytes i 0 in
    let next = put_byte words (base + i) v in
    let s1 = with_memory s (record { words = next }) in
    let same : length next ≡ length words =
      length-set words ((base + i) / 4)
        (set_byte (get_or words ((base + i) / 4) 0) ((base + i) % 4) v) in
    let ok : IsDramByte b (length words) (base + i) = record {
      memory_bound = room.memory_bound;
      below_devices = omega (arith, room.below_devices);
      memory_small = room.memory_small;
      in_memory = omega (arith, room.in_memory);
    } in
    let address : u32 (base + i) ≡ base + i = omega (arith, room.below_devices) in
    let stored : write8 b (u32 (base + i)) v s ≡ (s1, true) =
      rw address (write8-put_byte b s (base + i) ok v) in
    let (m, runs, has) = load_bytes_loop-HoldsBytes b base bytes (i + 1) n s1 fit (record {
      memory_bound = room.memory_bound;
      below_devices = omega (arith, room.below_devices);
      memory_small = omega (arith, room.memory_small, same);
      in_memory = omega (arith, room.in_memory, same);
    }) in
    (
      m,
      rw (stored, load_bytes_loop) (rw stored runs),
      record {
        same_size = has.same_size ∙ same;
        bytes = λ x.
            has.bytes x
            ∙ one_more base i n bytes x (byte_at next x) (byte_at words x)
                (byte_at-put_byte words (base + i) x v ok.in_memory (fit i));
      },
    )

-- Zeros are the bytes of an empty file.
pub zero_loop-load_bytes_loop :
    (b : Bus) (base i n : ℕ) (s : Store) → zero_loop b base i n s ≡ load_bytes_loop b base [] i n s
unfolding zero_loop load_bytes_loop
zero_loop-load_bytes_loop b base i zero s = refl
zero_loop-load_bytes_loop b base i (suc n) s =
    ap
      (λ (next : Store → Store × Bool).
        (let (s', ok) = write8 b (u32 (base + i)) 0 s in
          elim ok [ true ↦ next s' | false ↦ (s', false) ]))
      (fun_ext (zero_loop-load_bytes_loop b base (i + 1) n))

-- `load_bytes` of `count` bytes to a place in DRAM below the devices: it succeeds, byte by byte the
-- place holds the file, and every other byte of the memory is as before.
pub load_bytes-HoldsBytes :
    (b : Bus) (base count : ℕ) (bytes : List ℕ) (s : Store)
    → IsBytes bytes
    → IsRoom b (length s.memory.words) (base + count)
    → (m : Memory) × (load_bytes b base (some bytes) count s ≡ (with_memory s m, true))
      × HoldsBytes
          (λ x.
            if within base (base + count) x
            then get_or bytes (x - base) 0
            else byte_at s.memory.words x)
          s.memory.words
          m.words
unfolding load_bytes
load_bytes-HoldsBytes b base count bytes s fit room =
    let start : base + 0 ≡ base = omega arith in
    let room' = subst (λ x. IsRoom b (length s.memory.words) (x + count)) (sym start) room in
    let (m, runs, has) = load_bytes_loop-HoldsBytes b base bytes 0 count s fit room' in
    (
      m,
      runs,
      subst
          (λ x0.
            HoldsBytes
              (λ x.
                if within x0 (x0 + count) x
                then get_or bytes (x - base) 0
                else byte_at s.memory.words x)
              s.memory.words m.words)
          start has,
    )
