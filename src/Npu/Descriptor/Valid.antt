-- ===== src/Npu/Descriptor/Valid.antt =====
-- What `load_from_memory` guarantees of the descriptor that it loads.
use maps.Prelude.{
  ℕ, ◌≡◌, refl, sym, false, true, zero, suc, ◌<◌, ◌^◌, ◌+◌, Option, none, some, List, ◌∷◌, arith,
  get_or, ltb, if◌then◌else◌, u32, Option-cases, inl, inr, Bool-cases, subst, ltb→lt,
}
use maps.Memory.{Memory}
use maps.Memory
use maps.Npu.Descriptor.{
  Descriptor, make, read_words, load_from_memory, of_words, validate, word_addr, is_word_aligned,
  word_count,
}
use maps.Npu.Controller.Gemm.Range.{IsAddressed}
use maps.Npu.Schedule.Plan.{IsSmall}

-- Every word that was read is not negative.
AllSmall : Option (List ℕ) → Type 0
AllSmall none = Unit {0}
AllSmall (some raw) = (j : ℕ) → get_or raw j 0 < 2 ^ 31

head_small :
    (raw : ℕ) (rest : List ℕ)
    → raw < 2 ^ 31
    → ((j : ℕ) → get_or rest j 0 < 2 ^ 31)
    → (j : ℕ) → get_or (raw ∷ rest) j 0 < 2 ^ 31
head_small raw rest h hs zero = h
head_small raw rest h hs (suc j) = hs j

AllSmall-cons :
    (word : Option ℕ) (rest : Option (List ℕ))
    → AllSmall rest
    → AllSmall (elim word [
      | none ↦ none
      | some raw ↦
          if ltb raw (2 ^ 31) then elim rest [ none ↦ none | some r ↦ some (raw ∷ r) ] else none
    ])
unfolding AllSmall
AllSmall-cons none rest h = tt
AllSmall-cons (some raw) none h = elim (Bool-cases (ltb raw (2 ^ 31))) [
  | inl e ↦ rw e tt
  | inr e ↦ rw e tt
]
AllSmall-cons (some raw) (some r) h = elim (Bool-cases (ltb raw (2 ^ 31))) [
  | inl e ↦ rw e (head_small raw r (ltb→lt raw (2 ^ 31) e) h)
  | inr e ↦ rw e tt
]

read_words-AllSmall : (m : Memory) (base i n : ℕ) → AllSmall (read_words m base i n)
unfolding read_words AllSmall
read_words-AllSmall m base i zero = λ j. omega arith
read_words-AllSmall m base i (suc n) =
    AllSmall-cons (Memory.read m (u32 (base + i))) (read_words m base (i + 1) n)
      (read_words-AllSmall m base (i + 1) n)

of_words-IsSmall : (raw : List ℕ) (d : Descriptor) → AllSmall (some raw) → IsSmall (of_words raw d)
unfolding of_words AllSmall
of_words-IsSmall raw d h = record {
  m_small = h 0;
  n_small = h 1;
  k_small = h 2;
  tile_m_small = h 7;
  tile_n_small = h 8;
  tile_k_small = h 9;
}

-- What holds of the descriptor before, and of every one made of words that are not negative.
load_from_memory-all :
    (P : Descriptor → Type 0) (m : Memory) (base : ℕ) (d : Descriptor)
    → P d
    → ((raw : List ℕ) → AllSmall (some raw) → P (of_words raw d))
    → P (load_from_memory m base d).0
unfolding load_from_memory
load_from_memory-all P m base d before words = elim (Bool-cases (is_word_aligned base)) [
  | inr e ↦ rw e before
  | inl e ↦ rw e (elim (Option-cases (read_words m (word_addr base) 0 word_count)) [
    | inl n ↦ rw n before
    | inr (raw, r) ↦
        rw r (words raw (subst AllSmall r (read_words-AllSmall m (word_addr base) 0 word_count)))
  ])
]

-- Whether it succeeds or not, `load_from_memory` leaves a small descriptor small.
pub load_from_memory-IsSmall :
    (m : Memory) (base : ℕ) (d : Descriptor) → IsSmall d → IsSmall (load_from_memory m base d).0
load_from_memory-IsSmall m base d small =
    load_from_memory-all IsSmall m base d small (λ raw. of_words-IsSmall raw d)

of_words-IsAddressed :
    (raw : List ℕ) (d : Descriptor) → AllSmall (some raw) → IsAddressed (of_words raw d)
unfolding of_words AllSmall
of_words-IsAddressed raw d h = record {
  a_word = omega (arith, h 3);
  b_word = omega (arith, h 4);
  c_word = omega (arith, h 5);
}

pub load_from_memory-IsAddressed :
    (m : Memory) (base : ℕ) (d : Descriptor)
    → IsAddressed d
    → IsAddressed (load_from_memory m base d).0
load_from_memory-IsAddressed m base d addressed =
    load_from_memory-all IsAddressed m base d addressed (λ raw. of_words-IsAddressed raw d)

-- A load that succeeds leaves a valid descriptor.
pub load_from_memory-validate :
    (m : Memory) (base : ℕ) (d : Descriptor)
    → (load_from_memory m base d).1 ≡ true
    → validate (load_from_memory m base d).0 ≡ true
unfolding load_from_memory
load_from_memory-validate m base d h = ground (arith, h)

-- A descriptor that does not load is not valid.
pub load_from_memory-loaded :
    (m : Memory) (addr : ℕ)
    → (load_from_memory m addr make).1 ≡ validate (load_from_memory m addr make).0
unfolding load_from_memory
load_from_memory-loaded m addr = elim (Bool-cases (is_word_aligned addr)) [
  | inr e ↦ rw e (sym make_invalid)
  | inl e ↦ rw e (elim (Option-cases (read_words m (word_addr addr) 0 word_count)) [
    | inl n ↦ rw n (sym make_invalid)
    | inr (raw, r) ↦ rw r refl
  ])
]
  where
    make_invalid : validate make ≡ false
    make_invalid = unfold validate in refl
