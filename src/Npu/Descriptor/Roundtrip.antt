-- ===== src/Npu/Descriptor/Roundtrip.antt =====
-- `store_to_memory` and then `load_from_memory` of a descriptor.
use maps.Prelude.{
  ℕ, zero, suc, sym, subst, ◌≢◌, ◌+◌, ◌<◌, ◌≤◌, ◌≡◌, ◌^◌, refl, ap, ◌∙◌, true, some, List, [], ◌∷◌,
  arith, get_or, set, length, u32, lt→ltb, length-set, get_or-set_self, get_or-set_ne,
}
use maps.Memory.{Memory, read, write}
use maps.Memory.Access.{read_in_range, write_in_range_lem}
use maps.Npu.Config.{Dataflow, os, ws, is, other}
use maps.Npu.Descriptor.{
  Descriptor, read_words, write_words, load_from_memory, store_to_memory, to_words, of_words,
  validate, tile_fits, dataflow_of, dataflow_word, is_word_aligned, word_addr, word_count,
}

-- The words from `base + i` on, set to `raw`.
unfoldable pub put_all : List ℕ → ℕ → ℕ → List ℕ → List ℕ
put_all words base i [] = words
put_all words base i (x ∷ raw) = put_all (set words (base + i) x) base (i + 1) raw

-- Every word fits a non-negative INT32.
abbrev pub IsNonNegative : List ℕ → Type 0
IsNonNegative [] = Unit {0}
IsNonNegative (x ∷ raw) = (x < 2 ^ 31) × IsNonNegative raw

pub length-put_all :
    (words : List ℕ) (base i : ℕ) (raw : List ℕ) → length (put_all words base i raw) ≡ length words
unfolding put_all
length-put_all words base i [] = refl
length-put_all words base i (x ∷ raw) =
    length-put_all (set words (base + i) x) base (i + 1) raw ∙ length-set words (base + i) x

pub put_all_before :
    (words : List ℕ) (base i j : ℕ) (raw : List ℕ)
    → j < base + i
    → get_or (put_all words base i raw) j 0 ≡ get_or words j 0
unfolding put_all
put_all_before words base i j [] h = refl
put_all_before words base i j (x ∷ raw) h =
    put_all_before (set words (base + i) x) base (i + 1) j raw (omega (arith, h))
    ∙ get_or-set_ne words (base + i) j x 0 (λ e. omega (arith, e, h))

-- Every word but those set.
pub put_all_outside :
    (words : List ℕ) (base i x : ℕ) (raw : List ℕ)
    → ((f : ℕ) → i ≤ f → f < i + length raw → x ≢ base + f)
    → get_or (put_all words base i raw) x 0 ≡ get_or words x 0
unfolding put_all
put_all_outside words base i x [] out = refl
put_all_outside words base i x (v ∷ raw) out =
    put_all_outside (set words (base + i) v) base (i + 1) x raw
      (λ f p q. out f (omega arith) (omega arith))
    ∙ get_or-set_ne words (base + i) x v 0 (λ e. out i (omega arith) (omega arith) (sym e))

-- The words set.
pub put_all_at :
    (words : List ℕ) (base i f : ℕ) (raw : List ℕ)
    → f < length raw
    → base + i + length raw ≤ length words
    → get_or (put_all words base i raw) (base + (i + f)) 0 ≡ get_or raw f 0
unfolding put_all
put_all_at words base i f [] h room = absurd (omega arith)
put_all_at words base i zero (v ∷ raw) h room =
    let here : base + (i + 0) ≡ base + i = omega arith in
    rw here (
      put_all_before (set words (base + i) v) base (i + 1) (base + i) raw (omega arith)
      ∙ get_or-set_self words (base + i) v 0 (omega (arith, room)))
put_all_at words base i (suc f) (v ∷ raw) h room =
    let words' = set words (base + i) v in
    let next : i + 1 + f ≡ i + suc f = omega arith in
    subst (λ x. get_or (put_all words' base (i + 1) raw) (base + x) 0 ≡ get_or raw f 0) next
      (put_all_at words' base (i + 1) f raw (omega arith)
        (omega (arith, room, length-set words (base + i) v)))

write_words-put_all :
    (words : List ℕ) (base i : ℕ) (raw : List ℕ)
    → base + i + length raw ≤ length words
    → length words < 2 ^ 32
    → write_words (record { words = words }) base i raw
      ≡ (record { words = put_all words base i raw }, true)
unfolding put_all write_words
write_words-put_all words base i [] room small = refl
write_words-put_all words base i (x ∷ raw) room small =
    let address : u32 (base + i) ≡ base + i = omega (arith, room, small) in
    let same = length-set words (base + i) x in
    let memory : Memory = record { words = words } in
    let stored : write memory (u32 (base + i)) x
        ≡ (record { words = set words (base + i) x }, true) =
      rw address (write_in_range_lem memory (base + i) x (omega (arith, room))) in
    rw (stored, write_words)
      (rw stored (
        write_words-put_all (set words (base + i) x) base (i + 1) raw (omega (arith, same, room))
          (omega (arith, same, small))))

read_words-put_all :
    (words : List ℕ) (base i : ℕ) (raw : List ℕ)
    → base + i + length raw ≤ length words
    → length words < 2 ^ 32
    → IsNonNegative raw
    → read_words (record { words = put_all words base i raw }) base i (length raw) ≡ some raw
unfolding put_all read_words
read_words-put_all words base i [] room small fit = refl
read_words-put_all words base i (x ∷ raw) room small (h, fit) =
    let words' = set words (base + i) x in
    let same = length-set words (base + i) x in
    let stored : Memory = record { words = put_all words' base (i + 1) raw } in
    let kept : length stored.words ≡ length words = length-put_all words' base (i + 1) raw ∙ same in
    let address : u32 (base + i) ≡ base + i = omega (arith, room, small) in
    let head : read stored (u32 (base + i)) ≡ some x = rw address (
      read_in_range stored (base + i) (omega (arith, kept, room))
      ∙ ap some (
          put_all_before words' base (i + 1) (base + i) raw (omega arith)
          ∙ get_or-set_self words (base + i) x 0 (omega (arith, room)))) in
    let rest : read_words stored base (i + 1) (length raw) ≡ some raw =
      read_words-put_all words' base (i + 1) raw (omega (arith, same, room))
        (omega (arith, same, small)) fit in
    rw (head, read_words) (rw (lt→ltb x (2 ^ 31) h, rest, read_words) refl)

mode_restored :
    (mode : Dataflow) (m n k : ℕ)
    → tile_fits mode m n k ≡ true
    → dataflow_of (dataflow_word mode) ≡ mode
unfolding tile_fits dataflow_of dataflow_word
mode_restored os m n k h = refl
mode_restored ws m n k h = refl
mode_restored is m n k h = refl
mode_restored (other x) m n k h = cc

pub validate-fits :
    (d : Descriptor) → validate d ≡ true → tile_fits d.mode d.tile_m d.tile_n d.tile_k ≡ true
unfolding validate
validate-fits d valid = ground arith

of_words-to_words : (d e : Descriptor) → validate d ≡ true → of_words (to_words d) e ≡ d
unfolding of_words to_words
of_words-to_words d e valid =
    ap (λ mode. record d { mode = mode })
      (mode_restored d.mode d.tile_m d.tile_n d.tile_k (validate-fits d valid))

module _ (d : Descriptor) (m : Memory) (base : ℕ) (valid : validate d ≡ true)
    (fit : IsNonNegative (to_words d)) (aligned : is_word_aligned base ≡ true)
    (room : word_addr base + word_count ≤ length m.words) (small : length m.words < 2 ^ 32) where
  abbrev pub stored_at : Memory
  stored_at = record { words = put_all m.words (word_addr base) 0 (to_words d) }

  store-stored_at : store_to_memory d m base ≡ (stored_at, true)
  unfolding store_to_memory to_words
  store-stored_at =
      rw (valid, aligned)
        (write_words-put_all m.words (word_addr base) 0 (to_words d) (omega (arith, room)) small)

  pub load-stored_at : (e : Descriptor) → load_from_memory stored_at base e ≡ (d, true)
  unfolding load_from_memory to_words
  load-stored_at e =
      let loaded : read_words stored_at (word_addr base) 0 word_count ≡ some (to_words d) =
        read_words-put_all m.words (word_addr base) 0 (to_words d) (omega (arith, room)) small
          fit in
      rw (aligned, loaded) (rw (of_words-to_words d e valid, valid) refl)

  -- A valid descriptor whose ten words are below 2 ^ 31 survives memory: `store_to_memory` at an
  -- aligned place with room for it, in a memory of fewer than 2 ^ 32 words, succeeds, and
  -- `load_from_memory` from there then succeeds and gives the same descriptor, whatever the loading
  -- descriptor held.
  pub load_from_memory-store_to_memory :
      (e : Descriptor)
      → ((store_to_memory d m base).1 ≡ true)
        × (load_from_memory (store_to_memory d m base).0 base e ≡ (d, true))
  load_from_memory-store_to_memory e = rw store-stored_at (refl, load-stored_at e)
