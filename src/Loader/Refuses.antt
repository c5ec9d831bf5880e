-- ===== src/Loader/Refuses.antt =====
-- The files that `ElfLoader::load` does not load: those with a segment that is not well formed.
use maps.Prelude.{
  ℕ, zero, suc, ◌+◌, ◌*◌, ◌-◌, ◌<◌, ◌≤◌, ◌≡◌, ◌==◌, ◌^◌, not, ◌&&◌, ◌||◌, refl, ap, ◌∙◌, sym, subst,
  Bool, true, false, some, List, length, arith, u32, ltb, leb, if◌then◌else◌, inl, inr, eq→==,
  lt_or_le,
}
use maps.Bus.{Bus, Store}
use maps.Loader.{
  ProgramHeader, header_at, load_elf, load_segment, segments_loop, read_le32, range_ok,
}
use maps.Loader.Bytes.{IsBytes}
use maps.Loader.Elf.{load_elf_lem, table_fits}
use maps.Loader.Format.{
  le16, le32, segment_at, is_header, has_table, is_elf, read_le32-le32, header_at-segment_at,
}

-- The part of a segment that stands in the file fits the segment and ends within the file.
pub record IsFormed (size : ℕ) (h : ProgramHeader) : Type 0 where
  pub file_part : h.filesz ≤ h.memsz
  pub in_file : h.offset + h.filesz ≤ size

-- A success says how the tests went.
passed :
    (refuse : Bool) (s : Store) (rest : Store × Bool)
    → (if refuse then (s, false) else rest).1 ≡ true
    → refuse ≡ false
passed true s rest h = cc
passed false s rest h = refl

-- A round, and the rest of the loop where it succeeds.
abbrev goes_on : Store × Bool → (Store → Store × Bool) → Store × Bool
goes_on r rest = elim r.1 [ true ↦ rest r.0 | false ↦ (r.0, false) ]

both_rounds :
    (r : Store × Bool) (rest : Store → Store × Bool)
    → (goes_on r rest).1 ≡ true
    → (r.1 ≡ true) × ((rest r.0).1 ≡ true)
both_rounds (s, true) rest h = (refl, h)
both_rounds (s, false) rest h = cc

load_segment-IsFormed :
    (b : Bus) (bytes : List ℕ) (size : ℕ) (h : ProgramHeader) (s : Store)
    → (load_segment b bytes size h s).1 ≡ true
    → IsFormed size h
unfolding load_segment range_ok
load_segment-IsFormed b bytes size h s done =
    let tests =
      passed (ltb h.memsz h.filesz || not (leb h.offset size && leb h.filesz (size - h.offset))) s _
        done in
    record { file_part = ground (arith, tests); in_file = ground (arith, tests) }

module _ (b : Bus) (bytes : List ℕ) (fit : IsBytes bytes) (small : length bytes < 2 ^ 32)
    (phoff phentsize : ℕ) where
  loaded-IsFormed :
      (j : ℕ) (s : Store)
      → phoff + j * phentsize + 32 ≤ length bytes
      → le32 bytes (phoff + j * phentsize) ≡ 1
      → (let ph = u32 (phoff + j * phentsize) in
          if not (read_le32 bytes ph == 1)
          then (s, true)
          else load_segment b bytes (u32 (length bytes)) (header_at bytes ph) s).1
        ≡ true
      → IsFormed (length bytes) (segment_at bytes (phoff + j * phentsize))
  loaded-IsFormed j s here type done =
      let ph = phoff + j * phentsize in
      let size : u32 (length bytes) ≡ length bytes = omega (arith, small) in
      let exact : u32 ph ≡ ph = omega (arith, here, small) in
      let kind = read_le32-le32 bytes fit ph (omega (arith, here, small)) in
      let header = header_at-segment_at bytes fit ph (omega (arith, here, small)) in
      let load = eq→== (le32 bytes ph) 1 type in
      let runs : (if not (read_le32 bytes (u32 ph) == 1)
            then (s, true)
            else load_segment b bytes (u32 (length bytes)) (header_at bytes (u32 ph)) s)
          ≡ load_segment b bytes (length bytes) (segment_at bytes ph) s =
        rw (exact, kind, header, load, size) refl in
      load_segment-IsFormed b bytes (length bytes) (segment_at bytes ph) s
        (ap (λ (r : Store × Bool). r.1) (sym runs) ∙ done)

  segments_loop-IsFormed :
      (i n : ℕ) (s : Store)
      → ((j : ℕ) → i ≤ j → j < i + n → phoff + j * phentsize + 32 ≤ length bytes)
      → (segments_loop b bytes (u32 (length bytes)) phoff phentsize i n s).1 ≡ true
      → (j : ℕ) → i ≤ j
      → j < i + n
      → le32 bytes (phoff + j * phentsize) ≡ 1
      → IsFormed (length bytes) (segment_at bytes (phoff + j * phentsize))
  unfolding segments_loop
  segments_loop-IsFormed i zero s table done j p q type = absurd (omega (arith, p, q))
  segments_loop-IsFormed i (suc n) s table done j p q type =
      let (first, rest) =
        both_rounds
          (let ph = u32 (phoff + i * phentsize) in
            if not (read_le32 bytes ph == 1)
            then (s, true)
            else load_segment b bytes (u32 (length bytes)) (header_at bytes ph) s)
          (λ s'. segments_loop b bytes (u32 (length bytes)) phoff phentsize (i + 1) n s') done in
      elim (lt_or_le i j) [
        | inl later ↦
            segments_loop-IsFormed (i + 1) n _
              (λ k pk qk. table k (omega (arith, pk)) (omega (arith, qk))) rest j
              (omega (arith, later)) (omega (arith, q)) type
        | inr now ↦
            let same : i ≡ j = omega (arith, now, p) in
            subst
              (λ k.
                le32 bytes (phoff + k * phentsize) ≡ 1
                → IsFormed (length bytes) (segment_at bytes (phoff + k * phentsize)))
              same (λ t. loaded-IsFormed i s (table i (omega arith) (omega arith)) t first) type
      ]

-- The two groups of checks of a load that succeeds.
both_groups :
    (header table : Bool) (none entry all : Store × ℕ × Bool)
    → none.2 ≡ false
    → entry.2 ≡ false
    → (if header then (if table then all else entry) else none).2 ≡ true
    → (header && table ≡ true) × (all.2 ≡ true)
both_groups true true none entry all hn he h = (refl, h)
both_groups true false none entry all hn he h = cc
both_groups false table none entry all hn he h = cc

-- A file of fewer than 2 ^ 32 bytes that `ElfLoader::load` loads with success is an ELF executable with a
-- table of program headers within the file, and in each segment of the type PT_LOAD the part in the
-- file is no longer than the segment and ends within the file, whatever the memory.
pub load_elf-IsFormed :
    (b : Bus) (bytes : List ℕ) (s : Store)
    → IsBytes bytes
    → length bytes < 2 ^ 32
    → (load_elf b (some bytes) s).2 ≡ true
    → (is_elf bytes ≡ true)
      × ((j : ℕ)
          → j < le16 bytes 44
          → le32 bytes (le32 bytes 28 + j * le16 bytes 42) ≡ 1
          → IsFormed (length bytes) (segment_at bytes (le32 bytes 28 + j * le16 bytes 42)))
load_elf-IsFormed b bytes s fit small done =
    let at = le32 bytes 28 in
    let each = le16 bytes 42 in
    let r = segments_loop b bytes (u32 (length bytes)) at each 0 (le16 bytes 44) s in
    let (elf, loop) =
      both_groups (is_header bytes) (has_table bytes) (s, 0, false) (s, le32 bytes 24, false)
        (r.0, le32 bytes 24, r.1) refl refl
        (ap (λ (r : Store × ℕ × Bool). r.2) (sym (load_elf_lem b bytes s fit small)) ∙ done) in
    let table : has_table bytes ≡ true = ground (arith, elf) in
    (
      elf,
      λ j q type.
          segments_loop-IsFormed b bytes fit small at each 0 (le16 bytes 44) s
            (table_fits b bytes s fit small table) loop j (omega arith) (omega (arith, q)) type,
    )
