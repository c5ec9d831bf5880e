-- ===== src/Loader.antt =====
-- `BinaryLoader` and `ElfLoader`: src/maps-sim/src/system/loader.cpp. Opening and reading a file is
-- not modelled: a file is its bytes, or `none` where the path is null or it cannot be opened.
pub mod Words
pub mod Bytes
pub mod Format
pub mod Segment
pub mod Segments
pub mod Elf
pub mod Refuses
pub mod Tests
use maps.Prelude.{
  ℕ, zero, suc, ◌+◌, ◌-◌, ◌*◌, ◌^◌, Bool, true, false, not, ◌&&◌, ◌||◌, Option, none, some, List,
  [], ◌∷◌, length, get_or, drop, ltb, leb, ◌==◌, if◌then◌else◌, u16, u32, bit_or,
}
use maps.Memory.{Memory}
use maps.Memory
use maps.Bus.{Bus, Store}
use maps.Bus

-- `words[i]` from `i` on, `n` of them.
load_words_loop : ℕ → List ℕ → ℕ → ℕ → Memory → Memory × Bool
load_words_loop base_word words i zero m = (m, true)
load_words_loop base_word words i (suc n) m =
    let (m', ok) = Memory.write m (u32 (base_word + i)) (get_or words i 0) in
    elim ok [ true ↦ load_words_loop base_word words (i + 1) n m' | false ↦ (m', false) ]

pub load_words : Memory → ℕ → Option (List ℕ) → ℕ → Memory × Bool
unfolding load_words_loop
load_words m base_word none count = (m, false)
load_words m base_word (some words) count = load_words_loop base_word words 0 count m

-- `bytes[i]` from `i` on, `n` of them.
unfoldable pub load_bytes_loop : Bus → ℕ → List ℕ → ℕ → ℕ → Store → Store × Bool
load_bytes_loop b base_addr bytes i zero s = (s, true)
load_bytes_loop b base_addr bytes i (suc n) s =
    let (s', ok) = Bus.write8 b (u32 (base_addr + i)) (get_or bytes i 0) s in
    elim ok [ true ↦ load_bytes_loop b base_addr bytes (i + 1) n s' | false ↦ (s', false) ]

unfoldable pub load_bytes : Bus → ℕ → Option (List ℕ) → ℕ → Store → Store × Bool
unfolding load_bytes_loop
load_bytes b base_addr none count s = (s, false)
load_bytes b base_addr (some bytes) count s = load_bytes_loop b base_addr bytes 0 count s

pub load_file : Bus → ℕ → Option (List ℕ) → Store → Store × Bool
unfolding load_bytes
load_file b base_addr none s = (s, false)
load_file b base_addr (some []) s = (s, true)
load_file b base_addr (some (x ∷ bytes)) s =
    load_bytes b base_addr (some (x ∷ bytes)) (u32 (length (x ∷ bytes))) s

abbrev pub byte_at : List ℕ → ℕ → ℕ
byte_at bytes offset = get_or bytes offset 0

unfoldable pub read_le16 : List ℕ → ℕ → ℕ
read_le16 bytes offset =
    u16 (bit_or (byte_at bytes offset) (byte_at bytes (u32 (offset + 1)) * 2 ^ 8))

unfoldable pub read_le32 : List ℕ → ℕ → ℕ
read_le32 bytes offset =
    bit_or
      (bit_or (bit_or (byte_at bytes offset) (u32 (byte_at bytes (u32 (offset + 1)) * 2 ^ 8)))
        (u32 (byte_at bytes (u32 (offset + 2)) * 2 ^ 16)))
      (u32 (byte_at bytes (u32 (offset + 3)) * 2 ^ 24))

unfoldable pub range_ok : ℕ → ℕ → ℕ → Bool
range_ok offset size total = leb offset total && leb size (total - offset)

-- `for (zero = filesz; zero < memsz; ++zero)`, `n` rounds from `at`.
unfoldable pub zero_loop : Bus → ℕ → ℕ → ℕ → Store → Store × Bool
zero_loop b load_addr at zero s = (s, true)
zero_loop b load_addr at (suc n) s =
    let (s', ok) = Bus.write8 b (u32 (load_addr + at)) 0 s in
    elim ok [ true ↦ zero_loop b load_addr (at + 1) n s' | false ↦ (s', false) ]

-- A program header's fields that the loader reads.
pub record ProgramHeader : Type 0 where
  pub offset : ℕ
  pub load_addr : ℕ
  pub filesz : ℕ
  pub memsz : ℕ

unfoldable pub header_at : List ℕ → ℕ → ProgramHeader
unfolding read_le32
header_at bytes ph =
    let paddr = read_le32 bytes (u32 (ph + 12)) in
    record {
      offset = read_le32 bytes (u32 (ph + 4));
      load_addr = if not (paddr == 0) then paddr else read_le32 bytes (u32 (ph + 8));
      filesz = read_le32 bytes (u32 (ph + 16));
      memsz = read_le32 bytes (u32 (ph + 20));
    }

-- One PT_LOAD segment.
unfoldable pub load_segment : Bus → List ℕ → ℕ → ProgramHeader → Store → Store × Bool
unfolding load_bytes zero_loop range_ok
load_segment b bytes size h s =
    if ltb h.memsz h.filesz || not (range_ok h.offset h.filesz size)
    then (s, false)
    else (let (s', ok) =
          if not (h.filesz == 0)
          then load_bytes b h.load_addr (some (drop h.offset bytes)) h.filesz s
          else (s, true) in
        if ok then zero_loop b h.load_addr h.filesz (h.memsz - h.filesz) s' else (s', false))

-- The loop over the program headers from `i` on, `n` of them.
unfoldable pub segments_loop : Bus → List ℕ → ℕ → ℕ → ℕ → ℕ → ℕ → Store → Store × Bool
unfolding header_at load_segment
segments_loop b bytes size phoff phentsize i zero s = (s, true)
segments_loop b bytes size phoff phentsize i (suc n) s =
    let ph = u32 (phoff + i * phentsize) in
    let (s', ok) =
      if not (read_le32 bytes ph == 1)
      then (s, true)
      else load_segment b bytes size (header_at bytes ph) s in
    elim ok [ true ↦ segments_loop b bytes size phoff phentsize (i + 1) n s' | false ↦ (s', false) ]

-- The magic number, the class and the byte order.
unfoldable pub ident_ok : List ℕ → Bool
ident_ok bytes =
    byte_at bytes 0 == 0x7f
    && byte_at bytes 1 == b'E'
    && byte_at bytes 2 == b'L'
    && byte_at bytes 3 == b'F'
    && byte_at bytes 4 == 1
    && byte_at bytes 5 == 1

-- The store, `entry` and the result.
unfoldable pub load_elf : Bus → Option (List ℕ) → Store → Store × ℕ × Bool
unfolding read_le16 read_le32 ident_ok range_ok segments_loop
load_elf b none s = (s, 0, false)
load_elf b (some bytes) s =
    let size = u32 (length bytes) in
    if ltb size 52 || not (ident_ok bytes)
    then (s, 0, false)
    else if not (read_le16 bytes 16 == 2) || not (read_le16 bytes 18 == 243)
    then (s, 0, false)
    else (let entry = read_le32 bytes 24 in
        let phoff = read_le32 bytes 28 in
        let phentsize = read_le16 bytes 42 in
        let phnum = read_le16 bytes 44 in
        if ltb phentsize 32 || not (range_ok phoff (u32 (phentsize * phnum)) size)
        then (s, entry, false)
        else (let (s', ok) = segments_loop b bytes size phoff phentsize 0 phnum s in
            (s', entry, ok)))
