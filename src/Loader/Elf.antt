-- ===== src/Loader/Elf.antt =====
-- What `ElfLoader::load` does with any file: which files it accepts, and what the memory then holds.
use maps.Prelude.{
  ℕ, ◌+◌, ◌*◌, ◌<◌, ◌≤◌, ◌≡◌, ◌==◌, ◌^◌, not, ◌&&◌, ◌||◌, refl, ap, ◌∙◌, Bool, true, false, some,
  List, length, arith, u32, ltb, if◌then◌else◌, Bool-cases, inl, inr,
}
use maps.Bus.{Bus, Store}
use maps.Bus.Bytes.{byte_at}
use maps.Loader.{load_elf, segments_loop, read_le16, read_le32, ident_ok, range_ok}
use maps.Loader.Bytes.{IsBytes, HoldsBytes, with_memory}
use maps.Loader.Format.{
  le16, le32, is_header, has_table, is_elf, read_le16-le16, read_le32-le32, header_checks,
  table_checks,
}
use maps.Loader.Segments.{image_byte, AllLoadable, segments_loop-HoldsBytes}
use maps.Memory.{Memory}

-- The result of a load: the store, the entry address and whether it succeeded.
abbrev Loaded : Type 0
Loaded = Store × ℕ × Bool

-- The early returns, by the two groups of checks.
early_returns :
    (short ident kind machine slim table : Bool) (none entry all : Loaded)
    → (if short || not ident
        then none
        else if not kind || not machine
        then none
        else if slim || not table
        then entry
        else all)
      ≡ (if not short && ident && kind && machine
          then (if not slim && table then all else entry)
          else none)
early_returns short ident kind machine slim table none entry all = ground arith

header_within :
    (at each count j total : ℕ)
    → 32 ≤ each
    → at + each * count ≤ total
    → j < count
    → at + j * each + 32 ≤ total
header_within at each count j total slim end q =
    let before : (j + 1) * each ≤ count * each = grind arith in grind (arith, before)

module _ (b : Bus) (bytes : List ℕ) (s : Store) (fit : IsBytes bytes)
    (small : length bytes < 2 ^ 32) where
  abbrev phoff : ℕ
  phoff = le32 bytes 28

  abbrev phentsize : ℕ
  phentsize = le16 bytes 42

  abbrev phnum : ℕ
  phnum = le16 bytes 44

  abbrev segments : Store × Bool
  segments = segments_loop b bytes (u32 (length bytes)) phoff phentsize 0 phnum s

  pub load_elf_lem : load_elf b (some bytes) s ≡ (
      if is_header bytes
      then (if has_table bytes
          then (segments.0, le32 bytes 24, segments.1)
          else (s, le32 bytes 24, false))
      else (s, 0, false))
  unfolding load_elf
  load_elf_lem =
      let entry = read_le32-le32 bytes fit 24 (omega arith) in
      let at = read_le32-le32 bytes fit 28 (omega arith) in
      let each = read_le16-le16 bytes fit 42 (omega arith) in
      let count = read_le16-le16 bytes fit 44 (omega arith) in
      let size = u32 (length bytes) in
      let (s', ok) =
        segments_loop b bytes size (read_le32 bytes 28) (read_le16 bytes 42) 0 (read_le16 bytes 44)
          s in
      early_returns (ltb size 52) (ident_ok bytes) (read_le16 bytes 16 == 2)
        (read_le16 bytes 18 == 243) (ltb (read_le16 bytes 42) 32)
        (range_ok (read_le32 bytes 28) (u32 (read_le16 bytes 42 * read_le16 bytes 44)) size)
        (s, 0, false) (s, read_le32 bytes 24, false) (s', read_le32 bytes 24, ok)
      ∙ rw (header_checks bytes fit small, table_checks bytes fit small, entry, at, each, count)
          refl

  pub table_fits :
      has_table bytes ≡ true
      → (j : ℕ) → 0 ≤ j
      → j < 0 + phnum
      → phoff + j * phentsize + 32 ≤ length bytes
  table_fits h j p q =
      let each : 32 ≤ phentsize = ground (arith, h) in
      let end : phoff + phentsize * phnum ≤ length bytes = ground (arith, h) in
      header_within phoff phentsize phnum j (length bytes) each end (omega (arith, q))

-- `ElfLoader::load` of a file of fewer than 2 ^ 32 bytes. It succeeds exactly where the file is an ELF32
-- executable for RISC-V, little-endian, whose table of program headers, of 32 bytes or more each, ends
-- within the file, given that the segments of such a file lie in the file and in DRAM. Byte by byte,
-- the memory then holds the segments in the order of their headers, read from the bytes of the file by
-- the format's arithmetic, each with zeros after its part of the file, and elsewhere what it held
-- before; of any other file nothing is loaded. `entry` is the address in the header, or 0 where the
-- header is not of such a file.
pub load_elf-HoldsBytes :
    (b : Bus) (bytes : List ℕ) (s : Store)
    → IsBytes bytes
    → length bytes < 2 ^ 32
    → (is_elf bytes ≡ true
        → AllLoadable b bytes
            (le32 bytes 28)
            (le16 bytes 42)
            (length s.memory.words)
            0
            (le16 bytes 44))
    → (m : Memory) × (load_elf b (some bytes) s
        ≡ (with_memory s m, (if is_header bytes then le32 bytes 24 else 0), is_elf bytes))
      × HoldsBytes
          (λ x.
            if is_elf bytes
            then image_byte bytes
                (le32 bytes 28)
                (le16 bytes 42)
                x
                0
                (le16 bytes 44)
                (byte_at s.memory.words x)
            else byte_at s.memory.words x)
          s.memory.words
          m.words
load_elf-HoldsBytes b bytes s fit small loadable =
    let lem = load_elf_lem b bytes s fit small in
    let kept : HoldsBytes (byte_at s.memory.words) s.memory.words s.memory.words = record {
      same_size = refl;
      bytes = λ x. refl;
    } in
    elim (Bool-cases (is_header bytes)) [
      | inr header ↦ (s.memory, lem ∙ rw header refl, rw header kept)
      | inl header ↦ elim (Bool-cases (has_table bytes)) [
        | inr table ↦ (s.memory, lem ∙ rw (header, table) refl, rw (header, table) kept)
        | inl table ↦
            let both : is_elf bytes ≡ true = rw (header, table) refl in
            let (m, runs, has) =
              segments_loop-HoldsBytes b bytes fit small (le32 bytes 28) (le16 bytes 42) 0
                (le16 bytes 44) s (table_fits b bytes s fit small table) (loadable both) in
            (
              m,
              lem ∙ rw (header, table) (ap (λ (r : Store × Bool). (r.0, le32 bytes 24, r.1)) runs),
              rw (header, table) has,
            )
      ]
    ]
