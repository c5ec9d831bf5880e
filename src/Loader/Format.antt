-- ===== src/Loader/Format.antt =====
-- The format of an ELF32 executable for RISC-V, by arithmetic on the bytes of the file, and the
-- loader's readers of it.
use maps.Prelude.{
  ℕ, ◌+◌, ◌*◌, ◌<◌, ◌≤◌, ◌≡◌, ◌^◌, refl, ap, Bool, true, false, not, ◌&&◌, List, length, get_or,
  arith, u32, ltb, leb, ◌==◌, if◌then◌else◌, bit_or_disjoint_right,
}
use maps.Loader.{ProgramHeader, header_at, read_le16, read_le32, range_ok, ident_ok}
use maps.Loader.Bytes.{IsBytes}

-- The numbers of two and of four bytes at an offset, the lowest byte first.
abbrev pub le16 : List ℕ → ℕ → ℕ
le16 bytes at = get_or bytes at 0 + 256 * get_or bytes (at + 1) 0

abbrev pub le32 : List ℕ → ℕ → ℕ
le32 bytes at =
    get_or bytes at 0
    + 256 * get_or bytes (at + 1) 0
    + 65536 * get_or bytes (at + 2) 0
    + 16777216 * get_or bytes (at + 3) 0

-- The segment that the program header at `ph` describes: `p_offset`, the physical address or, where
-- that is 0, the virtual one, `p_filesz` and `p_memsz`.
abbrev pub segment_at : List ℕ → ℕ → ProgramHeader
segment_at bytes ph = record {
  offset = le32 bytes (ph + 4);
  load_addr = if le32 bytes (ph + 12) == 0 then le32 bytes (ph + 8) else le32 bytes (ph + 12);
  filesz = le32 bytes (ph + 16);
  memsz = le32 bytes (ph + 20);
}

-- Magic number, 32 bits, little-endian; an executable, for RISC-V.
abbrev pub is_header : List ℕ → Bool
is_header bytes =
    leb 52 (length bytes)
    && (get_or bytes 0 0 == 127
        && get_or bytes 1 0 == 69
        && get_or bytes 2 0 == 76
        && get_or bytes 3 0 == 70
        && get_or bytes 4 0 == 1
        && get_or bytes 5 0 == 1)
    && le16 bytes 16 == 2
    && le16 bytes 18 == 243

-- The program headers have 32 bytes or more each and end within the file.
abbrev pub has_table : List ℕ → Bool
has_table bytes =
    leb 32 (le16 bytes 42) && leb (le32 bytes 28 + le16 bytes 42 * le16 bytes 44) (length bytes)

abbrev pub is_elf : List ℕ → Bool
is_elf bytes = is_header bytes && has_table bytes

not-if : (c : Bool) (x y : ℕ) → (if not c then x else y) ≡ (if c then y else x)
not-if true x y = refl
not-if false x y = refl

module _ (bytes : List ℕ) (fit : IsBytes bytes) where
  pub read_le16-le16 : (at : ℕ) → at + 1 < 2 ^ 32 → read_le16 bytes at ≡ le16 bytes at
  unfolding read_le16
  read_le16-le16 at h =
      let lo = get_or bytes at 0 in
      let hi = get_or bytes (at + 1) 0 in
      let next : u32 (at + 1) ≡ at + 1 = omega (arith, h) in
      let joined = bit_or_disjoint_right 8 (hi * 2 ^ 8) lo (omega arith) (fit at) in
      rw next (omega (arith, joined, fit at, fit (at + 1)))

  pub read_le32-le32 : (at : ℕ) → at + 3 < 2 ^ 32 → read_le32 bytes at ≡ le32 bytes at
  unfolding read_le32
  read_le32-le32 at h =
      let b0 = get_or bytes at 0 in
      let b1 = get_or bytes (at + 1) 0 in
      let b2 = get_or bytes (at + 2) 0 in
      let b3 = get_or bytes (at + 3) 0 in
      let f0 = fit at in
      let f1 = fit (at + 1) in
      let f2 = fit (at + 2) in
      let f3 = fit (at + 3) in
      let at1 : u32 (at + 1) ≡ at + 1 = omega (arith, h) in
      let at2 : u32 (at + 2) ≡ at + 2 = omega (arith, h) in
      let at3 : u32 (at + 3) ≡ at + 3 = omega (arith, h) in
      let s1 : u32 (b1 * 2 ^ 8) ≡ b1 * 256 = omega (arith, f1) in
      let s2 : u32 (b2 * 2 ^ 16) ≡ b2 * 65536 = omega (arith, f2) in
      let s3 : u32 (b3 * 2 ^ 24) ≡ b3 * 16777216 = omega (arith, f3) in
      let two = bit_or_disjoint_right 8 (b1 * 256) b0 (omega arith) f0 in
      let three =
        bit_or_disjoint_right 16 (b2 * 65536) (b0 + b1 * 256) (omega arith)
          (omega (arith, f0, f1)) in
      let four =
        bit_or_disjoint_right 24 (b3 * 16777216) (b0 + b1 * 256 + b2 * 65536) (omega arith)
          (omega (arith, f0, f1, f2)) in
      rw (at1, at2, at3, s1, s2, s3, two, three, four) (omega arith)

  pub header_at-segment_at : (ph : ℕ) → ph + 24 ≤ 2 ^ 32 → header_at bytes ph ≡ segment_at bytes ph
  unfolding header_at
  header_at-segment_at ph h =
      let p4 : u32 (ph + 4) ≡ ph + 4 = omega (arith, h) in
      let p8 : u32 (ph + 8) ≡ ph + 8 = omega (arith, h) in
      let p12 : u32 (ph + 12) ≡ ph + 12 = omega (arith, h) in
      let p16 : u32 (ph + 16) ≡ ph + 16 = omega (arith, h) in
      let p20 : u32 (ph + 20) ≡ ph + 20 = omega (arith, h) in
      let r4 = read_le32-le32 (ph + 4) (omega (arith, h)) in
      let r8 = read_le32-le32 (ph + 8) (omega (arith, h)) in
      let r12 = read_le32-le32 (ph + 12) (omega (arith, h)) in
      let r16 = read_le32-le32 (ph + 16) (omega (arith, h)) in
      let r20 = read_le32-le32 (ph + 20) (omega (arith, h)) in
      rw (p4, p8, p12, p16, p20, r4, r8, r12, r16, r20)
        (ap
          (λ (a : ℕ). record {
            offset = le32 bytes (ph + 4);
            load_addr = a;
            filesz = le32 bytes (ph + 16);
            memsz = le32 bytes (ph + 20);
          })
          (not-if (le32 bytes (ph + 12) == 0) (le32 bytes (ph + 12)) (le32 bytes (ph + 8))))

module _ (bytes : List ℕ) (fit : IsBytes bytes) (small : length bytes < 2 ^ 32) where
  -- The checks of the loader are those of the format.
  pub header_checks :
      (not (ltb (u32 (length bytes)) 52)
        && ident_ok bytes
        && read_le16 bytes 16 == 2
        && read_le16 bytes 18 == 243)
      ≡ is_header bytes
  unfolding ident_ok
  header_checks =
      let size : u32 (length bytes) ≡ length bytes = omega (arith, small) in
      let kind = read_le16-le16 bytes fit 16 (omega arith) in
      let machine = read_le16-le16 bytes fit 18 (omega arith) in
      rw (size, kind, machine) (ground arith)

  pub table_checks :
      (not (ltb (read_le16 bytes 42) 32)
        && range_ok
            (read_le32 bytes 28)
            (u32 (read_le16 bytes 42 * read_le16 bytes 44))
            (u32 (length bytes)))
      ≡ has_table bytes
  unfolding range_ok
  table_checks =
      let size : u32 (length bytes) ≡ length bytes = omega (arith, small) in
      let each = read_le16-le16 bytes fit 42 (omega arith) in
      let count = read_le16-le16 bytes fit 44 (omega arith) in
      let at = read_le32-le32 bytes fit 28 (omega arith) in
      let each_small : le16 bytes 42 < 65536 = omega (arith, fit 42, fit 43) in
      let count_small : le16 bytes 44 < 65536 = omega (arith, fit 44, fit 45) in
      let product : le16 bytes 42 * le16 bytes 44 < 2 ^ 32 = grind arith in
      let table : u32 (le16 bytes 42 * le16 bytes 44) ≡ le16 bytes 42 * le16 bytes 44 =
        omega (arith, product) in
      rw (size, each, count, at, table) (ground arith)
