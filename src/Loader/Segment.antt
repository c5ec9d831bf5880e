-- ===== src/Loader/Segment.antt =====
-- What the memory holds after one segment of an ELF file is loaded.
use maps.Prelude.{
  ℕ, zero, suc, ◌+◌, ◌-◌, ◌≤◌, ◌≡◌, ◌==◌, ◌&&◌, ◌||◌, not, refl, ap, ◌∙◌, sym, Bool, true, false,
  some, List, [], ◌∷◌, length, get_or, drop, arith, u32, ltb, leb, if◌then◌else◌, Bool-cases, inl,
  inr,
}
use maps.Bus.{Bus, Store}
use maps.Bus.Bytes.{byte_at}
use maps.Loader.{ProgramHeader, load_segment, range_ok, load_bytes, zero_loop}
use maps.Loader.Bytes.{
  IsBytes, IsRoom, within, HoldsBytes, with_memory, load_bytes-HoldsBytes,
  load_bytes_loop-HoldsBytes, zero_loop-load_bytes_loop,
}
use maps.Memory.{Memory}

-- The byte at `x` after a segment: of the file, a zero of its rest, or the byte before.
abbrev pub segment_byte : List ℕ → ProgramHeader → ℕ → ℕ → ℕ
segment_byte bytes h x old =
    if within h.load_addr (h.load_addr + h.memsz) x
    then (if ltb (x - h.load_addr) h.filesz
        then get_or bytes (h.offset + (x - h.load_addr)) 0
        else 0)
    else old

-- A segment that lies in the file and fits a memory of `n` words.
pub record IsLoadable (b : Bus) (n size : ℕ) (h : ProgramHeader) : Type 0 where
  pub file_part : h.filesz ≤ h.memsz
  pub in_file : h.offset + h.filesz ≤ size
  pub room : IsRoom b n (h.load_addr + h.memsz)

get_or-drop : (bytes : List ℕ) (k i : ℕ) → get_or (drop k bytes) i 0 ≡ get_or bytes (k + i) 0
get_or-drop bytes zero i = let e : i ≡ 0 + i = omega arith in ap (λ j. get_or bytes j 0) e
get_or-drop [] (suc k) i = refl
get_or-drop (x ∷ bytes) (suc k) i =
    let e : suc (k + i) ≡ suc k + i = omega arith in
    get_or-drop bytes k i ∙ ap (λ j. get_or (x ∷ bytes) j 0) e

outside_part :
    (addr n x file old : ℕ)
    → (n == 0) ≡ true
    → (if within addr (addr + n) x then file else old) ≡ old
outside_part addr n x file old h = ground arith

file_and_rest :
    (addr filesz memsz x file old : ℕ)
    → filesz ≤ memsz
    → (if within (addr + filesz) (addr + filesz + (memsz - filesz)) x
        then 0
        else (if within addr (addr + filesz) x then file else old))
      ≡ (if within addr (addr + memsz) x then (if ltb (x - addr) filesz then file else 0) else old)
file_and_rest addr filesz memsz x file old h = ground arith

module _ (b : Bus) (bytes : List ℕ) (fit : IsBytes bytes) where
  dropped : (k : ℕ) → IsBytes (drop k bytes)
  dropped k i = rw (get_or-drop bytes k i) (fit (k + i))

  -- The part of a segment that stands in the file.
  load_part :
      (h : ProgramHeader) (s : Store)
      → IsLoadable b (length s.memory.words) (u32 (length bytes)) h
      → (m : Memory) × ((if not (h.filesz == 0)
            then load_bytes b h.load_addr (some (drop h.offset bytes)) h.filesz s
            else (s, true))
          ≡ (with_memory s m, true))
        × HoldsBytes
            (λ x.
              if within h.load_addr (h.load_addr + h.filesz) x
              then get_or bytes (h.offset + (x - h.load_addr)) 0
              else byte_at s.memory.words x)
            s.memory.words
            m.words
  load_part h s ok = elim (Bool-cases (h.filesz == 0)) [
    | inl empty ↦ (
      s.memory,
      ap
          (λ t.
            if not t
            then load_bytes b h.load_addr (some (drop h.offset bytes)) h.filesz s
            else (s, true))
          empty,
      record {
        same_size = refl;
        bytes = λ x. sym (outside_part h.load_addr h.filesz x _ (byte_at s.memory.words x) empty);
      },
    )
    | inr full ↦
        let sub : IsRoom b (length s.memory.words) (h.load_addr + h.filesz) = record {
          memory_bound = ok.room.memory_bound;
          below_devices = omega (arith, ok.room.below_devices, ok.file_part);
          memory_small = ok.room.memory_small;
          in_memory = omega (arith, ok.room.in_memory, ok.file_part);
        } in
        let (m, runs, has) =
          load_bytes-HoldsBytes b h.load_addr h.filesz (drop h.offset bytes) s (dropped h.offset)
            sub in
        (
          m,
          ap
                (λ t.
                  if not t
                  then load_bytes b h.load_addr (some (drop h.offset bytes)) h.filesz s
                  else (s, true))
                full
              ∙ runs,
          record {
            same_size = has.same_size;
            bytes = λ x.
                has.bytes x
                ∙ ap
                    (λ v.
                      if within h.load_addr (h.load_addr + h.filesz) x
                      then v
                      else byte_at s.memory.words x)
                    (get_or-drop bytes h.offset (x - h.load_addr));
          },
        )
  ]

  -- The file's part of a segment, and zeros after it.
  pub load_segment-HoldsBytes :
      (h : ProgramHeader) (s : Store)
      → IsLoadable b (length s.memory.words) (u32 (length bytes)) h
      → (m : Memory) × (load_segment b bytes (u32 (length bytes)) h s ≡ (with_memory s m, true))
        × HoldsBytes (λ x. segment_byte bytes h x (byte_at s.memory.words x)) s.memory.words m.words
  unfolding load_segment range_ok
  load_segment-HoldsBytes h s ok =
      let size = u32 (length bytes) in
      let passes : (ltb h.memsz h.filesz
            || not (leb h.offset size && leb h.filesz (size - h.offset)))
          ≡ false =
        ground (arith, ok.file_part, ok.in_file) in
      let (m1, runs1, has1) = load_part h s ok in
      let rest = h.memsz - h.filesz in
      let same = has1.same_size in
      let (m2, runs2, has2) =
        load_bytes_loop-HoldsBytes b h.load_addr [] h.filesz rest (with_memory s m1)
          (λ i. omega arith)
          (record {
            memory_bound = ok.room.memory_bound;
            below_devices = omega (arith, ok.room.below_devices, ok.file_part);
            memory_small = omega (arith, ok.room.memory_small, same);
            in_memory = omega (arith, ok.room.in_memory, ok.file_part, same);
          }) in
      (
        m2,
        rw passes (
            ap
              (λ (r : Store × Bool).
                if r.1 then zero_loop b h.load_addr h.filesz rest r.0 else (r.0, false))
              runs1
            ∙ zero_loop-load_bytes_loop b h.load_addr h.filesz rest (with_memory s m1)
            ∙ runs2),
        record {
          same_size = has2.same_size ∙ same;
          bytes = λ x.
              has2.bytes x
              ∙ ap
                  (λ v.
                    if within (h.load_addr + h.filesz) (h.load_addr + h.filesz + rest) x
                    then 0
                    else v)
                  (has1.bytes x)
              ∙ file_and_rest h.load_addr h.filesz h.memsz x
                  (get_or bytes (h.offset + (x - h.load_addr)) 0) (byte_at s.memory.words x)
                  ok.file_part;
        },
      )
