-- ===== src/Loader/Segments.antt =====
-- What the memory holds after the segments of an ELF file are loaded, one over the other.
use maps.Prelude.{
  ℕ, zero, suc, ◌+◌, ◌*◌, ◌<◌, ◌≤◌, ◌≡◌, ◌==◌, ◌^◌, not, refl, ap, ◌∙◌, sym, subst, Bool, true,
  false, List, length, arith, u32, if◌then◌else◌, Bool-cases, inl, inr, ==→eq,
}
use maps.Bus.{Bus, Store}
use maps.Bus.Bytes.{byte_at}
use maps.Loader.{header_at, load_segment, segments_loop, read_le32}
use maps.Loader.Bytes.{IsBytes, HoldsBytes, with_memory}
use maps.Loader.Format.{le32, segment_at, read_le32-le32, header_at-segment_at}
use maps.Loader.Segment.{IsLoadable, load_segment-HoldsBytes, segment_byte}
use maps.Memory.{Memory}

-- The byte at `x` after the segments from header `i` on, `n` of them; those of another type than
-- PT_LOAD are passed over.
pub image_byte : List ℕ → ℕ → ℕ → ℕ → ℕ → ℕ → ℕ → ℕ
image_byte bytes phoff phentsize x i zero old = old
image_byte bytes phoff phentsize x i (suc n) old =
    let ph = phoff + i * phentsize in
    image_byte bytes phoff phentsize x (i + 1) n
      (if le32 bytes ph == 1 then segment_byte bytes (segment_at bytes ph) x old else old)

-- Every segment to load from header `from` on, `count` of them, is loadable into `words` words.
abbrev pub AllLoadable : Bus → List ℕ → ℕ → ℕ → ℕ → ℕ → ℕ → Type 0
AllLoadable b bytes phoff phentsize words from count =
    (j : ℕ)
    → from ≤ j
    → j < from + count
    → le32 bytes (phoff + j * phentsize) ≡ 1
    → IsLoadable b words (length bytes) (segment_at bytes (phoff + j * phentsize))

module _ (b : Bus) (bytes : List ℕ) (fit : IsBytes bytes) (small : length bytes < 2 ^ 32)
    (phoff phentsize : ℕ) where
  size_exact : u32 (length bytes) ≡ length bytes
  size_exact = omega (arith, small)

  -- One header.
  one_header :
      (i : ℕ) (s : Store)
      → phoff + i * phentsize + 32 ≤ length bytes
      → (le32 bytes (phoff + i * phentsize) ≡ 1
          → IsLoadable b
              (length s.memory.words)
              (length bytes)
              (segment_at bytes (phoff + i * phentsize)))
      → (m : Memory) × ((let ph = u32 (phoff + i * phentsize) in
            if not (read_le32 bytes ph == 1)
            then (s, true)
            else load_segment b bytes (u32 (length bytes)) (header_at bytes ph) s)
          ≡ (with_memory s m, true))
        × HoldsBytes
            (λ x.
              (let ph = phoff + i * phentsize in
                if le32 bytes ph == 1
                then segment_byte bytes (segment_at bytes ph) x (byte_at s.memory.words x)
                else byte_at s.memory.words x))
            s.memory.words
            m.words
  one_header i s here ok =
      let ph = phoff + i * phentsize in
      let exact : u32 ph ≡ ph = omega (arith, here, small) in
      let type = read_le32-le32 bytes fit ph (omega (arith, here, small)) in
      let header = header_at-segment_at bytes fit ph (omega (arith, here, small)) in
      elim (Bool-cases (le32 bytes ph == 1)) [
        | inl load ↦
            let (m, runs, has) = load_segment-HoldsBytes b bytes fit (segment_at bytes ph) s (
              subst (λ n. IsLoadable b (length s.memory.words) n (segment_at bytes ph))
                (sym size_exact) (ok (==→eq (le32 bytes ph) 1 load))) in
            (m, rw (exact, type, header, load) runs, rw load has)
        | inr other ↦ (
          s.memory,
          rw (exact, type, other) refl,
          rw other (record { same_size = refl; bytes = λ x. refl }),
        )
      ]

  pub segments_loop-HoldsBytes :
      (i n : ℕ) (s : Store)
      → ((j : ℕ) → i ≤ j → j < i + n → phoff + j * phentsize + 32 ≤ length bytes)
      → AllLoadable b bytes phoff phentsize (length s.memory.words) i n
      → (m : Memory) × (segments_loop b bytes (u32 (length bytes)) phoff phentsize i n s
          ≡ (with_memory s m, true))
        × HoldsBytes
            (λ x. image_byte bytes phoff phentsize x i n (byte_at s.memory.words x))
            s.memory.words
            m.words
  unfolding segments_loop image_byte
  segments_loop-HoldsBytes i zero s table ok =
      (s.memory, refl, record { same_size = refl; bytes = λ x. refl })
  segments_loop-HoldsBytes i (suc n) s table ok =
      let (m1, runs1, has1) =
        one_header i s (table i (omega arith) (omega arith)) (ok i (omega arith) (omega arith)) in
      let (m2, runs2, has2) =
        segments_loop-HoldsBytes (i + 1) n (with_memory s m1)
          (λ j p q. table j (omega (arith, p)) (omega (arith, q)))
          (λ j p q e.
            subst (λ l. IsLoadable b l (length bytes) (segment_at bytes (phoff + j * phentsize)))
              (sym has1.same_size) (ok j (omega (arith, p)) (omega (arith, q)) e)) in
      (
        m2,
        ap
              (λ (r : Store × Bool). elim r.1 [
                | true ↦ segments_loop b bytes (u32 (length bytes)) phoff phentsize (i + 1) n r.0
                | false ↦ (r.0, false)
              ])
              runs1
            ∙ runs2,
        record {
          same_size = has2.same_size ∙ has1.same_size;
          bytes =
              λ x. has2.bytes x ∙ ap (image_byte bytes phoff phentsize x (i + 1) n) (has1.bytes x);
        },
      )
