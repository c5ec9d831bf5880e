-- ===== src/Npu/Dma/Block.antt =====
-- Strided blocks in a word array: `rows` rows of `len` words, row `r` at `base + r * stride`. What
-- writing such a block leaves behind, without machine words or errors.
use maps.Prelude.{
  ℕ, zero, suc, ◌+◌, ◌-◌, ◌*◌, ◌<◌, ◌≤◌, ◌≡◌, ◌≢◌, refl, ap, ◌∙◌, ◌&&◌, inl, inr, List, length,
  get_or, set, arith, ltb, leb, if◌then◌else◌, lt_or_le, length-set, get_or-set_self, get_or-set_ne,
}
use maps.Npu.Array.Tile.{place_injective}

-- The place of column `c` of row `r`.
abbrev pub place : ℕ → ℕ → ℕ → ℕ → ℕ
place base stride r c = base + r * stride + c

module _ (base stride : ℕ) (value : ℕ → ℕ → ℕ) where
  -- Row `r` from column `c` on, `n` words.
  unfoldable pub put_row : ℕ → ℕ → ℕ → List ℕ → List ℕ
  put_row r c zero words = words
  put_row r c (suc n) words = put_row r (c + 1) n (set words (place base stride r c) (value r c))

  -- The rows from `r` on, `n` of them, of `len` words each.
  unfoldable pub put_rows : ℕ → ℕ → ℕ → List ℕ → List ℕ
  put_rows len r zero words = words
  put_rows len r (suc n) words = put_rows len (r + 1) n (put_row r 0 len words)

  pub length-put_row : (r c n : ℕ) (words : List ℕ) → length (put_row r c n words) ≡ length words
  unfolding put_row
  length-put_row r c zero words = refl
  length-put_row r c (suc n) words =
      length-put_row r (c + 1) n (set words (place base stride r c) (value r c))
      ∙ length-set words (place base stride r c) (value r c)

  pub length-put_rows :
      (len r n : ℕ) (words : List ℕ) → length (put_rows len r n words) ≡ length words
  unfolding put_rows
  length-put_rows len r zero words = refl
  length-put_rows len r (suc n) words =
      length-put_rows len (r + 1) n (put_row r 0 len words) ∙ length-put_row r 0 len words

  -- A row writes its own words and no other.
  get_or-put_row :
      (r c n : ℕ) (words : List ℕ) (x : ℕ)
      → place base stride r c + n ≤ length words
      → get_or (put_row r c n words) x 0 ≡ (
          if leb (place base stride r c) x && ltb x (place base stride r c + n)
          then value r (x - (base + r * stride))
          else get_or words x 0)
  unfolding put_row
  get_or-put_row r c zero words x room = ground arith
  get_or-put_row r c (suc n) words x room =
      let next = set words (place base stride r c) (value r c) in
      let same = length-set words (place base stride r c) (value r c) in
      let col : place base stride r c - (base + r * stride) ≡ c = omega arith in
      get_or-put_row r (c + 1) n next x (omega (arith, same))
      ∙ ground (
        arith,
        col,
        ap (value r) col,
        get_or-set_self words (place base stride r c) (value r c) 0,
        get_or-set_ne words (place base stride r c) x (value r c) 0,
      )

  module _ (len : ℕ) where
    -- No word of rows `r` to `r + n - 1` is `x`.
    abbrev pub IsOutside : ℕ → ℕ → ℕ → Type 0
    IsOutside r n x = (r' c' : ℕ) → r ≤ r' → r' < r + n → c' < len → x ≢ place base stride r' c'

    row_outside :
        (r : ℕ) (words : List ℕ) (x : ℕ)
        → place base stride r 0 + len ≤ length words
        → ((c' : ℕ) → c' < len → x ≢ place base stride r c')
        → get_or (put_row r 0 len words) x 0 ≡ get_or words x 0
    row_outside r words x room out =
        get_or-put_row r 0 len words x room ∙ ground (arith, out (x - place base stride r 0))

    row_inside :
        (r : ℕ) (words : List ℕ) (c : ℕ)
        → place base stride r 0 + len ≤ length words
        → c < len
        → get_or (put_row r 0 len words) (place base stride r c) 0 ≡ value r c
    row_inside r words c room hc =
        let col : place base stride r c - (base + r * stride) ≡ c = omega arith in
        get_or-put_row r 0 len words (place base stride r c) room
        ∙ ground (arith, col, ap (value r) col)

    -- Words outside the block stay as they were.
    pub put_rows_outside :
        (r n : ℕ) (words : List ℕ) (x : ℕ)
        → ((r' : ℕ) → r ≤ r' → r' < r + n → place base stride r' 0 + len ≤ length words)
        → IsOutside r n x
        → get_or (put_rows len r n words) x 0 ≡ get_or words x 0
    unfolding put_rows
    put_rows_outside r zero words x room out = refl
    put_rows_outside r (suc n) words x room out =
        put_rows_outside (r + 1) n (put_row r 0 len words) x
          (λ r' p q. rw length-put_row (room r' (omega arith) (omega arith)))
          (λ r' c' p q. out r' c' (omega arith) (omega arith))
        ∙ row_outside r words x (room r (omega arith) (omega arith))
            (λ c' q. out r c' (omega arith) (omega arith) q)

    -- No row after `r` up to row `last - 1` has the place of column `c` of row `r`.
    abbrev pub IsLast : ℕ → ℕ → ℕ → Type 0
    IsLast last r c =
        (s d : ℕ) → r < s → s < last → d < len → place base stride r c ≢ place base stride s d

    -- Each word of the block holds the value of the last row that has its place.
    pub put_rows_last :
        (r n : ℕ) (words : List ℕ) (r' c' : ℕ)
        → ((r' : ℕ) → r ≤ r' → r' < r + n → place base stride r' 0 + len ≤ length words)
        → r ≤ r'
        → r' < r + n
        → c' < len
        → IsLast (r + n) r' c'
        → get_or (put_rows len r n words) (place base stride r' c') 0 ≡ value r' c'
    unfolding put_rows
    put_rows_last r zero words r' c' room p q hc last = absurd (omega arith)
    put_rows_last r (suc n) words r' c' room p q hc last = elim (lt_or_le r r') [
      | inl later ↦
          put_rows_last (r + 1) n (put_row r 0 len words) r' c' room' (omega arith) (omega arith) hc
            (λ s d ps qs hd. last s d ps (omega arith) hd)
      | inr first ↦
          let same : r' ≡ r = omega arith in
          rw same (
            put_rows_outside (r + 1) n (put_row r 0 len words) (place base stride r c') room'
              (λ s d ps qs hd e.
                last s d (omega arith) (omega arith) hd (ap (λ x. place base stride x c') same ∙ e))
            ∙ row_inside r words c' (room r (omega arith) (omega arith)) hc)
    ]
      where
        room' :
            (s : ℕ)
            → r + 1 ≤ s
            → s < r + 1 + n
            → place base stride s 0 + len ≤ length (put_row r 0 len words)
        room' s ps qs = rw length-put_row (room s (omega arith) (omega arith))

    -- Where the rows do not overlap, each word of the block holds its value.
    pub put_rows_inside :
        (r n : ℕ) (words : List ℕ) (r' c' : ℕ)
        → len ≤ stride
        → ((r' : ℕ) → r ≤ r' → r' < r + n → place base stride r' 0 + len ≤ length words)
        → r ≤ r'
        → r' < r + n
        → c' < len
        → get_or (put_rows len r n words) (place base stride r' c') 0 ≡ value r' c'
    put_rows_inside r n words r' c' apart room p q hc =
        put_rows_last r n words r' c' room p q hc (λ s d ps qs hd e. absurd (
          omega
            (arith, place_injective stride r' c' s d (omega arith) (omega arith) (omega arith))))

  -- The words after the rows are written in order: each place of the block has the value of the last
  -- row that has it, and every other word is as before.
  pub record HasBlock (len rows : ℕ) (old new : List ℕ) : Type 0 where
    pub same_size : length new ≡ length old
    pub inside :
        (r c : ℕ)
        → r < rows
        → c < len
        → IsLast len rows r c
        → get_or new (place base stride r c) 0 ≡ value r c
    pub outside : (x : ℕ) → IsOutside len 0 rows x → get_or new x 0 ≡ get_or old x 0

  pub put_rows-HasBlock :
      (len rows : ℕ) (words : List ℕ)
      → ((r c : ℕ) → r < rows → c < len → place base stride r c < length words)
      → 0 < len
      → HasBlock len rows words (put_rows len 0 rows words)
  put_rows-HasBlock len rows words fits pos =
      let room : (r : ℕ) → 0 ≤ r → r < 0 + rows → place base stride r 0 + len ≤ length words =
        λ r p q.
          let end = fits r (len - 1) (omega (arith, q)) (omega (arith, pos)) in
          omega (arith, end, pos) in
      record {
        same_size = length-put_rows len 0 rows words;
        inside = λ r c hr hc last.
            put_rows_last len 0 rows words r c room (omega arith) (omega (arith, hr)) hc
              (λ s d ps qs hd. last s d ps (omega (arith, qs)) hd);
        outside = λ x out. put_rows_outside len 0 rows words x room out;
      }
