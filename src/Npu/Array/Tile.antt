-- ===== src/Npu/Array/Tile.antt =====
-- A tile as a row-major array: what a write at one place, and a loop nest of them, leave behind.
use maps.Prelude.{
  ℕ, zero, suc, ◌+◌, ◌*◌, ◌^◌, ◌<◌, ◌≤◌, ◌≡◌, refl, ap, ◌∙◌, ◌&&◌, inl, inr, List, length, get_or,
  set, arith, ltb, leb, ◌==◌, if◌then◌else◌, u32, lt_or_le, length-set, get_or-set_self,
  get_or-set_ne, Bool-cases,
}
use maps.Npu.Array.{write_row, write_rows}

abbrev pub tile_at : ℕ → List ℕ → ℕ → ℕ → ℕ
tile_at cols out i j = get_or out (i * cols + j) 0

-- A place of a tile is in range, and two places differ.
pub place-lt : (rows cols i j : ℕ) → i < rows → j < cols → i * cols + j < rows * cols
place-lt rows cols i j hi hj = grind arith

pub row_below : (cols i i' : ℕ) → i < i' → i * cols + cols ≤ i' * cols
row_below cols i i' h = grind arith

pub place_injective :
    (cols i j i' j' : ℕ)
    → j < cols
    → j' < cols
    → i * cols + j ≡ i' * cols + j'
    → (i ≡ i') × (j ≡ j')
place_injective cols i j i' j' hj hj' e = elim (lt_or_le i i') [
  | inl lt ↦ absurd (omega (arith, row_below cols i i' lt))
  | inr le ↦ elim (lt_or_le i' i) [
    | inl gt ↦ absurd (omega (arith, row_below cols i' i gt))
    | inr ge ↦
        let same : i ≡ i' = omega arith in (same, omega (arith, ap (λ (x : ℕ). x * cols) same))
  ]
]

-- `out` has room for `rows` rows, at indices that do not wrap.
abbrev pub HasRoom : ℕ → ℕ → List ℕ → Type 0
HasRoom rows cols out = (rows * cols ≤ length out) × (rows * cols ≤ 2 ^ 32)

module _ (rows cols : ℕ) (out : List ℕ) (i j v : ℕ) (room : HasRoom rows cols out) (hi : i < rows)
    (hj : j < cols) where
  pub tile_at-set :
      (i' j' : ℕ)
      → j' < cols
      → tile_at cols (set out (u32 (i * cols + j)) v) i' j'
        ≡ (if i == i' && j == j' then v else tile_at cols out i' j')
  tile_at-set i' j' hj' =
      let below = place-lt rows cols i j hi hj in
      let e : u32 (i * cols + j) ≡ i * cols + j = omega arith in
      rw e (elim (Bool-cases (i == i' && j == j')) [
        | inl same ↦
            let ei : i ≡ i' = ground arith in
            let ej : j ≡ j' = ground arith in
            rw same (rw (← ei, ← ej) (get_or-set_self out (i * cols + j) v 0 (omega arith)))
        | inr differ ↦ rw differ (
            get_or-set_ne out (i * cols + j) (i' * cols + j') v 0
              λ p. (let both = place_injective cols i j i' j' hj hj' p in ground arith))
      ])

pub length-write_row :
    (cols : ℕ) (value : ℕ → ℕ → ℕ) (i j : ℕ) (out : List ℕ) (n : ℕ)
    → length (write_row cols value i j out n) ≡ length out
unfolding write_row
length-write_row cols value i j out zero = refl
length-write_row cols value i j out (suc n) =
    length-write_row cols value i (j + 1) (set out (u32 (i * cols + j)) (value i j)) n
    ∙ length-set out (u32 (i * cols + j)) (value i j)

module _ (rows cols : ℕ) (value : ℕ → ℕ → ℕ) where
  tile_at-write_row :
      (i j : ℕ) (out : List ℕ) (n i' j' : ℕ)
      → HasRoom rows cols out
      → i < rows
      → j + n ≤ cols
      → j' < cols
      → tile_at cols (write_row cols value i j out n) i' j'
        ≡ (if i == i' && leb j j' && ltb j' (j + n) then value i' j' else tile_at cols out i' j')
  unfolding write_row
  tile_at-write_row i j out zero i' j' room hi hn hj' = ground arith
  tile_at-write_row i j out (suc n) i' j' room hi hn hj' =
      let next = set out (u32 (i * cols + j)) (value i j) in
      let room' : HasRoom rows cols next =
        rw (length-set out (u32 (i * cols + j)) (value i j)) room in
      tile_at-write_row i (j + 1) next n i' j' room' hi (omega arith) hj'
      ∙ ground (arith, tile_at-set rows cols out i j (value i j) room hi (omega arith) i' j' hj')

  pub length-write_rows :
      (i : ℕ) (out : List ℕ) (n : ℕ) → length (write_rows cols value i out n) ≡ length out
  unfolding write_rows
  length-write_rows i out zero = refl
  length-write_rows i out (suc n) =
      length-write_rows (i + 1) (write_row cols value i 0 out cols) n
      ∙ length-write_row cols value i 0 out cols

  -- The loop nest over the rows from `i` on writes exactly those.
  pub tile_at-write_rows :
      (i : ℕ) (out : List ℕ) (n i' j' : ℕ)
      → HasRoom rows cols out
      → i + n ≤ rows
      → j' < cols
      → tile_at cols (write_rows cols value i out n) i' j'
        ≡ (if leb i i' && ltb i' (i + n) then value i' j' else tile_at cols out i' j')
  unfolding write_rows
  tile_at-write_rows i out zero i' j' room hn hj' = ground arith
  tile_at-write_rows i out (suc n) i' j' room hn hj' =
      let next = write_row cols value i 0 out cols in
      let room' : HasRoom rows cols next = rw (length-write_row cols value i 0 out cols) room in
      tile_at-write_rows (i + 1) next n i' j' room' (omega arith) hj'
      ∙ ground (arith, tile_at-write_row i 0 out cols i' j' room (omega arith) (omega arith) hj')
