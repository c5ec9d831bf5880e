-- ===== src/Npu/Array/Collect.antt =====
-- The two modes that collect results while they run: what `c_out` holds after each cycle.
pub mod WsRun
pub mod IsRun
use maps.Prelude.{
  ℕ, zero, suc, ◌+◌, ◌-◌, ◌*◌, ◌<◌, ◌≤◌, ◌≡◌, refl, ◌∙◌, ◌&&◌, inl, inr, List, Option, length, set,
  arith, ltb, leb, ◌==◌, if◌then◌else◌, u32, length-set, Bool-cases, Bool, ap,
}
use maps.Npu.Array.{Array, pe_at, ws_collect, is_collect}
use maps.Npu.Array.Tile.{tile_at, tile_at-set, HasRoom}

-- A write under a test.
abbrev set_if : Bool → List ℕ → ℕ → ℕ → List ℕ
set_if b out i v = if b then set out i v else out

length-set_if : (b : Bool) (out : List ℕ) (i v : ℕ) → length (set_if b out i v) ≡ length out
length-set_if b out i v = ground (arith, length-set out i v)

module _ (a_tile b_tile : List ℕ) (c_in : Option (List ℕ)) (m_len n_len k_len : ℕ) where
  abbrev ws_out : ℕ → Array → ℕ → List ℕ → ℕ → List ℕ
  ws_out = ws_collect a_tile b_tile c_in m_len n_len k_len

  abbrev is_out : ℕ → Array → ℕ → List ℕ → ℕ → List ℕ
  is_out = is_collect a_tile b_tile c_in m_len n_len k_len

  pub length-ws_collect :
      (cyc : ℕ) (g : Array) (j : ℕ) (out : List ℕ) (n : ℕ)
      → length (ws_collect a_tile b_tile c_in m_len n_len k_len cyc g j out n) ≡ length out
  unfolding ws_collect
  length-ws_collect cyc g j out zero = refl
  length-ws_collect cyc g j out (suc n) =
      length-ws_collect cyc g (j + 1) _ n ∙ length-set_if _ out _ _

  pub length-is_collect :
      (cyc : ℕ) (g : Array) (i : ℕ) (out : List ℕ) (n : ℕ)
      → length (is_collect a_tile b_tile c_in m_len n_len k_len cyc g i out n) ≡ length out
  unfolding is_collect
  length-is_collect cyc g i out zero = refl
  length-is_collect cyc g i out (suc n) =
      length-is_collect cyc g (i + 1) _ n ∙ length-set_if _ out _ _

  -- Column `j'` gets the result of the row that is ready in it.
  pub tile_at-ws_collect :
      (cyc : ℕ) (g : Array) (j : ℕ) (out : List ℕ) (n i' j' : ℕ)
      → HasRoom m_len n_len out
      → j + n ≤ n_len
      → j' < n_len
      → tile_at n_len (ws_collect a_tile b_tile c_in m_len n_len k_len cyc g j out n) i' j' ≡ (
          if leb j j' && ltb j' (j + n) && (i' + (j' + k_len - 1) == cyc) && ltb i' m_len
          then (pe_at g (k_len - 1) j').output1
          else tile_at n_len out i' j')
  unfolding ws_collect
  tile_at-ws_collect cyc g j out zero i' j' room hn hj' = ground arith
  tile_at-ws_collect cyc g j out (suc n) i' j' room hn hj' =
      let ready = j + k_len - 1 in
      let v = (pe_at g (k_len - 1) j).output1 in
      let next =
        set_if (leb ready cyc && ltb (cyc - ready) m_len) out (u32 ((cyc - ready) * n_len + j)) v in
      let room' : HasRoom m_len n_len next = rw length-set_if room in
      tile_at-ws_collect cyc g (j + 1) next n i' j' room' (omega arith) hj'
      ∙ elim (Bool-cases (leb ready cyc && ltb (cyc - ready) m_len)) [
        | inl due ↦ rw due (
            ground (
              arith,
              tile_at-set m_len n_len out (cyc - ready) j v room (ground arith) (omega arith) i' j'
                  hj',
            ))
        | inr not_due ↦ rw not_due (ground arith)
      ]

  -- Row `i'` gets the result of the column that is ready in it.
  pub tile_at-is_collect :
      (cyc : ℕ) (g : Array) (i : ℕ) (out : List ℕ) (n i' j' : ℕ)
      → HasRoom m_len n_len out
      → i + n ≤ m_len
      → j' < n_len
      → tile_at n_len (is_collect a_tile b_tile c_in m_len n_len k_len cyc g i out n) i' j' ≡ (
          if leb i i' && ltb i' (i + n) && (j' + (i' + k_len - 1) == cyc)
          then (pe_at g i' (k_len - 1)).output0
          else tile_at n_len out i' j')
  unfolding is_collect
  tile_at-is_collect cyc g i out zero i' j' room hn hj' = ground arith
  tile_at-is_collect cyc g i out (suc n) i' j' room hn hj' =
      let ready = i + k_len - 1 in
      let v = (pe_at g i (k_len - 1)).output0 in
      let next =
        set_if (leb ready cyc && ltb (cyc - ready) n_len) out (u32 (i * n_len + (cyc - ready))) v in
      let room' : HasRoom m_len n_len next = rw length-set_if room in
      tile_at-is_collect cyc g (i + 1) next n i' j' room' (omega arith) hj'
      ∙ elim (Bool-cases (leb ready cyc && ltb (cyc - ready) n_len)) [
        | inl due ↦ rw due (
            ground (
              arith,
              tile_at-set m_len n_len out i (cyc - ready) v room (omega arith) (ground arith) i' j'
                  hj',
            ))
        | inr not_due ↦ rw not_due (ground arith)
      ]
