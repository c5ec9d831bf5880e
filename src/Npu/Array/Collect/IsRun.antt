-- ===== src/Npu/Array/Collect/IsRun.antt =====
-- The cycle loop of the input-stationary mode.
use maps.Prelude.{ℕ, zero, suc, ◌+◌, ◌-◌, ◌<◌, ◌≤◌, ◌≡◌, subst, ◌∙◌, ap, List, Option, arith}
use maps.Npu.Array.{Array, pe_at, is_loop, is_start, is_collect, is_left, is_top, tick_grid}
use maps.Npu.Array.Tile.{tile_at, HasRoom}
use maps.Npu.Array.Grid.{arrival_hit}
use maps.Npu.Array.Collect.{tile_at-is_collect, length-is_collect}
use maps.Npu.Array.Is.{cell, partial, Fits, Holds, Holds-suc, Holds-is_start}

module _ (a_tile b_tile : List ℕ) (c_in : Option (List ℕ)) (m_len n_len k_len : ℕ)
    (fits : Fits a_tile b_tile c_in m_len n_len k_len) (k_pos : 0 < k_len) (k_fits : k_len ≤ 16)
    (m_fits : m_len ≤ 16) where
  -- Before cycle `t`: the array, and the results of the cycles so far.
  pub record State (t : ℕ) (g : Array) (out : List ℕ) : Type 0 where
    pub array : Holds a_tile b_tile c_in m_len n_len k_len t g
    pub room : HasRoom m_len n_len out
    pub collected :
        (i j : ℕ)
        → i < m_len
        → j < n_len
        → i + j + k_len ≤ t
        → tile_at n_len out i j ≡ cell a_tile b_tile c_in m_len n_len k_len i j k_len

  abbrev ticked : ℕ → Array → Array
  ticked t g =
      tick_grid (is_left a_tile b_tile c_in m_len n_len k_len t)
        (is_top a_tile b_tile c_in m_len n_len k_len t) g

  abbrev collect : ℕ → Array → List ℕ → List ℕ
  collect t g out = is_collect a_tile b_tile c_in m_len n_len k_len t g 0 out m_len

  -- The last column passes on the whole sum of row `i` when that is due.
  ready :
      (t : ℕ) (g : Array) (i j : ℕ)
      → Holds a_tile b_tile c_in m_len n_len k_len (suc t) g
      → i < m_len
      → j < n_len
      → j + (i + k_len - 1) ≡ t
      → (pe_at g i (k_len - 1)).output0 ≡ cell a_tile b_tile c_in m_len n_len k_len i j k_len
  ready t g i j h hi hj e =
      let last : suc (k_len - 1) ≡ k_len = omega arith in
      h.right i (k_len - 1) (omega arith) (omega arith) hi (omega arith)
      ∙ arrival_hit m_len n_len (partial a_tile b_tile c_in m_len n_len k_len (suc (k_len - 1))) t
          (k_len - 1) i j hi (omega arith) hj
      ∙ ap (cell a_tile b_tile c_in m_len n_len k_len i j) last

  State-suc :
      (t : ℕ) (g : Array) (out : List ℕ)
      → State t g out
      → State (suc t) (ticked t g) (collect t (ticked t g) out)
  State-suc t g out s = record {
    array = next;
    room =
        rw (length-is_collect a_tile b_tile c_in m_len n_len k_len t (ticked t g) 0 out m_len)
          s.room;
    collected = λ i j hi hj due.
        tile_at-is_collect a_tile b_tile c_in m_len n_len k_len t (ticked t g) 0 out m_len i j
          s.room (omega arith) hj
        ∙ ground (arith, ready t (ticked t g) i j next hi hj, s.collected i j hi hj);
  }
    where
      next : Holds a_tile b_tile c_in m_len n_len k_len (suc t) (ticked t g)
      next = Holds-suc a_tile b_tile c_in m_len n_len k_len fits t g s.array

  abbrev FinalState : ℕ → Array × List ℕ → Type 0
  FinalState t (g, out) = State t g out

  State-is_loop :
      (n t : ℕ) (g : Array) (out : List ℕ)
      → State t g out
      → FinalState (t + n) (is_loop a_tile b_tile c_in m_len n_len k_len t g out n)
  unfolding is_loop
  State-is_loop zero t g out s = subst (λ k. State k g out) (omega arith) s
  State-is_loop (suc n) t g out s =
      let e : t + suc n ≡ t + 1 + n = omega arith in
      let f : suc t ≡ t + 1 = omega arith in
      rw e (
        State-is_loop n (t + 1) (ticked t g) (collect t (ticked t g) out)
          (subst (λ k. State k (ticked t g) (collect t (ticked t g) out)) f (State-suc t g out s)))

  module _ (g : Array) (out : List ℕ) (n : ℕ) (room : HasRoom m_len n_len out) where
    abbrev pub final_run : Array × List ℕ
    final_run =
        is_loop a_tile b_tile c_in m_len n_len k_len 0
          (is_start a_tile b_tile c_in m_len n_len k_len g) out n

    final : FinalState (0 + n) final_run
    final = State-is_loop n 0 (is_start a_tile b_tile c_in m_len n_len k_len g) out record {
      array = Holds-is_start a_tile b_tile c_in m_len n_len k_len g;
      room = room;
      collected = λ i j hi hj due. absurd (omega arith);
    }

    pub is_loop-HasRoom : HasRoom m_len n_len final_run.1
    is_loop-HasRoom = final.room

    -- After all cycles `c_out` holds every sum of the tile.
    pub is_loop-cell :
        (i j : ℕ)
        → m_len + n_len + k_len ≤ n + 2
        → i < m_len
        → j < n_len
        → tile_at n_len final_run.1 i j ≡ cell a_tile b_tile c_in m_len n_len k_len i j k_len
    is_loop-cell i j long hi hj = final.collected i j hi hj (omega arith)
