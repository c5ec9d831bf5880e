-- ===== src/Npu/Array/Ws.antt =====
-- The weight-stationary mode: element (k, j) keeps `b(k, j)`, and the sum of row `m`, column `j`
-- passes it at cycle `m + k + j` with its first `k` products.
use maps.Prelude.{
  ℕ, zero, suc, ◌+◌, ◌-◌, ◌*◌, ◌^◌, ◌<◌, ◌≡◌, ap, sym, ◌∙◌, ◌&&◌, arith, ltb, if◌then◌else◌, List,
  Option, u32, lt_or_le, inl, inr,
}
use maps.Npu.Config.{ws}
use maps.Npu.Pe.{Pe}
use maps.Npu.Pe
use maps.Npu.Array.{
  Array, pe_at, tick_grid, lhs_input, rhs_input, a_at, b_at, c_in_at, ws_left, ws_top, ws_start,
  set_array_mode, reset,
}
use maps.Npu.Array.Dot.{dot, dot-zero, dot-suc_left}
use maps.Npu.Array.Grid.{
  pe_at-update_all, pe_at-cleared, cleared, pe_at-tick_grid, arrival, passed, feed-arrival,
  passed-arrival, arrival_hit, arrival_early, arrival_late, arrival_congr,
}

module _ (a_tile b_tile : List ℕ) (c_in : Option (List ℕ)) (m_len n_len k_len : ℕ) where
  abbrev pub a : ℕ → ℕ → ℕ
  a i k = a_at a_tile b_tile c_in m_len n_len k_len i k

  abbrev pub b : ℕ → ℕ → ℕ
  b j k = b_at a_tile b_tile c_in m_len n_len k_len k j

  abbrev pub a_lane : ℕ → ℕ → ℕ
  a_lane k m = a m k

  -- The sum of row `m`, column `j` after `k` products; as a lane, column `j`.
  abbrev pub cell : ℕ → ℕ → ℕ → ℕ
  cell m j k = dot (a m) (b j) (c_in_at c_in m j n_len) k

  abbrev pub partial : ℕ → ℕ → ℕ → ℕ
  partial k j m = cell m j k

  abbrev pub Fits : Type 0
  Fits = (i j : ℕ) → i < m_len → j < n_len → c_in_at c_in i j n_len < 2 ^ 32

  -- The array before cycle `t`.
  pub record Holds (t : ℕ) (g : Array) : Type 0 where
    pub mode : (k j : ℕ) → k < 16 → j < 16 → (pe_at g k j).current_mode ≡ ws
    pub weight :
        (k j : ℕ) → k < 16 → j < 16 → k < k_len → j < n_len → (pe_at g k j).weight_reg ≡ b j k
    pub right :
        (k j : ℕ) → k < 16 → j < 16 → (pe_at g k j).output0 ≡ passed k_len m_len a_lane t j k
    pub down :
        (k j : ℕ)
        → k < 16
        → j < 16
        → k < k_len
        → j < n_len
        → (pe_at g k j).output1 ≡ passed n_len m_len (partial (suc k)) t k j

  lhs-arrival :
      (t : ℕ) (g : Array) (k j : ℕ)
      → Holds t g
      → k < 16
      → j < 16
      → lhs_input (ws_left a_tile b_tile c_in m_len n_len k_len t) g k j
        ≡ arrival k_len m_len a_lane t j k
  unfolding lhs_input ws_left
  lhs-arrival t g k zero h hk hj = feed-arrival k_len m_len a_lane t k
  lhs-arrival t g k (suc j) h hk hj =
      h.right k j hk (omega arith) ∙ passed-arrival k_len m_len a_lane t j k

  rhs-arrival :
      Fits
      → (t : ℕ) (g : Array) (k j : ℕ) → Holds t g
      → k < 16
      → j < 16
      → k < k_len
      → j < n_len
      → rhs_input (ws_top a_tile b_tile c_in m_len n_len k_len t) g k j
        ≡ arrival n_len m_len (partial k) t k j
  unfolding rhs_input ws_top
  rhs-arrival fits t g zero j h hk hj hkl hjn =
      feed-arrival n_len m_len (λ j m. c_in_at c_in m j n_len) t j
      ∙ arrival_congr n_len m_len (λ j m. c_in_at c_in m j n_len) (partial 0) t 0 j
          (λ m p q. sym (dot-zero (a m) (b j) (c_in_at c_in m j n_len) (fits m j q p)))
  rhs-arrival fits t g (suc k) j h hk hj hkl hjn =
      h.down k j (omega arith) hj (omega arith) hjn
      ∙ passed-arrival n_len m_len (partial (suc k)) t k j

  abbrev ticked : ℕ → Array → Array
  ticked t g =
      tick_grid (ws_left a_tile b_tile c_in m_len n_len k_len t)
        (ws_top a_tile b_tile c_in m_len n_len k_len t) g

  -- What every element keeps or passes on in one cycle.
  element :
      (t : ℕ) (g : Array) (k j : ℕ)
      → Holds t g
      → k < 16
      → j < 16
      → pe_at (ticked t g) k j ≡ (
          let x = arrival k_len m_len a_lane t j k in
          let y = rhs_input (ws_top a_tile b_tile c_in m_len n_len k_len t) g k j in
          let sum = u32 (u32 (x * (pe_at g k j).weight_reg) + y) in
          record (pe_at g k j) {
            input0 = x;
            input1 = y;
            psum_reg = sum;
            output0 = x;
            output1 = sum;
          })
  element t g k j h hk hj =
      pe_at-tick_grid _ _ g k j hk hj
      ∙ ap
          (λ x. Pe.tick (
            Pe.set_inputs x (rhs_input (ws_top a_tile b_tile c_in m_len n_len k_len t) g k j)
              (pe_at g k j)))
          (lhs-arrival t g k j h hk hj)
      ∙ Pe.tick-ws _ (h.mode k j hk hj)

  -- The sum that passes gains the product of its row's `a` and the weight.
  sum-suc :
      (t k j w y : ℕ)
      → k < k_len
      → j < n_len
      → w ≡ b j k
      → y ≡ arrival n_len m_len (partial k) t k j
      → u32 (u32 (arrival k_len m_len a_lane t j k * w) + y)
        ≡ arrival n_len m_len (partial (suc k)) t k j
  sum-suc t k j w y hk hj ew ey = elim (lt_or_le t (k + j)) [
    | inl early ↦
        rw
          (
            ey,
            arrival_early k_len m_len a_lane t j k early,
            arrival_early n_len m_len (partial k) t k j (omega arith),
            arrival_early n_len m_len (partial (suc k)) t k j (omega arith),
          )
          (omega arith)
    | inr reached ↦ elim (lt_or_le (t - (k + j)) m_len) [
      | inl hit ↦
          let m = t - (k + j) in
          rw
            (
              ey,
              ew,
              arrival_hit k_len m_len a_lane t j k m hk (omega arith) hit,
              arrival_hit n_len m_len (partial k) t k j m hj (omega arith) hit,
              arrival_hit n_len m_len (partial (suc k)) t k j m hj (omega arith) hit,
            )
            (dot-suc_left (a m) (b j) (c_in_at c_in m j n_len) k)
      | inr late ↦
          rw
            (
              ey,
              arrival_late k_len m_len a_lane t j k (omega arith),
              arrival_late n_len m_len (partial k) t k j (omega arith),
              arrival_late n_len m_len (partial (suc k)) t k j (omega arith),
            )
            (omega arith)
    ]
  ]

  pub Holds-suc : Fits → (t : ℕ) (g : Array) → Holds t g → Holds (suc t) (ticked t g)
  Holds-suc fits t g h = record {
    mode = λ k j hk hj. ap (λ p. p.current_mode) (element t g k j h hk hj) ∙ h.mode k j hk hj;
    weight = λ k j hk hj hkl hjn.
        ap (λ p. p.weight_reg) (element t g k j h hk hj) ∙ h.weight k j hk hj hkl hjn;
    right = λ k j hk hj. ap (λ p. p.output0) (element t g k j h hk hj);
    down = λ k j hk hj hkl hjn.
        ap (λ p. p.output1) (element t g k j h hk hj)
        ∙ sum-suc t k j (pe_at g k j).weight_reg _ hkl hjn (h.weight k j hk hj hkl hjn)
            (rhs-arrival fits t g k j h hk hj hkl hjn);
  }

  abbrev start_pe : Array → ℕ → ℕ → Pe
  start_pe g k j =
      if ltb k k_len && ltb j n_len
      then Pe.load_weight (b j k) (cleared ws (pe_at g k j))
      else cleared ws (pe_at g k j)

  start_element :
      (g : Array) (k j : ℕ)
      → k < 16
      → j < 16
      → pe_at (ws_start a_tile b_tile c_in m_len n_len k_len g) k j ≡ start_pe g k j
  unfolding ws_start
  start_element g k j hk hj =
      pe_at-update_all load (set_array_mode ws (reset g)) k j hk hj
      ∙ ap (load k j) (pe_at-cleared ws g k j hk hj)
    where
      load : ℕ → ℕ → Pe → Pe
      load x y p = if ltb x k_len && ltb y n_len then Pe.load_weight (b y x) p else p

  pub Holds-ws_start : (g : Array) → Holds 0 (ws_start a_tile b_tile c_in m_len n_len k_len g)
  Holds-ws_start g = record {
    mode = λ k j hk hj. rw (start_element g k j hk hj) (ground arith);
    weight = λ k j hk hj hkl hjn. rw (start_element g k j hk hj) (ground arith);
    right = λ k j hk hj. rw (start_element g k j hk hj) (ground arith);
    down = λ k j hk hj hkl hjn. rw (start_element g k j hk hj) (ground arith);
  }
