-- ===== src/Npu/Array/Is.antt =====
-- The input-stationary mode: element (i, k) keeps `a(i, k)`, and the sum of row `i`, column `n`
-- passes it at cycle `i + k + n` with its first `k` products.
use maps.Prelude.{
  ℕ, zero, suc, ◌+◌, ◌-◌, ◌*◌, ◌^◌, ◌<◌, ◌≡◌, ap, sym, ◌∙◌, ◌&&◌, arith, ltb, if◌then◌else◌, List,
  Option, u32, lt_or_le, inl, inr,
}
use maps.Npu.Config.{is}
use maps.Npu.Pe.{Pe}
use maps.Npu.Pe
use maps.Npu.Array.{
  Array, pe_at, tick_grid, lhs_input, rhs_input, a_at, b_at, c_in_at, is_left, is_top, is_start,
  set_array_mode, reset,
}
use maps.Npu.Array.Dot.{dot, dot-zero, dot-suc}
use maps.Npu.Array.Grid.{
  pe_at-update_all, pe_at-cleared, cleared, pe_at-tick_grid, arrival, passed, feed-arrival,
  passed-arrival, arrival_hit, arrival_early, arrival_late, arrival_congr,
}

module _ (a_tile b_tile : List ℕ) (c_in : Option (List ℕ)) (m_len n_len k_len : ℕ) where
  abbrev pub a : ℕ → ℕ → ℕ
  a i k = a_at a_tile b_tile c_in m_len n_len k_len i k

  abbrev pub b : ℕ → ℕ → ℕ
  b j k = b_at a_tile b_tile c_in m_len n_len k_len k j

  abbrev pub b_lane : ℕ → ℕ → ℕ
  b_lane k n = b n k

  abbrev pub cell : ℕ → ℕ → ℕ → ℕ
  cell i n k = dot (a i) (b n) (c_in_at c_in i n n_len) k

  abbrev pub partial : ℕ → ℕ → ℕ → ℕ
  partial k i n = cell i n k

  abbrev pub Fits : Type 0
  Fits = (i j : ℕ) → i < m_len → j < n_len → c_in_at c_in i j n_len < 2 ^ 32

  -- The array before cycle `t`.
  pub record Holds (t : ℕ) (g : Array) : Type 0 where
    pub mode : (i k : ℕ) → i < 16 → k < 16 → (pe_at g i k).current_mode ≡ is
    pub input :
        (i k : ℕ) → i < 16 → k < 16 → i < m_len → k < k_len → (pe_at g i k).input_reg ≡ a i k
    pub down : (i k : ℕ) → i < 16 → k < 16 → (pe_at g i k).output1 ≡ passed k_len n_len b_lane t i k
    pub right :
        (i k : ℕ)
        → i < 16
        → k < 16
        → i < m_len
        → k < k_len
        → (pe_at g i k).output0 ≡ passed m_len n_len (partial (suc k)) t k i

  rhs-arrival :
      (t : ℕ) (g : Array) (i k : ℕ)
      → Holds t g
      → i < 16
      → k < 16
      → rhs_input (is_top a_tile b_tile c_in m_len n_len k_len t) g i k
        ≡ arrival k_len n_len b_lane t i k
  unfolding rhs_input is_top
  rhs-arrival t g zero k h hi hk = feed-arrival k_len n_len b_lane t k
  rhs-arrival t g (suc i) k h hi hk =
      h.down i k (omega arith) hk ∙ passed-arrival k_len n_len b_lane t i k

  lhs-arrival :
      Fits
      → (t : ℕ) (g : Array) (i k : ℕ) → Holds t g
      → i < 16
      → k < 16
      → i < m_len
      → k < k_len
      → lhs_input (is_left a_tile b_tile c_in m_len n_len k_len t) g i k
        ≡ arrival m_len n_len (partial k) t k i
  unfolding lhs_input is_left
  lhs-arrival fits t g i zero h hi hk him hkl =
      feed-arrival m_len n_len (λ i n. c_in_at c_in i n n_len) t i
      ∙ arrival_congr m_len n_len (λ i n. c_in_at c_in i n n_len) (partial 0) t 0 i
          (λ n p q. sym (dot-zero (a i) (b n) (c_in_at c_in i n n_len) (fits i n p q)))
  lhs-arrival fits t g i (suc k) h hi hk him hkl =
      h.right i k hi (omega arith) him (omega arith)
      ∙ passed-arrival m_len n_len (partial (suc k)) t k i

  abbrev ticked : ℕ → Array → Array
  ticked t g =
      tick_grid (is_left a_tile b_tile c_in m_len n_len k_len t)
        (is_top a_tile b_tile c_in m_len n_len k_len t) g

  -- What every element keeps or passes on in one cycle.
  element :
      (t : ℕ) (g : Array) (i k : ℕ)
      → Holds t g
      → i < 16
      → k < 16
      → pe_at (ticked t g) i k ≡ (
          let x = lhs_input (is_left a_tile b_tile c_in m_len n_len k_len t) g i k in
          let y = arrival k_len n_len b_lane t i k in
          let sum = u32 (x + u32 ((pe_at g i k).input_reg * y)) in
          record (pe_at g i k) {
            input0 = x;
            input1 = y;
            psum_reg = sum;
            output0 = sum;
            output1 = y;
          })
  element t g i k h hi hk =
      pe_at-tick_grid _ _ g i k hi hk
      ∙ ap
          (λ y. Pe.tick (
            Pe.set_inputs (lhs_input (is_left a_tile b_tile c_in m_len n_len k_len t) g i k) y
              (pe_at g i k)))
          (rhs-arrival t g i k h hi hk)
      ∙ Pe.tick-is _ (h.mode i k hi hk)

  -- The sum that passes gains the product of the input and its column's `b`.
  sum-suc :
      (t i k v x : ℕ)
      → i < m_len
      → k < k_len
      → v ≡ a i k
      → x ≡ arrival m_len n_len (partial k) t k i
      → u32 (x + u32 (v * arrival k_len n_len b_lane t i k))
        ≡ arrival m_len n_len (partial (suc k)) t k i
  sum-suc t i k v x hi hk ev ex = elim (lt_or_le t (i + k)) [
    | inl early ↦
        rw
          (
            ex,
            arrival_early k_len n_len b_lane t i k (omega arith),
            arrival_early m_len n_len (partial k) t k i early,
            arrival_early m_len n_len (partial (suc k)) t k i early,
          )
          (omega arith)
    | inr reached ↦ elim (lt_or_le (t - (i + k)) n_len) [
      | inl hit ↦
          let n = t - (i + k) in
          rw
            (
              ex,
              ev,
              arrival_hit k_len n_len b_lane t i k n hk (omega arith) hit,
              arrival_hit m_len n_len (partial k) t k i n hi (omega arith) hit,
              arrival_hit m_len n_len (partial (suc k)) t k i n hi (omega arith) hit,
            )
            (dot-suc (a i) (b n) (c_in_at c_in i n n_len) k)
      | inr late ↦
          rw
            (
              ex,
              arrival_late k_len n_len b_lane t i k (omega arith),
              arrival_late m_len n_len (partial k) t k i (omega arith),
              arrival_late m_len n_len (partial (suc k)) t k i (omega arith),
            )
            (omega arith)
    ]
  ]

  pub Holds-suc : Fits → (t : ℕ) (g : Array) → Holds t g → Holds (suc t) (ticked t g)
  Holds-suc fits t g h = record {
    mode = λ i k hi hk. ap (λ p. p.current_mode) (element t g i k h hi hk) ∙ h.mode i k hi hk;
    input = λ i k hi hk him hkl.
        ap (λ p. p.input_reg) (element t g i k h hi hk) ∙ h.input i k hi hk him hkl;
    down = λ i k hi hk. ap (λ p. p.output1) (element t g i k h hi hk);
    right = λ i k hi hk him hkl.
        ap (λ p. p.output0) (element t g i k h hi hk)
        ∙ sum-suc t i k (pe_at g i k).input_reg _ him hkl (h.input i k hi hk him hkl)
            (lhs-arrival fits t g i k h hi hk him hkl);
  }

  abbrev start_pe : Array → ℕ → ℕ → Pe
  start_pe g i k =
      if ltb i m_len && ltb k k_len
      then Pe.load_input (a i k) (cleared is (pe_at g i k))
      else cleared is (pe_at g i k)

  start_element :
      (g : Array) (i k : ℕ)
      → i < 16
      → k < 16
      → pe_at (is_start a_tile b_tile c_in m_len n_len k_len g) i k ≡ start_pe g i k
  unfolding is_start
  start_element g i k hi hk =
      pe_at-update_all load (set_array_mode is (reset g)) i k hi hk
      ∙ ap (load i k) (pe_at-cleared is g i k hi hk)
    where
      load : ℕ → ℕ → Pe → Pe
      load x y p = if ltb x m_len && ltb y k_len then Pe.load_input (a x y) p else p

  pub Holds-is_start : (g : Array) → Holds 0 (is_start a_tile b_tile c_in m_len n_len k_len g)
  Holds-is_start g = record {
    mode = λ i k hi hk. rw (start_element g i k hi hk) (ground arith);
    input = λ i k hi hk him hkl. rw (start_element g i k hi hk) (ground arith);
    down = λ i k hi hk. rw (start_element g i k hi hk) (ground arith);
    right = λ i k hi hk him hkl. rw (start_element g i k hi hk) (ground arith);
  }
