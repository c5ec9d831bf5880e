-- ===== src/Npu/Array/Os.antt =====
-- The output-stationary mode: after `t` cycles the element (i, j) holds the first `t - (i + j)`
-- terms of its sum.
use maps.Prelude.{
  ℕ, zero, suc, ◌+◌, ◌-◌, ◌*◌, ◌^◌, ◌<◌, ◌≤◌, ◌≡◌, ap, ap₂, subst, ◌∙◌, ◌&&◌, arith, ltb, min,
  if◌then◌else◌, List, Option, u32, lt_or_le, inl, inr,
}
use maps.Npu.Config.{os}
use maps.Npu.Pe.{Pe}
use maps.Npu.Pe
use maps.Npu.Array.{
  Array, pe_at, tick_grid, lhs_input, rhs_input, a_at, b_at, c_in_at, os_left, os_top, os_loop,
  os_start, set_array_mode, reset,
}
use maps.Npu.Array.Dot.{dot, dot-zero, dot-suc, dot_idle}
use maps.Npu.Array.Grid.{
  pe_at-update_all, pe_at-cleared, cleared, pe_at-tick_grid, arrival, passed, feed-arrival,
  passed-arrival, arrival_hit, arrival_early, arrival_late,
}

module _ (a_tile b_tile : List ℕ) (c_in : Option (List ℕ)) (m_len n_len k_len : ℕ) where
  abbrev pub a : ℕ → ℕ → ℕ
  a i k = a_at a_tile b_tile c_in m_len n_len k_len i k

  abbrev pub b : ℕ → ℕ → ℕ
  b j k = b_at a_tile b_tile c_in m_len n_len k_len k j

  abbrev pub cell : ℕ → ℕ → ℕ → ℕ
  cell i j n = dot (a i) (b j) (c_in_at c_in i j n_len) n

  -- The array before cycle `t`.
  pub record Holds (t : ℕ) (g : Array) : Type 0 where
    pub mode : (i j : ℕ) → i < 16 → j < 16 → (pe_at g i j).current_mode ≡ os
    pub right : (i j : ℕ) → i < 16 → j < 16 → (pe_at g i j).output0 ≡ passed m_len k_len a t j i
    pub down : (i j : ℕ) → i < 16 → j < 16 → (pe_at g i j).output1 ≡ passed n_len k_len b t i j
    pub sum :
        (i j : ℕ)
        → i < 16
        → j < 16
        → i < m_len
        → j < n_len
        → (pe_at g i j).psum_reg ≡ cell i j (min k_len (t - (i + j)))

  lhs-arrival :
      (t : ℕ) (g : Array) (i j : ℕ)
      → Holds t g
      → i < 16
      → j < 16
      → lhs_input (os_left a_tile b_tile c_in m_len n_len k_len t) g i j
        ≡ arrival m_len k_len a t j i
  unfolding lhs_input os_left
  lhs-arrival t g i zero h hi hj = feed-arrival m_len k_len a t i
  lhs-arrival t g i (suc j) h hi hj =
      h.right i j hi (omega arith) ∙ passed-arrival m_len k_len a t j i

  rhs-arrival :
      (t : ℕ) (g : Array) (i j : ℕ)
      → Holds t g
      → i < 16
      → j < 16
      → rhs_input (os_top a_tile b_tile c_in m_len n_len k_len t) g i j
        ≡ arrival n_len k_len b t i j
  unfolding rhs_input os_top
  rhs-arrival t g zero j h hi hj = feed-arrival n_len k_len b t j
  rhs-arrival t g (suc i) j h hi hj =
      h.down i j (omega arith) hj ∙ passed-arrival n_len k_len b t i j

  abbrev ticked : ℕ → Array → Array
  ticked t g =
      tick_grid (os_left a_tile b_tile c_in m_len n_len k_len t)
        (os_top a_tile b_tile c_in m_len n_len k_len t) g

  -- One element in one cycle.
  element :
      (t : ℕ) (g : Array) (i j : ℕ)
      → Holds t g
      → i < 16
      → j < 16
      → pe_at (ticked t g) i j
        ≡ Pe.tick (
            Pe.set_inputs (arrival m_len k_len a t j i) (arrival n_len k_len b t i j) (pe_at g i j))
  element t g i j h hi hj =
      pe_at-tick_grid _ _ g i j hi hj
      ∙ ap₂ (λ x y. Pe.tick (Pe.set_inputs x y (pe_at g i j))) (lhs-arrival t g i j h hi hj)
          (rhs-arrival t g i j h hi hj)

  element_os :
      (t : ℕ) (g : Array) (i j : ℕ)
      → Holds t g
      → i < 16
      → j < 16
      → pe_at (ticked t g) i j ≡ (
          let x = arrival m_len k_len a t j i in
          let y = arrival n_len k_len b t i j in
          record (pe_at g i j) {
            input0 = x;
            input1 = y;
            psum_reg = u32 ((pe_at g i j).psum_reg + u32 (x * y));
            output0 = x;
            output1 = y;
          })
  element_os t g i j h hi hj = element t g i j h hi hj ∙ Pe.tick-os _ (h.mode i j hi hj)

  -- The sum of an element in one cycle: the next product if both factors are there, else nothing.
  sum-suc :
      (t i j p : ℕ)
      → i < m_len
      → j < n_len
      → p ≡ cell i j (min k_len (t - (i + j)))
      → u32 (p + u32 (arrival m_len k_len a t j i * arrival n_len k_len b t i j))
        ≡ cell i j (min k_len (suc t - (i + j)))
  sum-suc t i j p hi hj e = elim (lt_or_le t (i + j)) [
    | inl early ↦
        let n : min k_len (suc t - (i + j)) ≡ min k_len (t - (i + j)) = omega arith in
        rw (arrival_early m_len k_len a t j i early, n, e)
          (dot_idle (a i) (b j) (c_in_at c_in i j n_len) (min k_len (t - (i + j))) _)
    | inr reached ↦ elim (lt_or_le (t - (i + j)) k_len) [
      | inl hit ↦
          let k = t - (i + j) in
          let n : min k_len k ≡ k = omega arith in
          let n' : min k_len (suc t - (i + j)) ≡ suc k = omega arith in
          rw
            (
              arrival_hit m_len k_len a t j i k hi (omega arith) hit,
              arrival_hit n_len k_len b t i j k hj (omega arith) hit,
              n',
              e,
              n,
            )
            (dot-suc (a i) (b j) (c_in_at c_in i j n_len) k)
      | inr late ↦
          let n : min k_len (suc t - (i + j)) ≡ min k_len (t - (i + j)) = omega arith in
          rw (arrival_late m_len k_len a t j i (omega arith), n, e)
            (dot_idle (a i) (b j) (c_in_at c_in i j n_len) (min k_len (t - (i + j))) _)
    ]
  ]

  Holds-suc : (t : ℕ) (g : Array) → Holds t g → Holds (suc t) (ticked t g)
  Holds-suc t g h = record {
    mode = λ i j hi hj. ap (λ p. p.current_mode) (element_os t g i j h hi hj) ∙ h.mode i j hi hj;
    right = λ i j hi hj. ap (λ p. p.output0) (element_os t g i j h hi hj);
    down = λ i j hi hj. ap (λ p. p.output1) (element_os t g i j h hi hj);
    sum = λ i j hi hj him hjn.
        ap (λ p. p.psum_reg) (element_os t g i j h hi hj)
        ∙ sum-suc t i j (pe_at g i j).psum_reg him hjn (h.sum i j hi hj him hjn);
  }

  Holds-os_loop :
      (n t : ℕ) (g : Array)
      → Holds t g
      → Holds (t + n) (os_loop a_tile b_tile c_in m_len n_len k_len t g n)
  unfolding os_loop
  Holds-os_loop zero t g h = subst (λ k. Holds k g) (omega arith) h
  Holds-os_loop (suc n) t g h =
      let e : t + suc n ≡ (t + 1) + n = omega arith in
      let f : suc t ≡ t + 1 = omega arith in
      rw e (
        Holds-os_loop n (t + 1) (ticked t g)
          (subst (λ k. Holds k (ticked t g)) f (Holds-suc t g h)))

  abbrev start_pe : Array → ℕ → ℕ → Pe
  start_pe g i j =
      if ltb i m_len && ltb j n_len
      then Pe.load_psum (c_in_at c_in i j n_len) (cleared os (pe_at g i j))
      else cleared os (pe_at g i j)

  start_element :
      (g : Array) (i j : ℕ)
      → i < 16
      → j < 16
      → pe_at (os_start a_tile b_tile c_in m_len n_len k_len g) i j ≡ start_pe g i j
  unfolding os_start
  start_element g i j hi hj =
      pe_at-update_all load_c (set_array_mode os (reset g)) i j hi hj
      ∙ ap (load_c i j) (pe_at-cleared os g i j hi hj)
    where
      load_c : ℕ → ℕ → Pe → Pe
      load_c x y p =
          if ltb x m_len && ltb y n_len then Pe.load_psum (c_in_at c_in x y n_len) p else p

  pub Holds-os_start :
      ((i j : ℕ) → i < m_len → j < n_len → c_in_at c_in i j n_len < 2 ^ 32)
      → (g : Array) → Holds 0 (os_start a_tile b_tile c_in m_len n_len k_len g)
  Holds-os_start fits g = record {
    mode = λ i j hi hj. rw (start_element g i j hi hj) (ground arith);
    right = λ i j hi hj. rw (start_element g i j hi hj) (ground arith);
    down = λ i j hi hj. rw (start_element g i j hi hj) (ground arith);
    sum = λ i j hi hj him hjn.
        let n : min k_len (0 - (i + j)) ≡ 0 = omega arith in
        rw (start_element g i j hi hj, n)
          (ground (arith, dot-zero (a i) (b j) (c_in_at c_in i j n_len) (fits i j him hjn)));
  }

  -- After all cycles of a tile that fits the array each element of the tile holds its sum.
  pub os_psum :
      ((i j : ℕ) → i < m_len → j < n_len → c_in_at c_in i j n_len < 2 ^ 32)
      → (g : Array) (n i j : ℕ) → i < m_len
      → j < n_len
      → m_len ≤ 16
      → n_len ≤ 16
      → m_len + n_len + k_len ≤ n + 2
      → (pe_at
          (os_loop a_tile b_tile c_in m_len n_len k_len 0
            (os_start a_tile b_tile c_in m_len n_len k_len g)
            n)
          i
          j).psum_reg
        ≡ cell i j k_len
  os_psum fits g n i j hi hj hm hn long =
      let final =
        Holds-os_loop n 0 (os_start a_tile b_tile c_in m_len n_len k_len g)
          (Holds-os_start fits g) in
      let e : min k_len (0 + n - (i + j)) ≡ k_len = omega arith in
      final.sum i j (omega arith) (omega arith) hi hj ∙ ap (cell i j) e
