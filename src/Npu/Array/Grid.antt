-- ===== src/Npu/Array/Grid.antt =====
-- The array element by element: what `update_all` and `tick_grid` leave at each place, and when
-- the values that are fed at the edges reach it.
use maps.Prelude.{
  ℕ, zero, suc, ◌+◌, ◌-◌, ◌<◌, ◌≤◌, ◌≡◌, ap, ◌∙◌, ◌&&◌, [], arith, ltb, leb, if◌then◌else◌,
  tabulate, get_or-tabulate,
}
use maps.Npu.Config.{Dataflow}
use maps.Npu.Pe.{Pe}
use maps.Npu.Pe
use maps.Npu.Array.{
  Array, build, pe_at, update_all, reset, set_array_mode, tick_grid, lhs_input, rhs_input, feed,
}

pub pe_at-build : (f : ℕ → ℕ → Pe) (i j : ℕ) → i < 16 → j < 16 → pe_at (build f) i j ≡ f i j
unfolding pe_at build
pe_at-build f i j hi hj =
    rw (get_or-tabulate 16 (λ i. tabulate 16 (f i)) i [] hi) (get_or-tabulate 16 (f i) j Pe.make hj)

pub pe_at-update_all :
    (f : ℕ → ℕ → Pe → Pe) (g : Array) (i j : ℕ)
    → i < 16
    → j < 16
    → pe_at (update_all f g) i j ≡ f i j (pe_at g i j)
unfolding update_all
pe_at-update_all f g i j hi hj = pe_at-build _ i j hi hj

-- An element after `reset` and `set_array_mode`.
abbrev pub cleared : Dataflow → Pe → Pe
cleared mode p = Pe.set_mode mode (Pe.reset p)

pub pe_at-cleared :
    (mode : Dataflow) (g : Array) (i j : ℕ)
    → i < 16
    → j < 16
    → pe_at (set_array_mode mode (reset g)) i j ≡ cleared mode (pe_at g i j)
unfolding set_array_mode reset
pe_at-cleared mode g i j hi hj =
    pe_at-update_all (λ _ _. Pe.set_mode mode) (update_all (λ _ _. Pe.reset) g) i j hi hj
    ∙ ap (Pe.set_mode mode) (pe_at-update_all (λ _ _. Pe.reset) g i j hi hj)

pub pe_at-tick_grid :
    (left top : ℕ → ℕ) (g : Array) (i j : ℕ)
    → i < 16
    → j < 16
    → pe_at (tick_grid left top g) i j
      ≡ Pe.tick (Pe.set_inputs (lhs_input left g i j) (rhs_input top g i j) (pe_at g i j))
unfolding tick_grid
pe_at-tick_grid left top g i j hi hj =
    pe_at-update_all (λ _ _. Pe.tick) (update_all fed g) i j hi hj
    ∙ ap Pe.tick (pe_at-update_all fed g i j hi hj)
  where
    fed : ℕ → ℕ → Pe → Pe
    fed x y = Pe.set_inputs (lhs_input left g x y) (rhs_input top g x y)

-- What reaches an element `d` steps from the edge in lane `i` at cycle `t`: lane `i` starts `i`
-- cycles late, and each step takes one more.
abbrev pub arrival : ℕ → ℕ → (ℕ → ℕ → ℕ) → ℕ → ℕ → ℕ → ℕ
arrival lanes len value t d i =
    if ltb i lanes && leb (i + d) t && ltb (t - (i + d)) len then value i (t - (i + d)) else 0

-- What that element passed on in the last of `t` cycles.
abbrev pub passed : ℕ → ℕ → (ℕ → ℕ → ℕ) → ℕ → ℕ → ℕ → ℕ
passed lanes len value zero d i = 0
passed lanes len value (suc t) d i = arrival lanes len value t d i

pub feed-arrival :
    (lanes len : ℕ) (value : ℕ → ℕ → ℕ) (t i : ℕ)
    → feed lanes len value t i ≡ arrival lanes len value t 0 i
unfolding feed
feed-arrival lanes len value t i = let e : i + 0 ≡ i = omega arith in rw e

pub passed-arrival :
    (lanes len : ℕ) (value : ℕ → ℕ → ℕ) (t d i : ℕ)
    → passed lanes len value t d i ≡ arrival lanes len value t (suc d) i
passed-arrival lanes len value zero d i = ground arith
passed-arrival lanes len value (suc t) d i =
    let e : i + suc d ≡ suc (i + d) = omega arith in rw e (ground arith)

module _ (lanes len : ℕ) (value : ℕ → ℕ → ℕ) where
  -- The `k`-th value of a lane arrives when the lane's start, the distance and `k` add up.
  pub arrival_hit :
      (t d i k : ℕ)
      → i < lanes
      → i + d + k ≡ t
      → k < len
      → arrival lanes len value t d i ≡ value i k
  arrival_hit t d i k hi e hk = let f : t - (i + d) ≡ k = omega arith in rw f (ground arith)

  pub arrival_early : (t d i : ℕ) → t < i + d → arrival lanes len value t d i ≡ 0
  arrival_early t d i h = ground arith

  pub arrival_late : (t d i : ℕ) → i + d + len ≤ t → arrival lanes len value t d i ≡ 0
  arrival_late t d i h = ground arith

-- Only the values of the lanes count.
pub arrival_congr :
    (lanes len : ℕ) (value value' : ℕ → ℕ → ℕ) (t d i : ℕ)
    → ((k : ℕ) → i < lanes → k < len → value i k ≡ value' i k)
    → arrival lanes len value t d i ≡ arrival lanes len value' t d i
arrival_congr lanes len value value' t d i h = ground (arith, h (t - (i + d)))
