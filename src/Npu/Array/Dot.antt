-- ===== src/Npu/Array/Dot.antt =====
-- What a tile is meant to hold: sums of products modulo 2 ^ 32, stated without the array.
use maps.Prelude.{ℕ, zero, suc, ◌+◌, ◌*◌, ◌%◌, ◌^◌, ◌<◌, ◌≡◌, refl, ap₂, arith, u32}

-- x(0) * y(0) + ... + x(n - 1) * y(n - 1).
abbrev pub sum_products : (ℕ → ℕ) → (ℕ → ℕ) → ℕ → ℕ
sum_products x y zero = 0
sum_products x y (suc n) = sum_products x y n + x n * y n

-- The INT32 pattern of `start` plus the first `n` products.
abbrev pub dot : (ℕ → ℕ) → (ℕ → ℕ) → ℕ → ℕ → ℕ
dot x y start n = (start + sum_products x y n) % 2 ^ 32

pub dot-zero : (x y : ℕ → ℕ) (start : ℕ) → start < 2 ^ 32 → dot x y start 0 ≡ start
dot-zero x y start h = omega arith

-- One multiply-accumulate, in each order in which the three modes add.
pub dot-suc :
    (x y : ℕ → ℕ) (start n : ℕ) → u32 (dot x y start n + u32 (x n * y n)) ≡ dot x y start (suc n)
dot-suc x y start n = omega arith

pub dot-suc_left :
    (x y : ℕ → ℕ) (start n : ℕ) → u32 (u32 (x n * y n) + dot x y start n) ≡ dot x y start (suc n)
dot-suc_left x y start n = omega arith

-- A multiply-accumulate of a zero.
pub dot_idle : (x y : ℕ → ℕ) (start n z : ℕ) → u32 (dot x y start n + u32 (0 * z)) ≡ dot x y start n
dot_idle x y start n z = omega arith

-- Only the first `n` factors count.
pub sum_products_congr :
    (x y x' y' : ℕ → ℕ) (n : ℕ)
    → ((k : ℕ) → k < n → x k ≡ x' k)
    → ((k : ℕ) → k < n → y k ≡ y' k)
    → sum_products x y n ≡ sum_products x' y' n
sum_products_congr x y x' y' zero hx hy = refl
sum_products_congr x y x' y' (suc n) hx hy =
    ap₂ ◌+◌ (sum_products_congr x y x' y' n (λ k p. hx k (omega arith)) (λ k p. hy k (omega arith)))
      (ap₂ ◌*◌ (hx n (omega arith)) (hy n (omega arith)))
