-- ===== src/Prelude/Digits.antt =====
-- The bit operations on a word in two parts: each part is taken for itself.
use Prim.Native.Nat.{
  ℕ, zero, suc, ◌+◌, ◌*◌, ◌/◌, ◌%◌, ◌-◌, ◌≤◌, ◌<◌, min, max, bit_and, bit_or, bit_xor, digits,
  bitwise, differ, bit_and-bitwise, bit_or-bitwise, bit_xor-bitwise,
}
use mathlib.Core.Path.{◌≡◌, refl, ◌∙◌, sym, ap, ap₂}
use native.Mathlib.Nat.{le_refl, mod-lt, mod-eq_of_lt, div-add-mod', mul-add-mod_self_right}
use native.Mathlib.Omega.{arith}

-- Any power of two, from the lowest digit on.
abbrev pub power : ℕ → ℕ
power zero = 1
power (suc k) = power k * 2

-- `op` acts on the parts above and below `p` apart.
abbrev pub Joins : (ℕ → ℕ → ℕ) → ℕ → Type 0
Joins op p = (h h' l l' : ℕ) → l < p → l' < p → op (h * p + l) (h' * p + l') ≡ op h h' * p + op l l'

module _ (z : ℕ → ℕ) (f : ℕ → ℕ → ℕ) where
  -- Fuel beyond the number itself changes nothing.
  digits_enough : (n m a b : ℕ) → a ≤ n → a ≤ m → digits z f n a b ≡ digits z f m a b
  digits_enough zero zero a b p q = refl
  digits_enough zero (suc m) zero b p q = refl
  digits_enough zero (suc m) (suc a) b p q = absurd (omega arith)
  digits_enough (suc n) zero zero b p q = refl
  digits_enough (suc n) zero (suc a) b p q = absurd (omega arith)
  digits_enough (suc n) (suc m) zero b p q = refl
  digits_enough (suc n) (suc m) (suc a) b p q =
      ap (λ d. d * 2 + f (suc a % 2) (b % 2))
        (digits_enough n m (suc a / 2) (b / 2) (omega arith) (omega arith))

  module _ (low : (b : ℕ) → z b ≡ z (b / 2) * 2 + f 0 (b % 2)) where
    -- The lowest digit.
    bitwise_low : (a b : ℕ) → bitwise z f a b ≡ bitwise z f (a / 2) (b / 2) * 2 + f (a % 2) (b % 2)
    bitwise_low zero b = low b
    bitwise_low (suc a) b =
        ap (λ d. d * 2 + f (suc a % 2) (b % 2))
          (digits_enough a (suc a / 2) (suc a / 2) (b / 2) (omega arith) (le_refl _))

zero_plus : (n : ℕ) → 0 * 2 + n ≡ n
zero_plus n = omega arith

double_product : (h p : ℕ) → h * (p * 2) ≡ h * p * 2
double_product h p = grind arith

halves : (l : ℕ) → l ≡ l / 2 * 2 + l % 2
halves l = omega arith

halved : (h p l : ℕ) → h * (p * 2) + l ≡ (h * p + l / 2) * 2 + l % 2
halved h p l = omega (arith, double_product h p)

module _ (op f : ℕ → ℕ → ℕ) (step : (a b : ℕ) → op a b ≡ op (a / 2) (b / 2) * 2 + f (a % 2) (b % 2))
    (none : op 0 0 ≡ 0) where
  digit : (a b : ℕ) → a < 2 → b < 2 → op a b ≡ f a b
  digit a b ha hb =
      let ea : a / 2 ≡ 0 = omega arith in
      let eb : b / 2 ≡ 0 = omega arith in
      let fa : a % 2 ≡ a = omega arith in
      let fb : b % 2 ≡ b = omega arith in
      let e : op (a / 2) (b / 2) ≡ 0 = ap₂ op ea eb ∙ none in
      step a b ∙ ap₂ (λ x y. x * 2 + y) e (ap₂ f fa fb) ∙ zero_plus (f a b)

  digit_two : Joins op 2
  digit_two h h' l l' hl hl' =
      let a = h * 2 + l in
      let b = h' * 2 + l' in
      let eh : a / 2 ≡ h = omega arith in
      let eh' : b / 2 ≡ h' = omega arith in
      let el : a % 2 ≡ l = omega arith in
      let el' : b % 2 ≡ l' = omega arith in
      step a b ∙ ap₂ (λ x y. x * 2 + y) (ap₂ op eh eh') (ap₂ f el el' ∙ sym (digit l l' hl hl'))

  digit_double : (p : ℕ) → Joins op p → Joins op (p * 2)
  digit_double p joins h h' l l' hl hl' =
      let whole : op l l' ≡ op (l / 2) (l' / 2) * 2 + op (l % 2) (l' % 2) =
        ap₂ op (halves l) (halves l')
        ∙ digit_two (l / 2) (l' / 2) (l % 2) (l' % 2) (omega arith) (omega arith) in
      let inner = joins h h' (l / 2) (l' / 2) (omega arith) (omega arith) in
      ap₂ op (halved h p l) (halved h' p l')
      ∙ digit_two (h * p + l / 2) (h' * p + l' / 2) (l % 2) (l' % 2) (omega arith) (omega arith)
      ∙ omega (arith, inner, whole, double_product (op h h') p)

  digit_single : Joins op 1
  digit_single h h' l l' hl hl' =
      let el : l ≡ 0 = omega arith in
      let el' : l' ≡ 0 = omega arith in
      let eh : h * 1 + l ≡ h = omega arith in
      let eh' : h' * 1 + l' ≡ h' = omega arith in
      let low : op l l' ≡ 0 = ap₂ op el el' ∙ none in ap₂ op eh eh' ∙ omega (arith, low)

  Joins-power : (k : ℕ) → Joins op (power k)
  Joins-power zero = digit_single
  Joins-power (suc k) = digit_double (power k) (Joins-power k)

bit_and_low : (a b : ℕ) → bit_and a b ≡ bit_and (a / 2) (b / 2) * 2 + min (a % 2) (b % 2)
bit_and_low a b =
    bit_and-bitwise a b
    ∙ bitwise_low (λ b. zero) min (λ b. omega arith) a b
    ∙ ap (λ d. d * 2 + min (a % 2) (b % 2)) (sym (bit_and-bitwise (a / 2) (b / 2)))

bit_or_low : (a b : ℕ) → bit_or a b ≡ bit_or (a / 2) (b / 2) * 2 + max (a % 2) (b % 2)
bit_or_low a b =
    bit_or-bitwise a b
    ∙ bitwise_low (λ b. b) max (λ b. omega arith) a b
    ∙ ap (λ d. d * 2 + max (a % 2) (b % 2)) (sym (bit_or-bitwise (a / 2) (b / 2)))

bit_xor_low : (a b : ℕ) → bit_xor a b ≡ bit_xor (a / 2) (b / 2) * 2 + differ (a % 2) (b % 2)
bit_xor_low a b =
    bit_xor-bitwise a b
    ∙ bitwise_low (λ b. b) differ (λ b. omega arith) a b
    ∙ ap (λ d. d * 2 + differ (a % 2) (b % 2)) (sym (bit_xor-bitwise (a / 2) (b / 2)))

pub bit_and-Joins : (k : ℕ) → Joins bit_and (power k)
bit_and-Joins = Joins-power bit_and min bit_and_low refl

pub bit_or-Joins : (k : ℕ) → Joins bit_or (power k)
bit_or-Joins = Joins-power bit_or max bit_or_low refl

pub bit_xor-Joins : (k : ℕ) → Joins bit_xor (power k)
bit_xor-Joins = Joins-power bit_xor differ bit_xor_low refl

-- With a zero.
pub bit_or-zero_left : (b : ℕ) → bit_or 0 b ≡ b
bit_or-zero_left b = bit_or-bitwise 0 b

pub bit_xor-zero_left : (b : ℕ) → bit_xor 0 b ≡ b
bit_xor-zero_left b = bit_xor-bitwise 0 b

module _ (op f : ℕ → ℕ → ℕ) (step : (a b : ℕ) → op a b ≡ op (a / 2) (b / 2) * 2 + f (a % 2) (b % 2))
    (none : op 0 0 ≡ 0) (same : (a : ℕ) → a < 2 → f a 0 ≡ a) where
  same_fuel : (n a : ℕ) → a ≤ n → op a 0 ≡ a
  same_fuel zero a h = let e : a ≡ 0 = omega arith in ap (λ x. op x 0) e ∙ none ∙ sym e
  same_fuel (suc n) zero h = none
  same_fuel (suc n) (suc a) h =
      let low = same (suc a % 2) (omega arith) in
      let high = same_fuel n (suc a / 2) (omega arith) in omega (arith, step (suc a) 0, low, high)

pub bit_or-zero : (a : ℕ) → bit_or a 0 ≡ a
bit_or-zero a = same_fuel bit_or max bit_or_low refl (λ a h. omega arith) a a (le_refl a)

pub bit_xor-zero : (a : ℕ) → bit_xor a 0 ≡ a
bit_xor-zero a = same_fuel bit_xor differ bit_xor_low refl differ_zero a a (le_refl a)
  where
    differ_zero : (a : ℕ) → a < 2 → differ a 0 ≡ a
    differ_zero zero h = refl
    differ_zero (suc a) h = refl

bit_and-zero_fuel : (n a : ℕ) → a ≤ n → bit_and a 0 ≡ 0
bit_and-zero_fuel zero a h = let e : a ≡ 0 = omega arith in ap (λ x. bit_and x 0) e
bit_and-zero_fuel (suc n) zero h = refl
bit_and-zero_fuel (suc n) (suc a) h =
    omega (arith, bit_and_low (suc a) 0, bit_and-zero_fuel n (suc a / 2) (omega arith))

pub bit_and-zero : (a : ℕ) → bit_and a 0 ≡ 0
bit_and-zero a = bit_and-zero_fuel a a (le_refl a)

pub power_pos : (k : ℕ) → 0 < power k
power_pos zero = omega arith
power_pos (suc k) = omega (arith, power_pos k)

mod_double : (a p : ℕ) → 0 < p → a / 2 % p * 2 + a % 2 ≡ a % (p * 2)
mod_double a p h =
    let q = a / 2 / p in
    let r = a / 2 % p in
    let e = div-add-mod' (a / 2) p in
    let small : r < p = mod-lt (a / 2) h in
    let whole : a ≡ q * (p * 2) + (r * 2 + a % 2) = omega (arith, e, double_product q p) in
    sym (mod-eq_of_lt (omega arith))
    ∙ sym (mul-add-mod_self_right q (p * 2) (r * 2 + a % 2))
    ∙ ap (λ x. x % (p * 2)) (sym whole)

-- A mask of the low digits.
pub bit_and_mask : (k a : ℕ) → bit_and a (power k - 1) ≡ a % power k
bit_and_mask zero a = bit_and-zero a ∙ omega arith
bit_and_mask (suc k) a =
    let p = power k in
    let pos = power_pos k in
    let half : (p * 2 - 1) / 2 ≡ p - 1 = omega arith in
    let odd : (p * 2 - 1) % 2 ≡ 1 = omega arith in
    let bit : min (a % 2) 1 ≡ a % 2 = omega arith in
    bit_and_low a (p * 2 - 1)
    ∙ ap₂ (λ x y. bit_and (a / 2) x * 2 + min (a % 2) y) half odd
    ∙ ap₂ (λ x y. x * 2 + y) (bit_and_mask k (a / 2)) bit
    ∙ mod_double a p pos

-- Two words without a common digit.
pub bit_or_disjoint : (k a b : ℕ) → a % power k ≡ 0 → b < power k → bit_or a b ≡ a + b
bit_or_disjoint k a b ha hb =
    let p = power k in
    let e = div-add-mod' a p in
    let ea : a ≡ a / p * p + 0 = omega (arith, e, ha) in
    let eb : b ≡ 0 * p + b = omega arith in
    let joined = bit_or-Joins k (a / p) 0 0 b (power_pos k) hb in
    ap₂ bit_or ea eb
    ∙ joined
    ∙ ap₂ (λ x y. x * p + y) (bit_or-zero (a / p)) (bit_or-zero_left b)
    ∙ omega (arith, e, ha)

pub bit_or_disjoint_right : (k a b : ℕ) → a % power k ≡ 0 → b < power k → bit_or b a ≡ b + a
bit_or_disjoint_right k a b ha hb =
    let p = power k in
    let e = div-add-mod' a p in
    let ea : a ≡ a / p * p + 0 = omega (arith, e, ha) in
    let eb : b ≡ 0 * p + b = omega arith in
    let joined = bit_or-Joins k 0 (a / p) b 0 hb (power_pos k) in
    ap₂ bit_or eb ea
    ∙ joined
    ∙ ap₂ (λ x y. x * p + y) (bit_or-zero_left (a / p)) (bit_or-zero b)
    ∙ omega (arith, e, ha)

-- A mask of the high digits.
pub bit_and_mask_high :
    (k n a : ℕ) → bit_and a ((power n - 1) * power k) ≡ a / power k % power n * power k
bit_and_mask_high k n a =
    let p = power k in
    let parts : a ≡ a / p * p + a % p = sym (div-add-mod' a p) in
    let mask : (power n - 1) * p ≡ (power n - 1) * p + 0 = omega arith in
    let pos = power_pos k in
    let low = bit_and-zero (a % p) in
    ap₂ bit_and parts mask
    ∙ bit_and-Joins k (a / p) (power n - 1) (a % p) 0 (mod-lt a pos) pos
    ∙ ap₂ (λ x y. x * p + y) (bit_and_mask n (a / p)) low
    ∙ omega arith
