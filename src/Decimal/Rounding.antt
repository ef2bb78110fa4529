-- ===== src/Decimal/Rounding.antt =====
-- Rounded products and quotients: signs, exact cases, monotonicity and the error of one rounding.
use moreney.Prelude.{ℕ, suc, ◌+◌, ◌*◌, ◌≤◌, ◌<◌, ◌≡◌, refl, subst, arith}
use moreney.Prelude.Int.{pos, negsuc, neg, ◌≤ℤ◌, ◌<ℤ◌}
use moreney.Decimal.{Decimal, unit, one_d, half_even, magnitude, signed, mul, div}
use native.Mathlib.Nat.{le_refl, mul-le-mul_right, mul-le-mul, mul_comm}
use native.Mathlib.Decide.{dec_le}

-- The rounded quotient is within half of the divisor.
pub half_even_near :
    (n d : ℕ)
    → 0 < d
    → (2 * (half_even n d * d) ≤ 2 * n + d) × (2 * n ≤ 2 * (half_even n d * d) + d)
unfolding half_even
half_even_near n d h = grind arith

pub half_even_mono : (n m d : ℕ) → 0 < d → n ≤ m → half_even n d ≤ half_even m d
half_even_mono n m d p h = elim (dec_le (half_even n d) (half_even m d)) [
  | yes ordered ↦ ordered
  | no crossed ↦
      let gap : (half_even m d + 1) * d ≤ half_even n d * d = mul-le-mul_right d (omega arith) in
      let same : n ≡ m = omega (arith, half_even_near n d p, half_even_near m d p) in
      absurd (crossed (rw same (le_refl _)))
]

pub half_even_exact : (q d : ℕ) → 0 < d → half_even (q * d) d ≡ q
half_even_exact q d h = grind (arith, half_even_near (q * d) d h)

pub mul_pos : (a b : ℕ) → mul (pos a) (pos b) ≡ pos (half_even (a * b) unit)
unfolding mul
mul_pos a b = refl

pub mul_nonneg : (a b : Decimal) → pos 0 ≤ℤ a → pos 0 ≤ℤ b → pos 0 ≤ℤ mul a b
unfolding mul signed
mul_nonneg (pos a) (pos b) h k = omega arith
mul_nonneg (pos a) (negsuc b) h k = absurd (omega arith)
mul_nonneg (negsuc a) _ h k = absurd (omega arith)

pub div_nonneg : (a b : Decimal) → pos 0 ≤ℤ a → pos 0 <ℤ b → pos 0 ≤ℤ div a b
unfolding div signed
div_nonneg (pos a) (pos b) h k = omega arith
div_nonneg (pos a) (negsuc b) h k = absurd (omega arith)
div_nonneg (negsuc a) _ h k = absurd (omega arith)

-- Products are monotone: rounding never reverses an order.
pub mul_mono : (a b c d : Decimal) → pos 0 ≤ℤ a → pos 0 ≤ℤ b → a ≤ℤ c → b ≤ℤ d → mul a b ≤ℤ mul c d
unfolding mul signed magnitude
mul_mono (pos a) (pos b) (pos c) (pos d) ha hb h k =
    let wide : a * b ≤ c * d = mul-le-mul (omega arith) (omega arith) in
    omega (arith, half_even_mono (a * b) (c * d) unit (omega arith) wide)
mul_mono (pos a) (pos b) (pos c) (negsuc d) ha hb h k = absurd (omega arith)
mul_mono (pos a) (pos b) (negsuc c) _ ha hb h k = absurd (omega arith)
mul_mono (pos a) (negsuc b) _ _ ha hb h k = absurd (omega arith)
mul_mono (negsuc a) _ _ _ ha hb h k = absurd (omega arith)

-- A larger numerator over the same positive denominator gives no smaller a quotient.
pub div_mono : (a b c : Decimal) → pos 0 ≤ℤ a → a ≤ℤ b → pos 0 <ℤ c → div a c ≤ℤ div b c
unfolding div signed magnitude
div_mono (pos a) (pos b) (pos c) ha h k =
    let wide : a * unit ≤ b * unit = mul-le-mul_right unit (omega arith) in
    omega (arith, half_even_mono (a * unit) (b * unit) c (omega arith) wide)
div_mono (pos a) (pos b) (negsuc c) ha h k = absurd (omega arith)
div_mono (pos a) (negsuc b) _ ha h k = absurd (omega arith)
div_mono (negsuc a) _ _ ha h k = absurd (omega arith)

-- A factor of one is exact, and so is a quotient of a number by itself.
pub mul_one : (a : Decimal) → mul a one_d ≡ a
unfolding mul signed magnitude neg
mul_one (pos a) = rw (half_even_exact a unit (omega arith)) refl
mul_one (negsuc a) = ground (arith, half_even_exact (suc a) unit)

pub one_mul : (a : Decimal) → mul one_d a ≡ a
unfolding mul signed magnitude neg
one_mul (pos a) = ground (arith, half_even_exact a unit, mul_comm unit a)
one_mul (negsuc a) = ground (arith, half_even_exact (suc a) unit, mul_comm unit (suc a))

pub div_self : (a : Decimal) → pos 0 <ℤ a → div a a ≡ one_d
unfolding div signed magnitude
div_self (pos a) h = ground (arith, half_even_exact unit a, mul_comm unit a)
div_self (negsuc a) h = absurd (omega arith)

-- A factor of at most one does not raise a product, and one of at least one does not lower it.
pub mul_le_left : (a b : Decimal) → pos 0 ≤ℤ a → pos 0 ≤ℤ b → b ≤ℤ one_d → mul a b ≤ℤ a
mul_le_left a b ha hb h =
    subst (λ x. mul a b ≤ℤ x) (mul_one a) (mul_mono a b a one_d ha hb (omega arith) h)

pub div_le_one : (a b : Decimal) → pos 0 ≤ℤ a → pos 0 <ℤ b → a ≤ℤ b → div a b ≤ℤ one_d
div_le_one a b ha hb h = subst (λ x. div a b ≤ℤ x) (div_self b hb) (div_mono a b b ha h hb)

pub mul_zero : (a : Decimal) → mul a (pos 0) ≡ pos 0
unfolding mul signed magnitude neg
mul_zero (pos a) = ground (arith, half_even_exact 0 unit)
mul_zero (negsuc a) = ground (arith, half_even_exact 0 unit)
