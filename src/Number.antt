-- ===== src/Number.antt =====
-- JavaScript's non-integer numbers, IEEE 754 doubles, as far as the services compute with them: the
-- proration of a mixed payment and the percentage of an inflation adjustment. The arithmetic is a
-- parameter, and its laws are what IEEE 754 and `Math.round` promise.
use micro_erp_saas.Prelude.{ℕ, ◌≤◌, ◌<◌, ◌≡◌, String}
use micro_erp_saas.Prelude.Int.{ℤ, pos, ◌≤ℤ◌}

pub record Number : Type 1 where
  pub Double : Type 0
  pub from_ℤ : ℤ → Double
  pub mul : Double → Double → Double
  pub div : Double → Double → Double
  pub round : Double → ℤ
  pub text : Double → String

module _ (n : Number) where
  open n use {Double, from_ℤ, mul, div, round}

  -- Correct rounding makes the operations monotone. Scaling n by m / n errs by less than a half for
  -- integers of 32 bits, so it rounds to m.
  pub record IsIeee : Type 1 where
    pub Le : Double → Double → Type 0
    pub from_mono : (a b : ℤ) → a ≤ℤ b → Le (from_ℤ a) (from_ℤ b)
    pub div_nonneg : (a b : ℕ) → 0 < b → Le (from_ℤ (pos 0)) (div (from_ℤ (pos a)) (from_ℤ (pos b)))
    pub mul_mono : (x y r : Double) → Le (from_ℤ (pos 0)) r → Le x y → Le (mul x r) (mul y r)
    pub round_mono : (x y : Double) → Le x y → round x ≤ℤ round y
    pub mul_zero : (r : Double) → round (mul (from_ℤ (pos 0)) r) ≡ pos 0
    pub rescale :
        (a b : ℕ)
        → a ≤ b
        → 0 < b
        → b ≤ 2000000000
        → round (mul (from_ℤ (pos b)) (div (from_ℤ (pos a)) (from_ℤ (pos b)))) ≡ pos a
