-- ===== src/Tests/Ratio.antt =====
-- An arithmetic that has the laws of `IsIeee`: fractions of natural numbers, a negative integer
-- counting as zero, rounded half up.
use micro_erp_saas.Prelude.{ℕ, zero, suc, ◌+◌, ◌*◌, ◌/◌, ◌≤◌, ◌<◌, ◌≡◌, ap, arith}
use native.Mathlib.Nat.{
  div-eq_of_lt-le, le-div_iff_mul-le, div-mul-le_self, mul-le-mul_right, le_of_mul-le-mul_right,
}
use micro_erp_saas.Prelude.Int.{ℤ, pos, negsuc, ◌≤ℤ◌}
use micro_erp_saas.Number.{Number, IsIeee}

-- num / suc pred
pub record Ratio : Type 0 where
  pub num : ℕ
  pub pred : ℕ

abbrev pub whole : ℤ → Ratio
whole (pos n) = record { num = n; pred = 0 }
whole (negsuc n) = record { num = 0; pred = 0 }

abbrev pub times : Ratio → Ratio → Ratio
times x y = record { num = x.num * y.num; pred = y.pred + x.pred * suc y.pred }

abbrev pub over : Ratio → Ratio → Ratio
over x y = elim y.num [
  | zero ↦ record { num = 0; pred = 0 }
  | suc c ↦ record { num = x.num * suc y.pred; pred = c + x.pred * suc c }
]

abbrev pub half_up : Ratio → ℤ
half_up x = pos ((2 * x.num + suc x.pred) / (2 * suc x.pred))

abbrev pub ratios : Number
ratios = record {
  Double = Ratio;
  from_ℤ = whole;
  mul = times;
  div = over;
  round = half_up;
  text = λ x. "";
}

abbrev Below : Ratio → Ratio → Type 0
Below x y = x.num * suc y.pred ≤ y.num * suc x.pred

times_mono : (a b c d e f : ℕ) → a * d ≤ c * b → (a * e) * (d * f) ≤ (c * e) * (b * f)
times_mono a b c d e f h = let wide = mul-le-mul_right (e * f) h in omega arith

whole_mono : (a b : ℤ) → a ≤ℤ b → Below (whole a) (whole b)
whole_mono (pos a) (pos b) h = omega arith
whole_mono (pos a) (negsuc b) h = omega arith
whole_mono (negsuc a) (pos b) h = omega arith
whole_mono (negsuc a) (negsuc b) h = omega arith

quotient_mono :
    (a d c e : ℕ)
    → a * suc e ≤ c * suc d
    → (2 * a + suc d) / (2 * suc d) ≤ (2 * c + suc e) / (2 * suc e)
quotient_mono a d c e h =
    let q = (2 * a + suc d) / (2 * suc d) in
    let below : q * (2 * suc d) ≤ 2 * a + suc d = div-mul-le_self (2 * a + suc d) (2 * suc d) in
    let scaled = mul-le-mul_right (suc e) below in
    let crossed : q * (2 * suc e) * suc d ≤ (2 * c + suc e) * suc d = omega arith in
    (le-div_iff_mul-le (omega arith)).1 (le_of_mul-le-mul_right crossed (omega arith))

half_up_mono : (x y : Ratio) → Below x y → half_up x ≤ℤ half_up y
half_up_mono x y h = let below = quotient_mono x.num x.pred y.num y.pred h in omega arith

half_up_whole : (x : Ratio) (a : ℕ) → x.num ≡ a * suc x.pred → half_up x ≡ pos a
half_up_whole x a e = ap pos (div-eq_of_lt-le (2 * suc x.pred) (omega arith) (omega arith))

rescaled :
    (a b : ℕ)
    → 0 < b
    → half_up (times (whole (pos b)) (over (whole (pos a)) (whole (pos b)))) ≡ pos a
rescaled a zero b0 = absurd (omega arith)
rescaled a (suc b) b0 = half_up_whole _ a (omega arith)

pub ratios-IsIeee : IsIeee ratios
ratios-IsIeee = record {
  Le = Below;
  from_mono = whole_mono;
  div_nonneg = λ a b b0. omega arith;
  mul_mono = λ x y r r0 h.
      let wide = times_mono x.num (suc x.pred) y.num (suc y.pred) r.num (suc r.pred) h in
      omega arith;
  round_mono = half_up_mono;
  mul_zero = λ r. half_up_whole (times (whole (pos 0)) r) 0 (omega arith);
  rescale = λ a b ab b0 bmax. rescaled a b b0;
}
