-- ===== src/Dashboard/Export/Amounts.antt =====
-- The amounts of the export, and a reader of them.
use micro_erp_saas.Prelude.{
  ℕ, zero, suc, ◌+◌, ◌-◌, ◌*◌, ◌/◌, ◌%◌, ◌≤◌, ◌<◌, ◌≡◌, refl, ap, ◌∙◌, true, false, inl, inr, [],
  ◌∷◌, ◌++◌, ◌==◌, ltb, if◌then◌else◌, arith, Bool-cases,
}
use micro_erp_saas.Prelude.Int.{pos}
use micro_erp_saas.Dashboard.Export.{Text, decimal_with, decimal, pad_start, cents_to_decimal}

-- The digits of a text after those that were read, whatever stands for the point.
abbrev value : ℕ → Text → ℕ
value acc [] = acc
value acc (c ∷ s) = if c == 46 then value acc s else value (acc * 10 + (c - 48)) s

-- The cents of a text with two digits after the point.
abbrev pub read_amount : Text → ℕ
read_amount s = value 0 s

value-++ : (acc : ℕ) (a b : Text) → value acc (a ++ b) ≡ value (value acc a) b
value-++ acc [] b = refl
value-++ acc (c ∷ a) b = elim (Bool-cases (c == 46)) [
  | inl point ↦ rw point (value-++ acc a b)
  | inr digit ↦ rw digit (value-++ (acc * 10 + (c - 48)) a b)
]

value_digit : (acc d : ℕ) → d < 10 → value acc ((48 + d) ∷ []) ≡ acc * 10 + d
value_digit acc d h =
    let digit : (48 + d == 46) ≡ false = ground arith in
    let same : 48 + d - 48 ≡ d = omega arith in rw (digit, same) refl

value-decimal_with : (fuel n : ℕ) → n ≤ fuel → value 0 (decimal_with fuel n) ≡ n
value-decimal_with zero n h = let none : n ≡ 0 = omega (arith, h) in rw none refl
value-decimal_with (suc fuel) n h = elim (Bool-cases (ltb n 10)) [
  | inl small ↦ rw small (value_digit 0 (n % 10) (omega arith) ∙ (ground (arith, small)))
  | inr big ↦
      let less : n / 10 ≤ fuel = ground (arith, big, h) in
      let front = value-decimal_with fuel (n / 10) less in
      let whole : n / 10 * 10 + n % 10 ≡ n = omega arith in
      rw big (
        value-++ 0 (decimal_with fuel (n / 10)) ((48 + n % 10) ∷ [])
        ∙ ap (λ v. value v ((48 + n % 10) ∷ [])) front
        ∙ value_digit (n / 10) (n % 10) (omega arith)
        ∙ whole)
]

decimal_below_ten : (fuel n : ℕ) → n < 10 → n ≤ fuel → decimal_with fuel n ≡ (48 + n) ∷ []
decimal_below_ten zero n h le = let none : n ≡ 0 = omega (arith, le) in rw none refl
decimal_below_ten (suc fuel) n h le =
    let small : ltb n 10 ≡ true = ground arith in
    let same : n % 10 ≡ n = omega (arith, h) in rw small (ap (λ d. (48 + d) ∷ []) same)

two_digits : (r : ℕ) → r < 100 → pad_start (decimal (pos r)) ≡ (48 + r / 10) ∷ (48 + r % 10) ∷ []
two_digits zero h = refl
two_digits (suc m) h = elim (Bool-cases (ltb (suc m) 10)) [
  | inl small ↦ let tens : suc m / 10 ≡ 0 = ground (arith, small) in rw (small, tens) refl
  | inr big ↦
      let front = decimal_below_ten m (suc m / 10) (omega (arith, h)) (ground (arith, big)) in
      rw (big, front) refl
]

-- The text of an amount that is not negative is read as the amount.
pub read_amount-cents_to_decimal : (n : ℕ) → read_amount (cents_to_decimal (pos n)) ≡ n
read_amount-cents_to_decimal n =
    let q = n / 100 in
    let r = n % 100 in
    let last : value q ((48 + r / 10) ∷ (48 + r % 10) ∷ []) ≡ q * 10 * 10 + r =
      value-++ q ((48 + r / 10) ∷ []) ((48 + r % 10) ∷ [])
      ∙ ap (λ v. value v ((48 + r % 10) ∷ [])) (value_digit q (r / 10) (omega arith))
      ∙ value_digit (q * 10 + r / 10) (r % 10) (omega arith)
      ∙ (omega arith) in
    let whole : q * 10 * 10 + r ≡ n = omega arith in
    value-++ 0 (decimal (pos q)) (46 ∷ pad_start (decimal (pos r)))
    ∙ ap (λ v. value v (pad_start (decimal (pos r)))) (value-decimal_with q q (omega arith))
    ∙ ap (λ t. value q t) (two_digits r (omega arith))
    ∙ last
    ∙ whole
