-- ===== src/Transactions/Mixed/Split.antt =====
-- The proration of a mixed payment, and the posting that it makes.
use micro_erp_saas.Prelude.{
  ℕ, ◌≤◌, ◌<◌, ◌≡◌, ◌∙◌, true, [], ◌∷◌, arith, Option-cases, find_where, find_where-test,
  Bool-cases, inl, inr, subst,
}
use micro_erp_saas.Prelude.Int.{
  ℤ, pos, negsuc, ◌+ℤ◌, ◌-ℤ◌, ◌≤ℤ◌, neg_ℤ, ltb_ℤ, min_ℤ, +ℤ_parts, -ℤ_parts, int_laws,
}
use micro_erp_saas.Number.{Number, IsIeee}
use micro_erp_saas.Entities.{Transaction}
use micro_erp_saas.Store.{Db, Request, ok, is_customer}
use micro_erp_saas.Ledger.Account.{effect}
use micro_erp_saas.Ledger.Posting.{Posting}
use micro_erp_saas.Transactions.Dto.{CreateMixedPaymentDto, is_amount, max_amount_cents}
use micro_erp_saas.Transactions.Mixed.{prorate, split_payment, new_mixed_payment}

-- What the decorators and the check before the transaction establish of a mixed payment.
pub record IsMixedPayment (dto : CreateMixedPaymentDto) : Type 0 where
  pub cash_amount : is_amount dto.cash_amount_cents ≡ true
  pub transfer_amount : is_amount dto.transfer_amount_cents ≡ true
  pub total_amount : is_amount dto.total_amount_cents ≡ true
  pub adds_up : dto.cash_amount_cents +ℤ dto.transfer_amount_cents ≡ dto.total_amount_cents

-- A part is at most the total.
cash-le-total :
    (dto : CreateMixedPaymentDto)
    → IsMixedPayment dto
    → (pos 0 ≤ℤ dto.cash_amount_cents)
      × (dto.cash_amount_cents ≤ℤ dto.total_amount_cents)
      × (dto.total_amount_cents ≤ℤ max_amount_cents)
cash-le-total dto m = (
  ground (arith, m.cash_amount),
  ground (
    arith,
    m.adds_up,
    m.transfer_amount,
    +ℤ_parts dto.cash_amount_cents dto.transfer_amount_cents,
  ),
  ground (arith, m.total_amount),
)

module _ (n : Number) (ieee : IsIeee n) where
  open ieee use {from_mono, div_nonneg, mul_mono, round_mono, mul_zero, rescale}

  prorate_bounds_nat :
      (c a b : ℕ)
      → c ≤ b
      → a ≤ b
      → 0 < b
      → b ≤ 2000000000
      → (pos 0 ≤ℤ prorate n (pos c) (pos a) (pos b)) × (prorate n (pos c) (pos a) (pos b) ≤ℤ pos a)
  unfolding prorate
  prorate_bounds_nat c a b cb ab b0 bmax = (
    subst (λ z. z ≤ℤ prorate n (pos c) (pos a) (pos b)) (mul_zero _)
        (round_mono _ _
          (mul_mono _ _ _ (div_nonneg a b b0) (from_mono (pos 0) (pos c) (omega arith)))),
    subst (λ z. prorate n (pos c) (pos a) (pos b) ≤ℤ z) (rescale a b ab b0 bmax)
        (round_mono _ _
          (mul_mono _ _ _ (div_nonneg a b b0) (from_mono (pos c) (pos b) (omega arith)))),
  )

  -- A part of a total, scaled down with it, stays between zero and the scaled total.
  prorate_bounds :
      (part scaled total : ℤ)
      → pos 0 ≤ℤ part
      → part ≤ℤ total
      → pos 0 ≤ℤ scaled
      → ltb_ℤ scaled total ≡ true
      → total ≤ℤ max_amount_cents
      → (pos 0 ≤ℤ prorate n part scaled total) × (prorate n part scaled total ≤ℤ scaled)
  prorate_bounds (pos c) (pos a) (pos b) p pt s lt max =
      prorate_bounds_nat c a b (omega arith) (ground arith) (ground arith) (omega arith)
  prorate_bounds (pos c) (pos a) (negsuc b) p pt s lt max = absurd (omega arith)
  prorate_bounds (pos c) (negsuc a) total p pt s lt max = absurd (omega arith)
  prorate_bounds (negsuc c) scaled total p pt s lt max = absurd (omega arith)

  pub split_payment_bounds :
      (dto : CreateMixedPaymentDto) (balance : ℤ)
      → IsMixedPayment dto
      → pos 0 ≤ℤ balance
      → let (cash_part, transfer_part) = split_payment n dto balance in
        (pos 0 ≤ℤ cash_part)
        × (pos 0 ≤ℤ transfer_part)
        × (cash_part +ℤ transfer_part ≡ min_ℤ dto.total_amount_cents balance)
  unfolding split_payment
  split_payment_bounds dto balance m debtor =
      let total = dto.total_amount_cents in
      let scaled = min_ℤ total balance in
      let part = prorate n dto.cash_amount_cents scaled total in
      let sizes = cash-le-total dto m in
      elim (Bool-cases (ltb_ℤ scaled total)) [
        | inl less ↦
            let bounds =
              prorate_bounds dto.cash_amount_cents scaled total sizes.0 sizes.1 (ground arith) less
                sizes.2 in
            rw less (bounds.0, ground (arith, -ℤ_parts scaled part), omega int_laws)
        | inr full ↦
            rw full (sizes.0, ground (arith, m.transfer_amount), m.adds_up ∙ ground (arith, full))
      ]

  pub new_mixed_payment-Posting :
      (req : Request) (tenant user : ℕ) (db : Db) (dto : CreateMixedPaymentDto)
      (t : Transaction × Transaction) (db' : Db)
      → IsMixedPayment dto
      → new_mixed_payment n req tenant user dto db ≡ ok (t, db')
      → Posting tenant db db'
  unfolding new_mixed_payment
  new_mixed_payment-Posting req tenant user db dto t db' m h =
      elim (Option-cases (find_where (is_customer tenant dto.customer_id) db.customers)) [
        | inl absent ↦ absurd (ground arith)
        | inr (c, found) ↦
            let owner = find_where-test (is_customer tenant dto.customer_id) db.customers c found in
            let parts = split_payment n dto c.balance_cents in
            let taken = parts.0 +ℤ parts.1 in
            let debtor : pos 0 ≤ℤ c.balance_cents = ground arith in
            let bounds = split_payment_bounds dto c.balance_cents m debtor in
            let left : pos 0 ≤ℤ c.balance_cents -ℤ taken =
              ground (arith, bounds.2, -ℤ_parts c.balance_cents taken) in
            let cash_effect : effect t.0 ≡ neg_ℤ parts.0 = ground arith in
            let transfer_effect : effect t.1 ≡ neg_ℤ parts.1 = ground arith in
            record {
              old = c;
              balance = c.balance_cents -ℤ taken;
              entries = t.1 ∷ t.0 ∷ [];
              found = ground arith;
              saved = ground (arith, left);
              appended = ground arith;
              owned = ground arith;
              moved = rw (cash_effect, transfer_effect) (omega int_laws);
              nonneg = left;
              keyed = λ k. ground (arith, k);
              tills = (ground arith, ground arith);
            }
      ]
