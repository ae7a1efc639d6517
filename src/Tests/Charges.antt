-- ===== src/Tests/Charges.antt =====
-- Debts, payments, pardons, mixed payments and inflation in the shop of the tests.
use micro_erp_saas.Prelude.{◌≡◌, refl, ap, subst, none, some, [], ◌∷◌, arith}
use micro_erp_saas.Prelude.Int.{pos, ◌+ℤ◌, ◌-ℤ◌}
use micro_erp_saas.Entities.{Transaction, debt, payment, forgiveness, cash}
use micro_erp_saas.Store.{Db, ok, err, limit_exceeded}
use micro_erp_saas.Ledger.Table.{total_balance}
use micro_erp_saas.Transactions.Dto.{
  CreateTransactionDto, CreatePaymentDto, CreateMixedPaymentDto, ForgiveDebtDto,
}
use micro_erp_saas.Transactions.Charges.{
  new_debt, register_debt, new_payment, register_payment, new_forgiveness, forgive_debt,
}
use micro_erp_saas.Transactions.Mixed.{prorate, split_payment}
use micro_erp_saas.Transactions.Outcome.{
  IsAccepted, IsCollected, register_debt-IsAccepted, register_payment-IsCollected,
  register_debt-refused, register_debt-succeeds,
}
use micro_erp_saas.Transactions.Sound.{register_debt-IsSound, register_payment-IsSound}
use micro_erp_saas.Ledger.Account.{IsSound}
use micro_erp_saas.Customers.Merge.{MergeCustomersDto, merge_customers}
use micro_erp_saas.CashRegister.{CloseTurnDto, close_turn}
use micro_erp_saas.System.{start, step, customers_merged, turn_closed}
use micro_erp_saas.System.Replay.{Answered, register_debt-replay, register_payment-replay}
use micro_erp_saas.Transactions.Inflation.{
  adjustment_cents, write_adjustment, adjust_customer, adjust_all, lock_customers, new_batch,
  apply_inflation_adjustment,
}
use micro_erp_saas.Transactions.Inflation.Batch.{apply_inflation_adjustment_total}
use micro_erp_saas.Tests.Ratio.{Ratio, ratios, ratios-IsIeee}
use micro_erp_saas.Tests.Shop.{request, customer, ana, beto, row, shop, shop-IsSound}

-- Ana buys for 2000.
abbrev debt_dto : CreateTransactionDto
debt_dto = record {
  customer_id = 10;
  amount_cents = pos 2000;
  description = none;
  idempotency_key = 800;
}

abbrev too_much : CreateTransactionDto
too_much = record debt_dto { amount_cents = pos 5001 }

abbrev debt_row : Transaction
debt_row = record (row 900 10 debt (pos 2000)) { idempotency_key = 800; created_at = 200 }

abbrev after_debt : Db
after_debt = record shop {
  customers = customer 10 (pos 7000) ∷ beto ∷ [];
  transactions = debt_row ∷ shop.transactions;
}

debt_run : register_debt (request 200 900) 1 7 debt_dto shop ≡ (ok debt_row, after_debt)
unfolding register_debt new_debt ◌+ℤ◌
debt_run = refl

register_debt-IsAccepted_example : IsAccepted 1 debt_dto shop after_debt debt_row
register_debt-IsAccepted_example =
    register_debt-IsAccepted (request 200 900) 1 7 shop after_debt debt_row debt_dto refl debt_run

register_debt-refused_example :
    register_debt (request 200 900) 1 7 too_much shop ≡ (err limit_exceeded, shop)
unfolding ◌+ℤ◌
register_debt-refused_example =
    register_debt-refused (request 200 900) 1 7 too_much shop ana refl refl refl refl

register_debt-succeeds_example :
    (t : Transaction) × ((register_debt (request 200 900) 1 7 debt_dto shop).0 ≡ ok t)
unfolding ◌+ℤ◌
register_debt-succeeds_example =
    register_debt-succeeds (request 200 900) 1 7 debt_dto shop ana refl refl refl refl (omega arith)
      refl refl refl refl refl

after_debt-IsSound : IsSound after_debt
after_debt-IsSound =
    subst IsSound (ap (λ r. r.1) debt_run)
      (register_debt-IsSound (request 200 900) 1 7 shop shop-IsSound debt_dto refl)

-- Ana's account is merged into Beto's before the request is sent again.
abbrev merging : MergeCustomersDto
merging = record { primary_id = 11; secondary_id = 10 }

abbrev merged_after_debt : Db
merged_after_debt = (merge_customers (request 240 940) 1 merging after_debt).1

register_debt-replay_example :
    Answered debt_row merged_after_debt
      (register_debt (request 250 950) 1 8 debt_dto merged_after_debt)
register_debt-replay_example =
    register_debt-replay ratios ratios-IsIeee (request 200 900) (request 250 950) 1 7 8 shop
      after_debt merged_after_debt debt_row after_debt-IsSound
      (step start (customers_merged (request 240 940) 1 merging)) debt_dto debt_dto refl debt_run

-- Ana offers 9000 and owes 5000.
abbrev payment_dto : CreatePaymentDto
payment_dto = record {
  customer_id = 10;
  amount_cents = pos 9000;
  description = none;
  idempotency_key = 801;
  payment_method = none;
}

abbrev payment_row : Transaction
payment_row = record (row 900 10 payment (pos 5000)) {
  idempotency_key = 801;
  created_at = 200;
  payment_method = some cash;
}

abbrev after_payment : Db
after_payment = record shop {
  customers = customer 10 (pos 0) ∷ beto ∷ [];
  transactions = payment_row ∷ shop.transactions;
}

payment_run :
    register_payment (request 200 900) 1 7 payment_dto shop ≡ (ok payment_row, after_payment)
unfolding register_payment new_payment ◌-ℤ◌
payment_run = refl

register_payment-IsCollected_example : IsCollected 1 payment_dto shop after_payment payment_row
register_payment-IsCollected_example =
    register_payment-IsCollected (request 200 900) 1 7 shop after_payment payment_row payment_dto
      refl payment_run

after_payment-IsSound : IsSound after_payment
after_payment-IsSound =
    subst IsSound (ap (λ r. r.1) payment_run)
      (register_payment-IsSound (request 200 900) 1 7 shop shop-IsSound payment_dto)

-- The turn is closed before the request is sent again.
abbrev closing : CloseTurnDto
closing = record { actual_cash_cents = pos 2000; note = some "caja" }

abbrev closed_after_payment : Db
closed_after_payment = (close_turn (request 240 940) 1 7 closing after_payment).1

register_payment-replay_example :
    Answered payment_row closed_after_payment
      (register_payment (request 250 950) 1 8 payment_dto closed_after_payment)
register_payment-replay_example =
    register_payment-replay ratios ratios-IsIeee (request 200 900) (request 250 950) 1 7 8 shop
      after_payment closed_after_payment payment_row after_payment-IsSound
      (step start (turn_closed (request 240 940) 1 7 closing)) payment_dto payment_dto refl
      payment_run

abbrev forgive_dto : ForgiveDebtDto
forgive_dto = record { customer_id = 11; description = "moved away"; idempotency_key = 802 }

abbrev forgive_row : Transaction
forgive_row = record (row 900 11 forgiveness (pos 300)) {
  idempotency_key = 802;
  created_at = 200;
  description = some "moved away";
}

abbrev after_forgiveness : Db
after_forgiveness = record shop {
  customers = ana ∷ customer 11 (pos 0) ∷ [];
  transactions = forgive_row ∷ shop.transactions;
}

forgive_run :
    forgive_debt (request 200 900) 1 7 forgive_dto shop ≡ (ok forgive_row, after_forgiveness)
unfolding forgive_debt new_forgiveness
forgive_run = refl

-- 6000 in cash and 4000 by transfer, of which Ana owes the half.
abbrev mixed_dto : CreateMixedPaymentDto
mixed_dto = record {
  customer_id = 10;
  total_amount_cents = pos 10000;
  cash_amount_cents = pos 6000;
  transfer_amount_cents = pos 4000;
  description = none;
  idempotency_key = 803;
}

mixed_split : split_payment ratios mixed_dto (pos 5000) ≡ (pos 3000, pos 2000)
unfolding split_payment prorate ◌-ℤ◌
mixed_split = refl

-- A tenth on every debt.
abbrev ten : Ratio
ten = record { num = 10; pred = 0 }

inflation_run :
    (apply_inflation_adjustment ratios (request 200 900) 1 7 ten 804 shop).0
    ≡ ok (record { affected_customers = 2; total_adjustment_cents = pos 530 })
unfolding apply_inflation_adjustment new_batch lock_customers adjust_all adjust_customer
    write_adjustment adjustment_cents ◌+ℤ◌
inflation_run = refl

apply_inflation_adjustment_total_example :
    total_balance (apply_inflation_adjustment ratios (request 200 900) 1 7 ten 804 shop).1.customers
    ≡ total_balance shop.customers +ℤ pos 530
apply_inflation_adjustment_total_example =
    apply_inflation_adjustment_total ratios (request 200 900) 1 7 ten 804 shop
      (record { affected_customers = 2; total_adjustment_cents = pos 530 }) shop-IsSound refl
      inflation_run
