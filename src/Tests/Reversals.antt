-- ===== src/Tests/Reversals.antt =====
-- Reversals in the shop of the tests, one after the other and overlapping.
use micro_erp_saas.Prelude.{◌≡◌, refl, true, none, some, [], ◌∷◌, find_where, ℕ, arith}
use micro_erp_saas.Prelude.Int.{pos, ◌+ℤ◌, ◌-ℤ◌}
use micro_erp_saas.Entities.{debt, payment, reversal, Transaction}
use micro_erp_saas.Store.{Db, ok, err, already_reversed, is_customer}
use micro_erp_saas.Ledger.Account.{IsSolvent, IsSound, ledger}
use micro_erp_saas.Transactions.Dto.{ReverseTransactionDto}
use micro_erp_saas.Transactions.Reversal.{
  find_reversible, reversed_balance, post_reversal, new_reversal, reverse_transaction,
}
use micro_erp_saas.Transactions.Reversal.Invariant.{reverse_transaction-IsSolvent}
use micro_erp_saas.Transactions.Reversal.Once.{reverse_transaction-once, post_reversal_twice}
use micro_erp_saas.Customers.Profile.{toggle_block}
use micro_erp_saas.System.{start, step, block_toggled}
use micro_erp_saas.System.Replay.{Answered, reverse_transaction-replay}
use micro_erp_saas.Tests.Ratio.{ratios, ratios-IsIeee}
use micro_erp_saas.Tests.Shop.{request, customer, ana, beto, row, shop, shop-IsSound}

abbrev dto : ReverseTransactionDto
dto = record { idempotency_key = 810; description = none }

abbrev dto' : ReverseTransactionDto
dto' = record { idempotency_key = 811; description = none }

abbrev payment_row : Transaction
payment_row = row 102 10 payment (pos 1000)

abbrev reversal_row : ℕ → ℕ → ℕ → Transaction
reversal_row id key now = record (row id 10 reversal (pos 1000)) {
  idempotency_key = key;
  reversed_transaction_id = some 102;
  description = some "Anulación de transacción uuid";
  created_at = now;
}

-- The payment of 1000 is taken back.
abbrev after : Db
after = record shop {
  customers = customer 10 (pos 6000) ∷ beto ∷ [];
  transactions =
      reversal_row 900 810 200
      ∷ record payment_row { is_reversed = true }
      ∷ row 101 11 debt (pos 300)
      ∷ row 100 10 debt (pos 6000)
      ∷ [];
}

reversal_run :
    reverse_transaction (request 200 900) 1 7 dto 102 shop ≡ (ok (reversal_row 900 810 200), after)
unfolding reverse_transaction new_reversal find_reversible post_reversal reversed_balance ◌+ℤ◌
reversal_run = refl

reverse_transaction-once_example :
    reverse_transaction (request 250 950) 1 8 dto' 102 after ≡ (err already_reversed, after)
reverse_transaction-once_example =
    reverse_transaction-once (request 200 900) (request 250 950) 1 7 8 shop after
      (reversal_row 900 810 200) dto dto' 102 refl reversal_run refl

after-IsSound : IsSound after
unfolding ledger ◌+ℤ◌ ◌-ℤ◌
after-IsSound = record {
  reconciled = (refl, (refl, tt));
  solvent = (omega arith, (omega arith, tt));
  keyed = (refl, (refl, (refl, (refl, tt))));
  distinct = (refl, (refl, tt));
}

-- Ana is blocked before the request is sent again.
abbrev blocked_after : Db
blocked_after = (toggle_block (request 240 940) 1 10 after).1

reverse_transaction-replay_example :
    Answered
      (reversal_row 900 810 200)
      blocked_after
      (reverse_transaction (request 250 950) 1 8 dto 102 blocked_after)
reverse_transaction-replay_example =
    reverse_transaction-replay ratios ratios-IsIeee (request 200 900) (request 250 950) 1 7 8 shop
      after blocked_after (reversal_row 900 810 200) after-IsSound
      (step start (block_toggled (request 240 940) 1 10)) dto dto 102 102 refl reversal_run

reverse_transaction-IsSolvent_example :
    IsSolvent (reverse_transaction (request 200 900) 1 7 dto 100 shop).1
reverse_transaction-IsSolvent_example =
    reverse_transaction-IsSolvent (request 200 900) 1 7 dto 100 shop shop-IsSound.solvent

-- Both requests have read the payment as not reversed.
abbrev after_both : Db
after_both = record shop {
  customers = customer 10 (pos 7000) ∷ beto ∷ [];
  transactions =
      reversal_row 950 811 250
      ∷ reversal_row 900 810 200
      ∷ record payment_row { is_reversed = true }
      ∷ row 101 11 debt (pos 300)
      ∷ row 100 10 debt (pos 6000)
      ∷ [];
}

first_post :
    post_reversal (request 200 900) 1 7 dto payment_row shop ≡ ok (reversal_row 900 810 200, after)
unfolding post_reversal reversed_balance ◌+ℤ◌
first_post = refl

second_post :
    post_reversal (request 250 950) 1 7 dto' payment_row after
    ≡ ok (reversal_row 950 811 250, after_both)
unfolding post_reversal reversed_balance ◌+ℤ◌
second_post = refl

first_read : find_reversible 1 102 shop ≡ ok (payment_row, shop)
unfolding find_reversible
first_read = refl

post_reversal_twice_example :
    find_where (is_customer 1 10) after_both.customers
    ≡ some (record ana {
      balance_cents =
          reversed_balance payment (pos 1000) (reversed_balance payment (pos 1000) (pos 5000));
    })
post_reversal_twice_example =
    post_reversal_twice (request 200 900) (request 250 950) 1 7 7 102 dto dto' shop after after_both
      payment_row (reversal_row 900 810 200) (reversal_row 950 811 250) ana first_read refl
      first_post second_post
