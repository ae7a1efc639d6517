-- ===== src/Tests/People.antt =====
-- Creation and merge of customers in the shop of the tests, and a sequence of requests.
use micro_erp_saas.Prelude.{◌≡◌, refl, none, some, ◌∷◌, arith}
use micro_erp_saas.Prelude.Int.{pos, ◌+ℤ◌}
use micro_erp_saas.Ledger.Account.{ledger, IsSound}
use micro_erp_saas.Ledger.Isolation.{IsKept}
use micro_erp_saas.Store.{Db}
use micro_erp_saas.Ledger.Table.{total_balance}
use micro_erp_saas.Transactions.Dto.{CreateTransactionDto}
use micro_erp_saas.Transactions.Charges.{register_debt}
use micro_erp_saas.Customers.Profile.{CreateCustomerDto}
use micro_erp_saas.Customers.Merge.{MergeCustomersDto, merge_customers}
use micro_erp_saas.Customers.Books.{merge_customers_total}
use micro_erp_saas.System.{
  start, step, debt_registered, turn_closed, customers_merged, Reachable-IsSound,
}
use micro_erp_saas.System.Tills.{Reachable-HasOneTurn}
use micro_erp_saas.CashRegister.{CloseTurnDto, close_turn}
use micro_erp_saas.CashRegister.Turn.{HasOneTurn}
use micro_erp_saas.System.Tenants.{Step-IsKept}
use micro_erp_saas.Tests.Ratio.{ratios, ratios-IsIeee}
use micro_erp_saas.Tests.Shop.{request, customer, shop, shop-IsSound, shop-HasOneTurn}

abbrev new_customer : CreateCustomerDto
new_customer = record {
  full_name = "Carla";
  phone = some "555";
  dni = none;
  credit_limit_cents = none;
  idempotency_key = some 820;
}

abbrev merging : MergeCustomersDto
merging = record { primary_id = 11; secondary_id = 10 }

abbrev purchase : CreateTransactionDto
purchase = record {
  customer_id = 10;
  amount_cents = pos 2000;
  description = none;
  idempotency_key = 821;
}

merge_customers_total_example :
    total_balance (merge_customers (request 200 900) 1 merging shop).1.customers
    ≡ total_balance shop.customers
merge_customers_total_example =
    merge_customers_total (request 200 900) 1 merging shop shop-IsSound.distinct

-- A debt is registered, and then the two customers are merged.
Reachable-IsSound_example :
    IsSound
      (merge_customers
        (request 250 950)
        1
        merging
        (register_debt (request 200 900) 1 7 purchase shop).1).1
Reachable-IsSound_example =
    Reachable-IsSound ratios ratios-IsIeee shop _
      (step (step start (debt_registered (request 200 900) 1 7 purchase refl))
        (customers_merged (request 250 950) 1 merging))
      shop-IsSound

-- The shop next to a customer of tenant 2.
abbrev two_shops : Db
two_shops = record shop {
  customers = record (customer 20 (pos 0)) { tenant_id = 2 } ∷ shop.customers;
}

two_shops-IsSound : IsSound two_shops
unfolding ledger ◌+ℤ◌
two_shops-IsSound = record {
  reconciled = (refl, shop-IsSound.reconciled);
  solvent = (omega arith, shop-IsSound.solvent);
  keyed = shop-IsSound.keyed;
  distinct = (refl, shop-IsSound.distinct);
}

Step-IsKept_example : IsKept 2 two_shops (register_debt (request 200 900) 1 7 purchase two_shops).1
Step-IsKept_example =
    Step-IsKept ratios ratios-IsIeee 2 two_shops _
      (debt_registered (request 200 900) 1 7 purchase refl) refl two_shops-IsSound

abbrev closing : CloseTurnDto
closing = record { actual_cash_cents = pos 2000; note = none }

-- A debt is registered, and then the turn is closed.
Reachable-HasOneTurn_example :
    HasOneTurn
      (close_turn
        (request 250 950)
        1
        7
        closing
        (register_debt (request 200 900) 1 7 purchase shop).1).1
Reachable-HasOneTurn_example =
    Reachable-HasOneTurn ratios ratios-IsIeee shop _
      (step (step start (debt_registered (request 200 900) 1 7 purchase refl))
        (turn_closed (request 250 950) 1 7 closing))
      shop-IsSound shop-HasOneTurn
