-- ===== src/System.antt =====
-- The services together: one step for each request that commits on the two tables of the books, and
-- the invariant of the books over every sequence of steps.
pub mod Isolation
pub mod Tenants
pub mod Tills
pub mod Keeping
pub mod Replay
use micro_erp_saas.Prelude.{ℕ, ◌≡◌, ◌≢◌, true, false, Option, some, ◌==◌, any_where, find_where}
use micro_erp_saas.Prelude.Int.{ℤ, ◌≤ℤ◌}
use micro_erp_saas.Entities.{Customer, Transaction, reversal}
use micro_erp_saas.Number.{Number, IsIeee}
use micro_erp_saas.Store.{Db, Request, is_customer, is_transaction}
use micro_erp_saas.Ledger.Account.{type_effect, IsSound}
use micro_erp_saas.Transactions.Dto.{
  CreateTransactionDto, CreatePaymentDto, CreateMixedPaymentDto, ReverseTransactionDto,
  ForgiveDebtDto, is_amount,
}
use micro_erp_saas.Transactions.Charges.{register_debt, register_payment, forgive_debt}
use micro_erp_saas.Transactions.Mixed.{register_mixed_payment}
use micro_erp_saas.Transactions.Reversal.{reverse_transaction}
use micro_erp_saas.Transactions.Inflation.{apply_inflation_adjustment}
use micro_erp_saas.Transactions.Sound.{
  register_debt-IsSound, register_payment-IsSound, forgive_debt-IsSound,
  register_mixed_payment-IsSound,
}
use micro_erp_saas.Transactions.Reversal.Invariant.{reverse_transaction-IsSound}
use micro_erp_saas.Transactions.Inflation.Batch.{apply_inflation_adjustment-IsSound}
use micro_erp_saas.CashRegister.{OpenTurnDto, CloseTurnDto, open_turn, close_turn}
use micro_erp_saas.CashRegister.Books.{open_turn-IsSound, close_turn-IsSound}
use micro_erp_saas.Customers.Profile.{
  CreateCustomerDto, UpdateCustomerDto, create, update_customer, update_credit_limit, toggle_block,
  update_promise,
}
use micro_erp_saas.Customers.Profile.Sound.{
  create-IsSound, update_customer-IsSound, update_credit_limit-IsSound, toggle_block-IsSound,
  update_promise-IsSound,
}
use micro_erp_saas.Customers.Merge.{MergeCustomersDto, merge_customers}
use micro_erp_saas.Customers.Books.{merge_customers-IsSound}

-- A reversal takes back a transaction that is no reversal and that the balance still covers.
pub record IsReversible (tenant id : ℕ) (db : Db) : Type 0 where
  pub original : Transaction
  pub customer : Customer
  pub stored : find_where (is_transaction tenant id) db.transactions ≡ some original
  pub found : find_where (is_customer tenant original.customer_id) db.customers ≡ some customer
  pub forward : original.type ≢ reversal
  pub covered : type_effect original.type original.amount_cents ≤ℤ customer.balance_cents

-- A request that has passed its decorators, and the database it leaves. A failed request leaves the
-- database it found. The UUID of a new customer is one that no transaction names.
pub data Step (n : Number) (db : Db) : Db → Type 0 where
  debt_registered :
      (req : Request) (tenant user : ℕ) (dto : CreateTransactionDto)
      → is_amount dto.amount_cents ≡ true
      → Step n db (register_debt req tenant user dto db).1
  payment_registered :
      (req : Request) (tenant user : ℕ) (dto : CreatePaymentDto)
      → Step n db (register_payment req tenant user dto db).1
  mixed_payment_registered :
      (req : Request) (tenant user : ℕ) (dto : CreateMixedPaymentDto)
      → is_amount dto.cash_amount_cents ≡ true
      → is_amount dto.transfer_amount_cents ≡ true
      → is_amount dto.total_amount_cents ≡ true
      → Step n db (register_mixed_payment n req tenant user dto db).1
  debt_forgiven :
      (req : Request) (tenant user : ℕ) (dto : ForgiveDebtDto)
      → Step n db (forgive_debt req tenant user dto db).1
  transaction_reversed :
      (req : Request) (tenant user id : ℕ) (dto : ReverseTransactionDto)
      → IsReversible tenant id db
      → Step n db (reverse_transaction req tenant user dto id db).1
  debts_adjusted :
      (req : Request) (tenant user : ℕ) (percentage : n.Double) (key : ℕ)
      → Step n db (apply_inflation_adjustment n req tenant user percentage key db).1
  turn_opened :
      (req : Request) (tenant user : ℕ) (dto : OpenTurnDto)
      → Step n db (open_turn req tenant user dto db).1
  turn_closed :
      (req : Request) (tenant user : ℕ) (dto : CloseTurnDto)
      → Step n db (close_turn req tenant user dto db).1
  customer_created :
      (req : Request) (tenant : ℕ) (dto : CreateCustomerDto)
      → any_where (λ t. t.customer_id == req.uuid 0) db.transactions ≡ false
      → Step n db (create req tenant dto db).1
  customer_updated :
      (req : Request) (tenant id : ℕ) (dto : UpdateCustomerDto)
      → Step n db (update_customer req tenant id dto db).1
  limit_updated :
      (req : Request) (tenant id : ℕ) (limit : ℤ)
      → Step n db (update_credit_limit req tenant id limit db).1
  block_toggled : (req : Request) (tenant id : ℕ) → Step n db (toggle_block req tenant id db).1
  promise_updated :
      (req : Request) (tenant id : ℕ) (date : Option ℕ)
      → Step n db (update_promise req tenant id date db).1
  customers_merged :
      (req : Request) (tenant : ℕ) (dto : MergeCustomersDto)
      → Step n db (merge_customers req tenant dto db).1

-- The databases that sequences of requests lead to.
pub data Reachable (n : Number) (db : Db) : Db → Type 0 where
  start : Reachable n db db
  step : {db1 db2 : Db} → Reachable n db db1 → Step n db1 db2 → Reachable n db db2

Step-IsSound :
    (n : Number) (ieee : IsIeee n) (db db' : Db) → Step n db db' → IsSound db → IsSound db'
Step-IsSound n ieee db _ (debt_registered req tenant user dto a) s =
    register_debt-IsSound req tenant user db s dto a
Step-IsSound n ieee db _ (payment_registered req tenant user dto) s =
    register_payment-IsSound req tenant user db s dto
Step-IsSound n ieee db _ (mixed_payment_registered req tenant user dto c t a) s =
    register_mixed_payment-IsSound req tenant user db s n ieee dto c t a
Step-IsSound n ieee db _ (debt_forgiven req tenant user dto) s =
    forgive_debt-IsSound req tenant user db s dto
Step-IsSound n ieee db _ (transaction_reversed req tenant user id dto r) s =
    reverse_transaction-IsSound req tenant user dto id db r.original r.customer r.stored r.found
      r.forward r.covered s
Step-IsSound n ieee db _ (debts_adjusted req tenant user percentage key) s =
    apply_inflation_adjustment-IsSound n req tenant user percentage key db s
Step-IsSound n ieee db _ (turn_opened req tenant user dto) s =
    open_turn-IsSound req tenant user db s dto
Step-IsSound n ieee db _ (turn_closed req tenant user dto) s =
    close_turn-IsSound req tenant user db s dto
Step-IsSound n ieee db _ (customer_created req tenant dto unused) s =
    create-IsSound req tenant db s dto unused
Step-IsSound n ieee db _ (customer_updated req tenant id dto) s =
    update_customer-IsSound req tenant db s id dto
Step-IsSound n ieee db _ (limit_updated req tenant id limit) s =
    update_credit_limit-IsSound req tenant db s id limit
Step-IsSound n ieee db _ (block_toggled req tenant id) s = toggle_block-IsSound req tenant db s id
Step-IsSound n ieee db _ (promise_updated req tenant id date) s =
    update_promise-IsSound req tenant db s id date
Step-IsSound n ieee db _ (customers_merged req tenant dto) s =
    merge_customers-IsSound req tenant dto db s

-- If the books are sound in a database, they are sound in every database that a sequence of
-- requests leads to: every balance is the sum of the effects of the customer's transactions and is
-- not negative, and identifiers and idempotency keys are distinct. The requests are those of
-- `Step`: amounts in the bounds of the decorators, reversals of rows that are no reversals and
-- that the balance covers, and new customers under identifiers that no transaction names. The
-- arithmetic of the proration has the laws of IEEE 754.
pub Reachable-IsSound :
    (n : Number) (ieee : IsIeee n) (db db' : Db) → Reachable n db db' → IsSound db → IsSound db'
Reachable-IsSound n ieee db _ start s = s
Reachable-IsSound n ieee db _ (step {db1} {db2} before last) s =
    Step-IsSound n ieee db1 db2 last (Reachable-IsSound n ieee db db1 before s)
