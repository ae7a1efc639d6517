-- ===== src/Transactions/Charges.antt =====
-- `registerDebt`, `registerPayment` and `forgiveDebt`: one locked customer, one new transaction.
-- The part of a method behind its idempotency check is a definition of its own.
pub mod Posts
use micro_erp_saas.Prelude.{ℕ, not, some, or_else}
use micro_erp_saas.Prelude.Int.{pos, ◌+ℤ◌, ◌-ℤ◌, ltb_ℤ, leb_ℤ, min_ℤ}
use micro_erp_saas.Entities.{Transaction, debt, payment, forgiveness, cash}
use micro_erp_saas.Store.{
  Db, Request, Result, Tx, ◌>>=◌, ◌>>◌, pure, throw_if, run_tx, customer_blocked, limit_exceeded,
  no_pending_debt, lock_customer, save_customer, insert_transaction,
}
use micro_erp_saas.Transactions.Dto.{CreateTransactionDto, CreatePaymentDto, ForgiveDebtDto}
use micro_erp_saas.Transactions.Entry.{new_transaction, unless_known}

module _ (req : Request) (tenant user : ℕ) where
  unfoldable pub new_debt : CreateTransactionDto → Tx Transaction
  new_debt dto = do
    customer ← lock_customer req tenant dto.customer_id
    throw_if (not customer.is_active) customer_blocked
    let new_balance = customer.balance_cents +ℤ dto.amount_cents
    throw_if (ltb_ℤ customer.credit_limit_cents new_balance) limit_exceeded
    let transaction =
        new_transaction req 0 tenant user dto.customer_id debt dto.amount_cents dto.description
          dto.idempotency_key
    insert_transaction transaction
    save_customer (record customer { balance_cents = new_balance })
    pure transaction

  unfoldable pub register_debt : CreateTransactionDto → Db → Result Transaction × Db
  register_debt dto = run_tx (unless_known tenant dto.idempotency_key pure (new_debt dto))

  unfoldable pub new_payment : CreatePaymentDto → Tx Transaction
  new_payment dto = do
    customer ← lock_customer req tenant dto.customer_id
    let effective_amount = min_ℤ dto.amount_cents customer.balance_cents
    throw_if (leb_ℤ effective_amount (pos 0)) no_pending_debt
    let entry =
        new_transaction req 0 tenant user dto.customer_id payment effective_amount dto.description
          dto.idempotency_key
    let transaction = record entry { payment_method = some (or_else dto.payment_method cash) }
    insert_transaction transaction
    save_customer (record customer { balance_cents = customer.balance_cents -ℤ effective_amount })
    pure transaction

  unfoldable pub register_payment : CreatePaymentDto → Db → Result Transaction × Db
  register_payment dto = run_tx (unless_known tenant dto.idempotency_key pure (new_payment dto))

  unfoldable pub new_forgiveness : ForgiveDebtDto → Tx Transaction
  new_forgiveness dto = do
    customer ← lock_customer req tenant dto.customer_id
    throw_if (leb_ℤ customer.balance_cents (pos 0)) no_pending_debt
    let forgiven_amount = customer.balance_cents
    let transaction =
        new_transaction req 0 tenant user dto.customer_id forgiveness forgiven_amount
          (some dto.description) dto.idempotency_key
    insert_transaction transaction
    save_customer (record customer { balance_cents = pos 0 })
    pure transaction

  unfoldable pub forgive_debt : ForgiveDebtDto → Db → Result Transaction × Db
  forgive_debt dto = run_tx (unless_known tenant dto.idempotency_key pure (new_forgiveness dto))
