-- ===== src/System/Replay.antt =====
-- Requests that are sent again under their key after any other requests.
use micro_erp_saas.Prelude.{ℕ, ◌≡◌}
use micro_erp_saas.Entities.{Transaction}
use micro_erp_saas.Number.{Number, IsIeee}
use micro_erp_saas.Store.{Db, Request, Result, ok}
use micro_erp_saas.Ledger.Account.{IsSound}
use micro_erp_saas.Ledger.Entries.{core}
use micro_erp_saas.Transactions.Dto.{CreateTransactionDto, CreatePaymentDto, ReverseTransactionDto}
use micro_erp_saas.Transactions.Replay.{
  unless_known-known, register_debt-IsAnswer, register_payment-IsAnswer,
}
use micro_erp_saas.Transactions.Reversal.Once.{reverse_transaction-IsAnswer}
use micro_erp_saas.Transactions.Charges.{new_debt, new_payment, register_debt, register_payment}
use micro_erp_saas.Transactions.Reversal.{reverse_transaction}
use micro_erp_saas.Transactions.Reversal.{new_reversal}
use micro_erp_saas.System.{Reachable}
use micro_erp_saas.System.Keeping.{Reachable-Keeps}

-- The answer to a repeated request: the row of the first answer, but for what others wrote since.
abbrev pub Answered : Transaction → Db → Result Transaction × Db → Type 0
Answered t db answer = (t' : Transaction) × (answer ≡ (ok t', db)) × (core t' ≡ core t)

module _ (n : Number) (ieee : IsIeee n) (req req' : Request) (tenant user user' : ℕ)
    (db db1 db2 : Db) (t : Transaction) (sound : IsSound db1) (later : Reachable n db1 db2) where
  -- After `registerDebt` has answered a request with a transaction and left sound books, the tenant's
  -- request with the same key, whatever else it says and whatever requests of `Step` have run in
  -- between, gets that transaction again and changes nothing. Only the columns that a merge, a
  -- reversal and a closing write can differ. The arithmetic of the proration has the laws of
  -- IEEE 754.
  pub register_debt-replay :
      (dto dto' : CreateTransactionDto)
      → dto'.idempotency_key ≡ dto.idempotency_key
      → register_debt req tenant user dto db ≡ (ok t, db1)
      → Answered t db2 (register_debt req' tenant user' dto' db2)
  unfolding register_debt
  register_debt-replay dto dto' same h =
      let first = register_debt-IsAnswer req tenant user db db1 t dto h in
      let (t', found, core_same) =
        Reachable-Keeps n ieee tenant dto.idempotency_key db1 db2 later sound t first in
      (
        t',
        rw same (
            unless_known-known tenant dto.idempotency_key (new_debt req' tenant user' dto') db2 t'
              found),
        core_same,
      )

  -- After `registerPayment` has answered a request with a transaction and left sound books, the tenant's
  -- request with the same key, whatever else it says and whatever requests of `Step` have run in
  -- between, gets that transaction again and changes nothing. Only the columns that a merge, a
  -- reversal and a closing write can differ. The arithmetic of the proration has the laws of
  -- IEEE 754.
  pub register_payment-replay :
      (dto dto' : CreatePaymentDto)
      → dto'.idempotency_key ≡ dto.idempotency_key
      → register_payment req tenant user dto db ≡ (ok t, db1)
      → Answered t db2 (register_payment req' tenant user' dto' db2)
  unfolding register_payment
  register_payment-replay dto dto' same h =
      let first = register_payment-IsAnswer req tenant user db db1 t dto h in
      let (t', found, core_same) =
        Reachable-Keeps n ieee tenant dto.idempotency_key db1 db2 later sound t first in
      (
        t',
        rw same (
            unless_known-known tenant dto.idempotency_key (new_payment req' tenant user' dto') db2
              t' found),
        core_same,
      )

  -- After `reverseTransaction` has answered a request with a transaction and left sound books, the tenant's
  -- request with the same key, whatever else it says and whatever requests of `Step` have run in
  -- between, gets that transaction again and changes nothing. Only the columns that a merge, a
  -- reversal and a closing write can differ. The arithmetic of the proration has the laws of
  -- IEEE 754.
  pub reverse_transaction-replay :
      (dto dto' : ReverseTransactionDto) (id id' : ℕ)
      → dto'.idempotency_key ≡ dto.idempotency_key
      → reverse_transaction req tenant user dto id db ≡ (ok t, db1)
      → Answered t db2 (reverse_transaction req' tenant user' dto' id' db2)
  unfolding reverse_transaction
  reverse_transaction-replay dto dto' id id' same h =
      let first = reverse_transaction-IsAnswer req tenant user id dto db db1 t h in
      let (t', found, core_same) =
        Reachable-Keeps n ieee tenant dto.idempotency_key db1 db2 later sound t first in
      (
        t',
        rw same (
            unless_known-known tenant dto.idempotency_key (new_reversal req' tenant user' dto' id')
              db2 t' found),
        core_same,
      )
