-- ===== src/Transactions/Reversal.antt =====
-- `reverseTransaction`, in its two parts: the read of the original, which takes no lock, and the
-- write under the customer's lock.
pub mod Books
pub mod Invariant
pub mod Once
use micro_erp_saas.Prelude.{ℕ, true, ◌||◌, some, if◌then◌else◌, or_else, find_where}
use Prim.Native.String.{◌++◌}
use micro_erp_saas.Prelude.Int.{ℤ, pos, ◌+ℤ◌, ◌-ℤ◌, ltb_ℤ}
use micro_erp_saas.Entities.{
  TransactionType, Transaction, reversal, debt, inflation_adjustment, is_type,
}
use micro_erp_saas.Store.{
  Db, Request, Result, Tx, ◌>>=◌, ◌>>◌, pure, gets, or_throw, throw_if, run_tx,
  transaction_not_found, already_reversed, is_transaction, lock_customer, save_customer,
  insert_transaction, save_transaction,
}
use micro_erp_saas.Transactions.Dto.{ReverseTransactionDto}
use micro_erp_saas.Transactions.Entry.{new_transaction, unless_known}

-- The original of the tenant, if it was not reversed before.
unfoldable pub find_reversible : ℕ → ℕ → Tx Transaction
find_reversible tenant id = do
  original ←
      or_throw (← gets (λ db. find_where (is_transaction tenant id) db.transactions))
        transaction_not_found
  throw_if original.is_reversed already_reversed
  pure original

-- The balance after the original is taken back, and held at zero from below.
unfoldable pub reversed_balance : TransactionType → ℤ → ℤ → ℤ
reversed_balance type amount balance =
    let adjusted =
      if is_type type debt || is_type type inflation_adjustment
      then balance -ℤ amount
      else balance +ℤ amount in
    if ltb_ℤ adjusted (pos 0) then pos 0 else adjusted

module _ (req : Request) (tenant user : ℕ) (dto : ReverseTransactionDto) where
  unfoldable pub post_reversal : Transaction → Tx Transaction
  post_reversal original = do
    customer ← lock_customer req tenant original.customer_id
    let entry =
        new_transaction req 0 tenant user original.customer_id reversal original.amount_cents
          (some
            (or_else dto.description ("Anulación de transacción " ++ req.uuid_text original.id)))
          dto.idempotency_key
    let reversal_tx = record entry { reversed_transaction_id = some original.id }
    insert_transaction reversal_tx
    save_customer (record customer {
      balance_cents = reversed_balance original.type original.amount_cents customer.balance_cents;
    })
    save_transaction (record original { is_reversed = true })
    pure reversal_tx

  unfoldable pub new_reversal : ℕ → Tx Transaction
  new_reversal id = do original ← find_reversible tenant id; post_reversal original

  unfoldable pub reverse_transaction : ℕ → Db → Result Transaction × Db
  reverse_transaction id = run_tx (unless_known tenant dto.idempotency_key pure (new_reversal id))
