-- ===== src/Transactions/Entry.antt =====
-- The helpers of transactions.service.ts that its methods share.
use micro_erp_saas.Prelude.{ℕ, String, false, Option, none, some}
use micro_erp_saas.Prelude.Int.{ℤ}
use micro_erp_saas.Entities.{TransactionType, Transaction}
use micro_erp_saas.Store.{Request, Tx, ◌>>=◌, find_by_idempotency_key}

-- The n-th UUID of the request is the row's id; the columns that the caller leaves out have their
-- defaults.
abbrev pub new_transaction :
    Request → ℕ → ℕ → ℕ → ℕ → TransactionType → ℤ → Option String → ℕ → Transaction
new_transaction req n tenant user customer type amount description key = record {
  id = req.uuid n;
  tenant_id = tenant;
  customer_id = customer;
  user_id = user;
  type = type;
  amount_cents = amount;
  description = description;
  payment_method = none;
  reference_group_id = none;
  idempotency_key = key;
  reversed_transaction_id = none;
  is_reversed = false;
  cash_register_log_id = none;
  created_at = req.now;
}

-- The answer for a key that was processed before, or the rest of the method.
abbrev pub unless_known : {A : Type 0} → ℕ → ℕ → (Transaction → Tx A) → Tx A → Tx A
unless_known tenant key known rest = do
  existing ← find_by_idempotency_key tenant key
  elim existing [ some t ↦ known t | none ↦ rest ]
