-- ===== src/Customers/Merge.antt =====
-- `mergeCustomers`: the primary customer takes over the transactions, the balance and the higher
-- limit of the secondary, which is blocked. The two rows are locked in the order of their UUIDs.
use micro_erp_saas.Prelude.{ℕ, false, not, ltb, ◌==◌, if◌then◌else◌, find_where, update_where, List}
use micro_erp_saas.Prelude.Int.{pos, ◌+ℤ◌, max_ℤ}
use micro_erp_saas.Entities.{Customer, Transaction}
use micro_erp_saas.Store.{
  Db, Request, Result, err, Tx, ◌>>=◌, ◌>>◌, pure, gets, or_throw, throw_if, modify, run_tx,
  is_customer, save_customer, lock_timeout, primary_not_found, secondary_not_found, same_customer,
}
use micro_erp_saas.Ledger.Account.{is_owned}

pub record MergeCustomersDto : Type 0 where
  pub primary_id : ℕ
  pub secondary_id : ℕ

-- A row under FOR UPDATE, with the message for its role.
abbrev pub lock_role : Request → ℕ → MergeCustomersDto → ℕ → Tx Customer
lock_role req tenant dto id = do
  throw_if (not req.lock_granted) lock_timeout
  or_throw (← gets (λ db. find_where (is_customer tenant id) db.customers))
      (if id == dto.primary_id then primary_not_found else secondary_not_found)

-- The identifiers in the order in which they are locked.
abbrev pub first_id : MergeCustomersDto → ℕ
first_id dto = if ltb dto.primary_id dto.secondary_id then dto.primary_id else dto.secondary_id

abbrev pub second_id : MergeCustomersDto → ℕ
second_id dto = if ltb dto.primary_id dto.secondary_id then dto.secondary_id else dto.primary_id

-- UPDATE … SET customer_id = :primary WHERE customer_id = :secondary AND tenant_id = :tenant
abbrev pub move_transactions : ℕ → ℕ → ℕ → List Transaction → List Transaction
move_transactions tenant secondary primary =
    update_where (is_owned tenant secondary) (λ t. record t { customer_id = primary })

abbrev pub merged_primary : Customer → Customer → Customer
merged_primary primary secondary = record primary {
  balance_cents = primary.balance_cents +ℤ secondary.balance_cents;
  credit_limit_cents = max_ℤ primary.credit_limit_cents secondary.credit_limit_cents;
}

abbrev pub merged_secondary : Customer → Customer
merged_secondary secondary = record secondary { is_active = false; balance_cents = pos 0 }

module _ (req : Request) (tenant : ℕ) where
  -- The writes, once both rows are locked.
  unfoldable pub write_merge : Customer → Customer → Tx Customer
  write_merge primary secondary = do
    modify (λ db. record db {
      transactions = move_transactions tenant secondary.id primary.id db.transactions;
    })
    save_customer (merged_primary primary secondary)
    save_customer (merged_secondary secondary)
    pure (merged_primary primary secondary)

  unfoldable pub merge_body : MergeCustomersDto → Tx Customer
  merge_body dto = do
    first ← lock_role req tenant dto (first_id dto)
    second ← lock_role req tenant dto (second_id dto)
    if dto.primary_id == first_id dto then write_merge first second else write_merge second first

  unfoldable pub merge_customers : MergeCustomersDto → Db → Result Customer × Db
  merge_customers dto db =
      if dto.primary_id == dto.secondary_id
      then (err same_customer, db)
      else run_tx (merge_body dto) db
