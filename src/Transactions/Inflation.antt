-- ===== src/Transactions/Inflation.antt =====
-- `applyInflationAdjustment`: a surcharge on every debtor of the tenant, in one transaction.
pub mod Appended
pub mod Batch
use micro_erp_saas.Prelude.{
  ℕ, ◌+◌, ◌*◌, Bool, not, ◌&&◌, ◌||◌, some, none, List, [], ◌∷◌, ◌==◌, if◌then◌else◌, find_where,
  select_where, any_where, length,
}
use Prim.Native.String.{◌++◌}
use micro_erp_saas.Prelude.Int.{ℤ, pos, ◌+ℤ◌, ltb_ℤ, leb_ℤ}
use micro_erp_saas.Entities.{Customer, Transaction, IdempotentBatchOperation, inflation_adjustment}
use micro_erp_saas.Number.{Number}
use micro_erp_saas.Store.{
  Db, Request, Result, Tx, ◌>>=◌, ◌>>◌, pure, gets, modify, throw_if, throw_where, run_tx,
  lock_timeout, query_failed, save_customer, insert_transaction,
}
use micro_erp_saas.Transactions.Entry.{new_transaction}

pub record BatchResult : Type 0 where
  pub affected_customers : ℕ
  pub total_adjustment_cents : ℤ

-- `customers.filter((c) => c.balance_cents > 0)`
abbrev pub is_debtor : Customer → Bool
is_debtor c = ltb_ℤ (pos 0) c.balance_cents

abbrev pub has_batch_key : ℕ → ℕ → IdempotentBatchOperation → Bool
has_batch_key tenant key b = b.tenant_id == tenant && b.idempotency_key == key

-- INSERT under the primary key and the unique index on (tenant_id, idempotency_key).
abbrev pub insert_batch : IdempotentBatchOperation → Tx Unit
insert_batch b = do
  throw_where
      (λ db.
        any_where (λ r. r.id == b.id || has_batch_key b.tenant_id b.idempotency_key r) db.batches)
      query_failed
  modify (λ db. record db { batches = b ∷ db.batches })

module _ (n : Number) where
  open n use {Double, from_ℤ, mul, div, round, text}

  -- The surcharge on one balance, in cents.
  unfoldable pub adjustment_cents : Double → ℤ → ℤ
  adjustment_cents percentage balance =
      round (div (mul (from_ℤ balance) percentage) (from_ℤ (pos 100)))

  module _ (req : Request) (tenant user : ℕ) where
    -- The row of one round of the loop, after `rows` rounds that wrote one.
    abbrev pub adjustment_entry : Double → ℕ → Customer → ℤ → Transaction
    adjustment_entry percentage rows customer adjustment =
        new_transaction req (rows * 2 + 1) tenant user customer.id inflation_adjustment adjustment
          (some ("Ajuste por inflación: " ++ text percentage ++ "%")) (req.uuid (rows * 2))

    unfoldable pub write_adjustment : Double → ℕ × ℤ → Customer → ℤ → Tx (ℕ × ℤ)
    write_adjustment percentage (rows, total) customer adjustment = do
      insert_transaction (adjustment_entry percentage rows customer adjustment)
      save_customer (record customer { balance_cents = customer.balance_cents +ℤ adjustment })
      pure (rows + 1, total +ℤ adjustment)

    unfoldable pub adjust_customer : Double → ℕ × ℤ → Customer → Tx (ℕ × ℤ)
    adjust_customer percentage acc customer =
        let adjustment = adjustment_cents percentage customer.balance_cents in
        if leb_ℤ adjustment (pos 0)
        then pure acc
        else write_adjustment percentage acc customer adjustment

    -- The loop over the debtors; the state counts the rows written and sums the adjustments.
    unfoldable pub adjust_all : Double → ℕ × ℤ → List Customer → Tx (ℕ × ℤ)
    adjust_all percentage acc [] = pure acc
    adjust_all percentage acc (customer ∷ rest) = do
      acc' ← adjust_customer percentage acc customer
      adjust_all percentage acc' rest

    -- Every customer of the tenant, under FOR UPDATE.
    unfoldable pub lock_customers : Tx (List Customer)
    lock_customers = do
      throw_if (not req.lock_granted) lock_timeout
      gets (λ db. select_where (λ c. c.tenant_id == tenant) db.customers)

    unfoldable pub new_batch : Double → ℕ → Tx BatchResult
    new_batch percentage key = do
      customers ← lock_customers
      let debtors = select_where is_debtor customers
      sums ← adjust_all percentage (0, pos 0) debtors
      insert_batch (record {
        id = req.uuid (sums.0 * 2);
        tenant_id = tenant;
        idempotency_key = key;
        operation_type = inflation_adjustment;
        affected_customers = length debtors;
        total_adjustment_cents = sums.1;
      })
      pure (record { affected_customers = length debtors; total_adjustment_cents = sums.1 })

    -- A batch that ran before answers with its stored result.
    abbrev pub batch_body : Double → ℕ → Tx BatchResult
    batch_body percentage key = do
      existing ← gets (λ db. find_where (has_batch_key tenant key) db.batches)
      elim existing [
        | some b ↦ pure (record {
          affected_customers = b.affected_customers;
          total_adjustment_cents = b.total_adjustment_cents;
        })
        | none ↦ new_batch percentage key
      ]

    unfoldable pub apply_inflation_adjustment : Double → ℕ → Db → Result BatchResult × Db
    apply_inflation_adjustment percentage key = run_tx (batch_body percentage key)
