-- ===== src/System/Tenants.antt =====
-- A request of one tenant and the rows of the others.
use micro_erp_saas.Prelude.{
  ℕ, ◌≡◌, refl, false, inl, inr, Bool-cases, ◌==◌, arith, Option-cases, find_where,
  select_where-update_where,
}
use micro_erp_saas.Prelude.Int.{◌+ℤ◌, eqb_ℤ, eqb_ℤ→eq}
use micro_erp_saas.Entities.{Transaction}
use micro_erp_saas.Number.{Number, IsIeee}
use micro_erp_saas.Store.{Db, Tx, ok, run_tx}
use micro_erp_saas.Store.Commit.{run_tx_ind}
use micro_erp_saas.Ledger.Account.{IsSound, IsDistinct}
use micro_erp_saas.Ledger.Posting.{Posting}
use micro_erp_saas.Transactions.Entry.{unless_known}
use micro_erp_saas.Ledger.Isolation.{IsKept, Posting-IsKept}
use micro_erp_saas.Transactions.Sound.{unless_known_ind}
use micro_erp_saas.Transactions.Charges.{register_debt, register_payment, forgive_debt}
use micro_erp_saas.Transactions.Charges.Posts.{
  new_debt-Posting, new_payment-Posting, new_forgiveness-Posting,
}
use micro_erp_saas.Transactions.Mixed.{register_mixed_payment}
use micro_erp_saas.Transactions.Mixed.Split.{IsMixedPayment, new_mixed_payment-Posting}
use micro_erp_saas.Transactions.Reversal.{reverse_transaction}
use micro_erp_saas.Transactions.Reversal.Books.{new_reversal-Reversing}
use micro_erp_saas.Transactions.Inflation.{apply_inflation_adjustment, batch_body, has_batch_key}
use micro_erp_saas.Transactions.Inflation.Batch.{new_batch-ok}
use micro_erp_saas.CashRegister.{is_turn_payment, open_turn, open_body, close_turn, close_body}
use micro_erp_saas.CashRegister.Closing.{close_body-Closing}
use micro_erp_saas.Customers.Profile.{
  create, create_body, known_customer, update_customer, update_body, update_credit_limit,
  limit_body, toggle_block, toggle_body, update_promise, promise_body,
}
use micro_erp_saas.Customers.Profile.Sound.{
  update_customer-Saving, update_credit_limit-Saving, toggle_block-Saving, update_promise-Saving,
}
use micro_erp_saas.Customers.Merge.{merge_customers, merge_body}
use micro_erp_saas.Customers.Books.{merge_body-Merging}
use micro_erp_saas.System.{
  Step, debt_registered, payment_registered, mixed_payment_registered, debt_forgiven,
  transaction_reversed, debts_adjusted, turn_opened, turn_closed, customer_created,
  customer_updated, limit_updated, block_toggled, promise_updated, customers_merged,
}
use micro_erp_saas.System.Isolation.{
  same-IsKept, unchanged-IsKept, Reversing-IsKept, Saving-IsKept, Merging-IsKept,
}

-- The tenant that a request is made for.
abbrev pub tenant_of : {n : Number} {db db' : Db} → Step n db db' → ℕ
tenant_of (debt_registered req tenant user dto a) = tenant
tenant_of (payment_registered req tenant user dto) = tenant
tenant_of (mixed_payment_registered req tenant user dto c t a) = tenant
tenant_of (debt_forgiven req tenant user dto) = tenant
tenant_of (transaction_reversed req tenant user id dto r) = tenant
tenant_of (debts_adjusted req tenant user percentage key) = tenant
tenant_of (turn_opened req tenant user dto) = tenant
tenant_of (turn_closed req tenant user dto) = tenant
tenant_of (customer_created req tenant dto unused) = tenant
tenant_of (customer_updated req tenant id dto) = tenant
tenant_of (limit_updated req tenant id limit) = tenant
tenant_of (block_toggled req tenant id) = tenant
tenant_of (promise_updated req tenant id date) = tenant
tenant_of (customers_merged req tenant dto) = tenant

charged-IsKept :
    {A : Type 0} (tenant other key : ℕ) (known : Transaction → Tx A) (rest : Tx A) (db : Db)
    → ((t : Transaction) (a : A) (db' : Db) → known t db ≡ ok (a, db') → db' ≡ db)
    → (tenant == other) ≡ false
    → IsDistinct db.customers
    → ((a : A) (db' : Db) → rest db ≡ ok (a, db') → Posting tenant db db')
    → IsKept other db (run_tx (unless_known tenant key known rest) db).1
charged-IsKept tenant other key known rest db same ne d posted =
    unless_known_ind (IsKept other db) tenant key known rest db same (unchanged-IsKept other db)
      λ a db' e. Posting-IsKept tenant other ne (posted a db' e) d

-- A request made for one tenant leaves the customers and the transactions of every other tenant as
-- they are, in the same order, if the books are sound before it. The requests are those of `Step`,
-- and the arithmetic of the proration has the laws of IEEE 754.
pub Step-IsKept :
    (n : Number) (ieee : IsIeee n) (other : ℕ) (db db' : Db) (step : Step n db db')
    → (tenant_of step == other) ≡ false
    → IsSound db
    → IsKept other db db'
unfolding register_debt register_payment register_mixed_payment forgive_debt reverse_transaction
    apply_inflation_adjustment open_turn close_turn create update_customer update_credit_limit
    toggle_block update_promise merge_customers
Step-IsKept n ieee other db _ (debt_registered req tenant user dto a) ne s =
    charged-IsKept tenant other _ _ _ db (λ t a db' e. ground arith) ne s.distinct
      (λ t db' e. (new_debt-Posting req tenant user db dto t db' a s.solvent e))
Step-IsKept n ieee other db _ (payment_registered req tenant user dto) ne s =
    charged-IsKept tenant other _ _ _ db (λ t a db' e. ground arith) ne s.distinct
      (λ t db' e. (new_payment-Posting req tenant user db dto t db' e))
Step-IsKept n ieee other db _ (mixed_payment_registered req tenant user dto c t a) ne s =
    let sum = dto.cash_amount_cents +ℤ dto.transfer_amount_cents in
    elim (Bool-cases (eqb_ℤ sum dto.total_amount_cents)) [
      | inr off ↦ rw off (unchanged-IsKept other db)
      | inl adds_up ↦
          let m : IsMixedPayment dto = record {
            cash_amount = c;
            transfer_amount = t;
            total_amount = a;
            adds_up = eqb_ℤ→eq sum dto.total_amount_cents adds_up;
          } in
          rw adds_up (
            charged-IsKept tenant other _ _ _ db (λ t a db' e. ground arith) ne s.distinct
              (λ t db' e. (new_mixed_payment-Posting n ieee req tenant user db dto t db' m e)))
    ]
Step-IsKept n ieee other db _ (debt_forgiven req tenant user dto) ne s =
    charged-IsKept tenant other _ _ _ db (λ t a db' e. ground arith) ne s.distinct
      (λ t db' e. (new_forgiveness-Posting req tenant user db dto t db' e))
Step-IsKept n ieee other db _ (transaction_reversed req tenant user id dto r) ne s =
    unless_known_ind (IsKept other db) tenant _ _ _ db (λ t a db' e. ground arith)
      (unchanged-IsKept other db)
      λ t db' e.
        let (o, stored, reversing) = new_reversal-Reversing req tenant user dto db id t db' e in
        Reversing-IsKept ne s reversing
Step-IsKept n ieee other db _ (debts_adjusted req tenant user percentage key) ne s =
    run_tx_ind (IsKept other db) (batch_body n req tenant user percentage key) db
      (unchanged-IsKept other db)
      λ result db' e. elim (Option-cases (find_where (has_batch_key tenant key) db.batches)) [
        | inr (b, ran) ↦ same-IsKept other db db' (ground arith) (ground arith)
        | inl fresh ↦
            (new_batch-ok n req tenant user percentage key result db db' s (ground arith)).2 other
              ne
      ]
Step-IsKept n ieee other db _ (turn_opened req tenant user dto) ne s =
    run_tx_ind (IsKept other db) (open_body req tenant user dto) db (unchanged-IsKept other db)
      λ shift db' ran. same-IsKept other db db' (ground arith) (ground arith)
Step-IsKept n ieee other db _ (turn_closed req tenant user dto) ne s =
    run_tx_ind (IsKept other db) (close_body req tenant user dto) db (unchanged-IsKept other db)
      λ closed db' ran.
        let c = close_body-Closing req tenant user dto db closed db' ran in
        record {
          customers = rw c.customers refl;
          transactions = rw c.frozen (
              select_where-update_where (is_turn_payment tenant c.shift.opened_at)
                (λ t. t.tenant_id == other) _ db.transactions
                (λ t hit. (ground arith, ground arith)));
        }
Step-IsKept n ieee other db _ (customer_created req tenant dto unused) ne s =
    run_tx_ind (IsKept other db) (create_body req tenant dto) db (unchanged-IsKept other db)
      λ c db' ran. elim (Option-cases (known_customer req tenant dto.idempotency_key db)) [
        | inr (old, known) ↦ same-IsKept other db db' (ground arith) (ground arith)
        | inl fresh ↦ record { customers = ground arith; transactions = ground arith }
      ]
Step-IsKept n ieee other db _ (customer_updated req tenant id dto) ne s =
    run_tx_ind (IsKept other db) (update_body req tenant id dto) db (unchanged-IsKept other db)
      λ c db' ran. Saving-IsKept ne s (update_customer-Saving req tenant db id dto c db' ran)
Step-IsKept n ieee other db _ (limit_updated req tenant id limit) ne s =
    run_tx_ind (IsKept other db) (limit_body req tenant id limit) db (unchanged-IsKept other db)
      λ c db' ran. Saving-IsKept ne s (update_credit_limit-Saving req tenant db id limit c db' ran)
Step-IsKept n ieee other db _ (block_toggled req tenant id) ne s =
    run_tx_ind (IsKept other db) (toggle_body req tenant id) db (unchanged-IsKept other db)
      λ c db' ran. Saving-IsKept ne s (toggle_block-Saving req tenant db id c db' ran)
Step-IsKept n ieee other db _ (promise_updated req tenant id date) ne s =
    run_tx_ind (IsKept other db) (promise_body req tenant id date) db (unchanged-IsKept other db)
      λ c db' ran. Saving-IsKept ne s (update_promise-Saving req tenant db id date c db' ran)
Step-IsKept n ieee other db _ (customers_merged req tenant dto) ne s =
    elim (Bool-cases (dto.primary_id == dto.secondary_id)) [
      | inl same ↦ rw same (unchanged-IsKept other db)
      | inr distinct ↦ rw distinct (
          run_tx_ind (IsKept other db) (merge_body req tenant dto) db (unchanged-IsKept other db)
            λ c db' ran.
              Merging-IsKept ne s (merge_body-Merging req tenant dto db db' c distinct ran))
    ]
