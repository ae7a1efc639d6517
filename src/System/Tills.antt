-- ===== src/System/Tills.antt =====
-- The till over every request: only opening and closing a turn write the tables of the till.
use micro_erp_saas.Prelude.{ℕ, ◌≡◌, inl, inr, Bool-cases, ◌==◌, arith, Option-cases, find_where}
use micro_erp_saas.Prelude.Int.{◌+ℤ◌, eqb_ℤ, eqb_ℤ→eq}
use micro_erp_saas.Entities.{Transaction}
use micro_erp_saas.Number.{Number, IsIeee}
use micro_erp_saas.Store.{Db, Tx, ok, run_tx}
use micro_erp_saas.Store.Commit.{run_tx_ind}
use micro_erp_saas.Ledger.Account.{IsSound, SameTills}
use micro_erp_saas.Transactions.Entry.{unless_known}
use micro_erp_saas.Transactions.Sound.{unless_known_ind}
use micro_erp_saas.Transactions.Charges.{register_debt, register_payment, forgive_debt}
use micro_erp_saas.Transactions.Charges.Posts.{
  new_debt-Posting, new_payment-Posting, new_forgiveness-Posting,
}
use micro_erp_saas.Transactions.Mixed.{register_mixed_payment}
use micro_erp_saas.Transactions.Mixed.Split.{IsMixedPayment, new_mixed_payment-Posting}
use micro_erp_saas.Transactions.Reversal.{reverse_transaction}
use micro_erp_saas.Transactions.Reversal.Books.{new_reversal-Reversing}
use micro_erp_saas.Transactions.Inflation.{apply_inflation_adjustment, batch_body, has_batch_key}
use micro_erp_saas.Transactions.Inflation.Batch.{new_batch-ok}
use micro_erp_saas.CashRegister.Turn.{HasOneTurn, open_turn-HasOneTurn, close_turn-HasOneTurn}
use micro_erp_saas.Customers.Profile.{
  create, create_body, known_customer, update_customer, update_body, update_credit_limit,
  limit_body, toggle_block, toggle_body, update_promise, promise_body,
}
use micro_erp_saas.Customers.Profile.Sound.{
  update_customer-Saving, update_credit_limit-Saving, toggle_block-Saving, update_promise-Saving,
}
use micro_erp_saas.Customers.Merge.{merge_customers, merge_body}
use micro_erp_saas.Customers.Books.{merge_body-Merging}
use micro_erp_saas.System.{
  Step, debt_registered, payment_registered, mixed_payment_registered, debt_forgiven,
  transaction_reversed, debts_adjusted, turn_opened, turn_closed, customer_created,
  customer_updated, limit_updated, block_toggled, promise_updated, customers_merged, Reachable,
  start, step, Reachable-IsSound,
}

-- The tables of the till decide.
kept-HasOneTurn : (db db' : Db) → SameTills db db' → HasOneTurn db → HasOneTurn db'
kept-HasOneTurn db db' same one = rw (same.0, same.1) one

module _ (n : Number) (ieee : IsIeee n) (db : Db) (s : IsSound db) (one : HasOneTurn db) where
  -- A method behind the idempotency check that leaves the tables of the till alone.
  charged-HasOneTurn :
      {A : Type 0} (tenant key : ℕ) (known : Transaction → Tx A) (rest : Tx A)
      → ((t : Transaction) (a : A) (db' : Db) → known t db ≡ ok (a, db') → db' ≡ db)
      → ((a : A) (db' : Db) → rest db ≡ ok (a, db') → SameTills db db')
      → HasOneTurn (run_tx (unless_known tenant key known rest) db).1
  charged-HasOneTurn tenant key known rest same tills =
      unless_known_ind HasOneTurn tenant key known rest db same one
        λ a db' e. kept-HasOneTurn db db' (tills a db' e) one

  saved-HasOneTurn :
      {A : Type 0} (m : Tx A)
      → ((a : A) (db' : Db) → m db ≡ ok (a, db') → SameTills db db')
      → HasOneTurn (run_tx m db).1
  saved-HasOneTurn m tills =
      run_tx_ind HasOneTurn m db one λ a db' e. kept-HasOneTurn db db' (tills a db' e) one

  Step-HasOneTurn : (db' : Db) → Step n db db' → HasOneTurn db'
  unfolding register_debt register_payment register_mixed_payment forgive_debt reverse_transaction
      apply_inflation_adjustment create update_customer update_credit_limit toggle_block
      update_promise merge_customers
  Step-HasOneTurn _ (debt_registered req tenant user dto a) =
      charged-HasOneTurn tenant _ _ _ (λ t a db' e. ground arith)
        (λ t db' e. (new_debt-Posting req tenant user db dto t db' a s.solvent e).tills)
  Step-HasOneTurn _ (payment_registered req tenant user dto) =
      charged-HasOneTurn tenant _ _ _ (λ t a db' e. ground arith)
        (λ t db' e. (new_payment-Posting req tenant user db dto t db' e).tills)
  Step-HasOneTurn _ (mixed_payment_registered req tenant user dto c t a) =
      let sum = dto.cash_amount_cents +ℤ dto.transfer_amount_cents in
      elim (Bool-cases (eqb_ℤ sum dto.total_amount_cents)) [
        | inr off ↦ rw off one
        | inl adds_up ↦
            let m : IsMixedPayment dto = record {
              cash_amount = c;
              transfer_amount = t;
              total_amount = a;
              adds_up = eqb_ℤ→eq sum dto.total_amount_cents adds_up;
            } in
            rw adds_up (
              charged-HasOneTurn tenant _ _ _ (λ t a db' e. ground arith)
                (λ t db' e.
                  (new_mixed_payment-Posting n ieee req tenant user db dto t db' m e).tills))
      ]
  Step-HasOneTurn _ (debt_forgiven req tenant user dto) =
      charged-HasOneTurn tenant _ _ _ (λ t a db' e. ground arith)
        (λ t db' e. (new_forgiveness-Posting req tenant user db dto t db' e).tills)
  Step-HasOneTurn _ (transaction_reversed req tenant user id dto r) =
      charged-HasOneTurn tenant _ _ _ (λ t a db' e. ground arith)
        (λ t db' e. (new_reversal-Reversing req tenant user dto db id t db' e).2.tills)
  Step-HasOneTurn _ (debts_adjusted req tenant user percentage key) =
      saved-HasOneTurn (batch_body n req tenant user percentage key) λ result db' e.
        elim (Option-cases (find_where (has_batch_key tenant key) db.batches)) [
          | inr (b, ran) ↦ (ground arith, ground arith)
          | inl fresh ↦
              (new_batch-ok n req tenant user percentage key result db db' s (ground arith)).3
        ]
  Step-HasOneTurn _ (turn_opened req tenant user dto) =
      open_turn-HasOneTurn req tenant user db one dto
  Step-HasOneTurn _ (turn_closed req tenant user dto) =
      close_turn-HasOneTurn req tenant user db one dto
  Step-HasOneTurn _ (customer_created req tenant dto unused) =
      saved-HasOneTurn (create_body req tenant dto) λ c db' e.
        elim (Option-cases (known_customer req tenant dto.idempotency_key db)) [
          | inr (old, known) ↦ (ground arith, ground arith)
          | inl fresh ↦ (ground arith, ground arith)
        ]
  Step-HasOneTurn _ (customer_updated req tenant id dto) =
      saved-HasOneTurn (update_body req tenant id dto)
        λ c db' e. (update_customer-Saving req tenant db id dto c db' e).tills
  Step-HasOneTurn _ (limit_updated req tenant id limit) =
      saved-HasOneTurn (limit_body req tenant id limit)
        λ c db' e. (update_credit_limit-Saving req tenant db id limit c db' e).tills
  Step-HasOneTurn _ (block_toggled req tenant id) =
      saved-HasOneTurn (toggle_body req tenant id)
        λ c db' e. (toggle_block-Saving req tenant db id c db' e).tills
  Step-HasOneTurn _ (promise_updated req tenant id date) =
      saved-HasOneTurn (promise_body req tenant id date)
        λ c db' e. (update_promise-Saving req tenant db id date c db' e).tills
  Step-HasOneTurn _ (customers_merged req tenant dto) =
      elim (Bool-cases (dto.primary_id == dto.secondary_id)) [
        | inl same ↦ rw same one
        | inr distinct ↦ rw distinct (
            saved-HasOneTurn (merge_body req tenant dto)
              λ c db' e. (merge_body-Merging req tenant dto db db' c distinct e).tills)
      ]

-- If the books are sound in a database and every open turn is the one that its tenant's row names,
-- so that a tenant has at most one, then the open turns of every database that a sequence of
-- requests leads to are the ones that their tenants name. The requests are those of `Step`, and
-- the arithmetic of the proration has the laws of IEEE 754.
pub Reachable-HasOneTurn :
    (n : Number) (ieee : IsIeee n) (db db' : Db)
    → Reachable n db db'
    → IsSound db
    → HasOneTurn db
    → HasOneTurn db'
Reachable-HasOneTurn n ieee db _ start s one = one
Reachable-HasOneTurn n ieee db _ (step {db1} {db2} before last) s one =
    Step-HasOneTurn n ieee db1 (Reachable-IsSound n ieee db db1 before s)
      (Reachable-HasOneTurn n ieee db db1 before s one) db2 last
