-- ===== src/System/Keeping.antt =====
-- The rows that idempotency keys name, over every request.
use micro_erp_saas.Prelude.{
  ℕ, ◌≡◌, refl, subst, inl, inr, [], ◌∷◌, Bool-cases, ◌==◌, arith, Option-cases, find_where,
}
use micro_erp_saas.Prelude.Int.{◌+ℤ◌, eqb_ℤ, eqb_ℤ→eq}
use micro_erp_saas.Entities.{Transaction}
use micro_erp_saas.Number.{Number, IsIeee}
use micro_erp_saas.Store.{Db, Tx, ok, run_tx, put_transaction}
use micro_erp_saas.Store.Commit.{run_tx_ind}
use micro_erp_saas.Ledger.Account.{IsSound, IsKeyed, is_owned}
use micro_erp_saas.Ledger.Posting.{Posting}
use micro_erp_saas.Ledger.Entries.{
  Stays, Stays-refl, Stays-trans, append-Stays, update_where-Stays, put_transaction-Stays,
}
use micro_erp_saas.Transactions.Reversal.Books.{marked, Reversing}
use micro_erp_saas.Transactions.Reversal.Invariant.{stored_behind}
use micro_erp_saas.Transactions.Inflation.Appended.{new_batch-Appended}
use micro_erp_saas.Transactions.Entry.{unless_known}
use micro_erp_saas.Transactions.Sound.{unless_known_ind}
use micro_erp_saas.Transactions.Charges.{register_debt, register_payment, forgive_debt}
use micro_erp_saas.Transactions.Charges.Posts.{
  new_debt-Posting, new_payment-Posting, new_forgiveness-Posting,
}
use micro_erp_saas.Transactions.Mixed.{register_mixed_payment}
use micro_erp_saas.Transactions.Mixed.Split.{IsMixedPayment, new_mixed_payment-Posting}
use micro_erp_saas.Transactions.Reversal.{reverse_transaction}
use micro_erp_saas.Transactions.Reversal.Books.{new_reversal-Reversing}
use micro_erp_saas.Transactions.Inflation.{apply_inflation_adjustment, batch_body, has_batch_key}
use micro_erp_saas.Transactions.Inflation.Batch.{new_batch-ok}
use micro_erp_saas.CashRegister.{is_turn_payment, open_turn, open_body, close_turn, close_body}
use micro_erp_saas.CashRegister.Closing.{close_body-Closing}
use micro_erp_saas.Customers.Profile.{
  create, create_body, known_customer, update_customer, update_body, update_credit_limit,
  limit_body, toggle_block, toggle_body, update_promise, promise_body,
}
use micro_erp_saas.Customers.Profile.Sound.{
  update_customer-Saving, update_credit_limit-Saving, toggle_block-Saving, update_promise-Saving,
}
use micro_erp_saas.Customers.Merge.{merge_customers, merge_body}
use micro_erp_saas.Customers.Books.{merge_body-Merging}
use micro_erp_saas.System.{
  Reachable, start, step, Reachable-IsSound, Step, debt_registered, payment_registered,
  mixed_payment_registered, debt_forgiven, transaction_reversed, debts_adjusted, turn_opened,
  turn_closed, customer_created, customer_updated, limit_updated, block_toggled, promise_updated,
  customers_merged,
}

-- The row under a key of a tenant stays between two databases.
abbrev pub Keeps : ℕ → ℕ → Db → Db → Type 0
Keeps tenant key db db' = Stays tenant key db.transactions db'.transactions

module _ (tenant key : ℕ) where
  same-Keeps : (db db' : Db) → db'.transactions ≡ db.transactions → Keeps tenant key db db'
  same-Keeps db db' same = rw same (Stays-refl tenant key db.transactions)

  Posting-Keeps :
      {owner : ℕ} {db db' : Db} → Posting owner db db' → IsSound db → Keeps tenant key db db'
  Posting-Keeps {owner} {db} {db'} p s = rw p.appended (
      append-Stays tenant key p.entries db.transactions
        (subst IsKeyed p.appended (p.keyed s.keyed)))

  Reversing-Keeps :
      {owner : ℕ} {o : Transaction} {db db' : Db}
      → Reversing owner o db db'
      → IsSound db
      → Keeps tenant key db db'
  Reversing-Keeps {owner} {o} {db} {db'} r s = rw r.written (
      Stays-trans tenant key db.transactions (r.row ∷ db.transactions)
        (put_transaction (marked o) (r.row ∷ db.transactions))
        (append-Stays tenant key (r.row ∷ []) db.transactions (r.fresh, s.keyed))
        (put_transaction-Stays tenant key owner o (marked o) (r.row ∷ db.transactions) refl
          (r.fresh, s.keyed) (stored_behind r)))

  charged-Keeps :
      {A : Type 0} (owner key' : ℕ) (known : Transaction → Tx A) (rest : Tx A) (db : Db)
      → ((t : Transaction) (a : A) (db' : Db) → known t db ≡ ok (a, db') → db' ≡ db)
      → IsSound db
      → ((a : A) (db' : Db) → rest db ≡ ok (a, db') → Posting owner db db')
      → Keeps tenant key db (run_tx (unless_known owner key' known rest) db).1
  charged-Keeps owner key' known rest db same s posted =
      unless_known_ind (Keeps tenant key db) owner key' known rest db same (same-Keeps db db refl)
        λ a db' e. Posting-Keeps (posted a db' e) s

Step-Keeps :
    (n : Number) (ieee : IsIeee n) (owner key : ℕ) (db db' : Db)
    → Step n db db'
    → IsSound db
    → Keeps owner key db db'
unfolding register_debt register_payment register_mixed_payment forgive_debt reverse_transaction
    apply_inflation_adjustment open_turn close_turn create update_customer update_credit_limit
    toggle_block update_promise merge_customers
Step-Keeps n ieee owner key db _ (debt_registered req tenant user dto a) s =
    charged-Keeps owner key tenant _ _ _ db (λ t a db' e. ground arith) s
      (λ t db' e. (new_debt-Posting req tenant user db dto t db' a s.solvent e))
Step-Keeps n ieee owner key db _ (payment_registered req tenant user dto) s =
    charged-Keeps owner key tenant _ _ _ db (λ t a db' e. ground arith) s
      (λ t db' e. (new_payment-Posting req tenant user db dto t db' e))
Step-Keeps n ieee owner key db _ (mixed_payment_registered req tenant user dto c t a) s =
    let sum = dto.cash_amount_cents +ℤ dto.transfer_amount_cents in
    elim (Bool-cases (eqb_ℤ sum dto.total_amount_cents)) [
      | inr off ↦ rw off (same-Keeps owner key db db refl)
      | inl adds_up ↦
          let m : IsMixedPayment dto = record {
            cash_amount = c;
            transfer_amount = t;
            total_amount = a;
            adds_up = eqb_ℤ→eq sum dto.total_amount_cents adds_up;
          } in
          rw adds_up (
            charged-Keeps owner key tenant _ _ _ db (λ t a db' e. ground arith) s
              (λ t db' e. (new_mixed_payment-Posting n ieee req tenant user db dto t db' m e)))
    ]
Step-Keeps n ieee owner key db _ (debt_forgiven req tenant user dto) s =
    charged-Keeps owner key tenant _ _ _ db (λ t a db' e. ground arith) s
      (λ t db' e. (new_forgiveness-Posting req tenant user db dto t db' e))
Step-Keeps n ieee owner key db _ (transaction_reversed req tenant user id dto r) s =
    unless_known_ind (Keeps owner key db) tenant _ _ _ db (λ t a db' e. ground arith)
      (same-Keeps owner key db db refl)
      λ t db' e.
        let (o, stored, reversing) = new_reversal-Reversing req tenant user dto db id t db' e in
        Reversing-Keeps owner key reversing s
Step-Keeps n ieee owner key db _ (debts_adjusted req tenant user percentage key') s =
    run_tx_ind (Keeps owner key db) (batch_body n req tenant user percentage key') db
      (same-Keeps owner key db db refl)
      λ result db' e. elim (Option-cases (find_where (has_batch_key tenant key') db.batches)) [
        | inr (b, ran) ↦ same-Keeps owner key db db' (ground arith)
        | inl fresh ↦
            let a =
              new_batch-Appended n req tenant user percentage key' result db db' (ground arith) in
            let after =
              new_batch-ok n req tenant user percentage key' result db db' s (ground arith) in
            rw a.rows (
              append-Stays owner key a.entries db.transactions
                (subst IsKeyed a.rows (after.0).keyed))
      ]
Step-Keeps n ieee owner key db _ (turn_opened req tenant user dto) s =
    run_tx_ind (Keeps owner key db) (open_body req tenant user dto) db
      (same-Keeps owner key db db refl) λ shift db' ran. same-Keeps owner key db db' (ground arith)
Step-Keeps n ieee owner key db _ (turn_closed req tenant user dto) s =
    run_tx_ind (Keeps owner key db) (close_body req tenant user dto) db
      (same-Keeps owner key db db refl)
      λ closed db' ran.
        let c = close_body-Closing req tenant user dto db closed db' ran in
        rw c.frozen (
          update_where-Stays owner key (is_turn_payment tenant c.shift.opened_at) _ db.transactions
            (λ t. refl))
Step-Keeps n ieee owner key db _ (customer_created req tenant dto unused) s =
    run_tx_ind (Keeps owner key db) (create_body req tenant dto) db
      (same-Keeps owner key db db refl)
      λ c db' ran. elim (Option-cases (known_customer req tenant dto.idempotency_key db)) [
        | inr (old, known) ↦ same-Keeps owner key db db' (ground arith)
        | inl fresh ↦ same-Keeps owner key db db' (ground arith)
      ]
Step-Keeps n ieee owner key db _ (customer_updated req tenant id dto) s =
    run_tx_ind (Keeps owner key db) (update_body req tenant id dto) db
      (same-Keeps owner key db db refl)
      λ c db' ran.
        same-Keeps owner key db db' (update_customer-Saving req tenant db id dto c db' ran).kept
Step-Keeps n ieee owner key db _ (limit_updated req tenant id limit) s =
    run_tx_ind (Keeps owner key db) (limit_body req tenant id limit) db
      (same-Keeps owner key db db refl)
      λ c db' ran.
        same-Keeps owner key db db'
          (update_credit_limit-Saving req tenant db id limit c db' ran).kept
Step-Keeps n ieee owner key db _ (block_toggled req tenant id) s =
    run_tx_ind (Keeps owner key db) (toggle_body req tenant id) db (same-Keeps owner key db db refl)
      λ c db' ran. same-Keeps owner key db db' (toggle_block-Saving req tenant db id c db' ran).kept
Step-Keeps n ieee owner key db _ (promise_updated req tenant id date) s =
    run_tx_ind (Keeps owner key db) (promise_body req tenant id date) db
      (same-Keeps owner key db db refl)
      λ c db' ran.
        same-Keeps owner key db db' (update_promise-Saving req tenant db id date c db' ran).kept
Step-Keeps n ieee owner key db _ (customers_merged req tenant dto) s =
    elim (Bool-cases (dto.primary_id == dto.secondary_id)) [
      | inl same ↦ rw same (same-Keeps owner key db db refl)
      | inr distinct ↦ rw distinct (
          run_tx_ind (Keeps owner key db) (merge_body req tenant dto) db
            (same-Keeps owner key db db refl)
            λ c db' ran.
              let m = merge_body-Merging req tenant dto db db' c distinct ran in
              rw m.moved_all (
                update_where-Stays owner key (is_owned tenant m.secondary.id) _ db.transactions
                  (λ t. refl)))
    ]

pub Reachable-Keeps :
    (n : Number) (ieee : IsIeee n) (owner key : ℕ) (db db' : Db)
    → Reachable n db db'
    → IsSound db
    → Keeps owner key db db'
Reachable-Keeps n ieee owner key db _ start s = same-Keeps owner key db db refl
Reachable-Keeps n ieee owner key db _ (step {db1} {db2} before last) s =
    Stays-trans owner key db.transactions db1.transactions db2.transactions
      (Reachable-Keeps n ieee owner key db db1 before s)
      (Step-Keeps n ieee owner key db1 db2 last (Reachable-IsSound n ieee db db1 before s))
