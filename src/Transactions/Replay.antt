-- ===== src/Transactions/Replay.antt =====
-- Idempotency keys: the row under the key of a request that was answered.
use micro_erp_saas.Prelude.{ℕ, ◌≡◌, inl, inr, some, arith, Option-cases, find_where}
use micro_erp_saas.Entities.{Transaction}
use micro_erp_saas.Store.{Db, Request, ok, Tx, has_key, run_tx, pure, is_customer}
use micro_erp_saas.Store.Commit.{Result-cases}
use micro_erp_saas.Transactions.Dto.{CreateTransactionDto, CreatePaymentDto}
use micro_erp_saas.Transactions.Entry.{unless_known}
use micro_erp_saas.Transactions.Charges.{new_debt, register_debt, new_payment, register_payment}

-- The row that a request with the key is answered with.
abbrev pub IsAnswer : ℕ → ℕ → Db → Transaction → Type 0
IsAnswer tenant key db t = find_where (has_key tenant key) db.transactions ≡ some t

-- A method whose new rows carry its key has stored the row that it answers with under the key.
pub unless_known-IsAnswer :
    (tenant key : ℕ) (rest : Tx Transaction) (db db' : Db) (t : Transaction)
    → (rest db ≡ ok (t, db') → IsAnswer tenant key db' t)
    → run_tx (unless_known tenant key pure rest) db ≡ (ok t, db')
    → IsAnswer tenant key db' t
unless_known-IsAnswer tenant key rest db db' t recorded h =
    elim (Option-cases (find_where (has_key tenant key) db.transactions)) [
      | inr (old, found) ↦ ground arith
      | inl fresh ↦ elim (Result-cases (rest db)) [
        | inr (e, failed) ↦ absurd (ground arith)
        | inl ((t', db1), ran) ↦ recorded (ground arith)
      ]
    ]

-- A stored row answers for its key.
pub unless_known-known :
    (tenant key : ℕ) (rest : Tx Transaction) (db : Db) (t : Transaction)
    → IsAnswer tenant key db t
    → run_tx (unless_known tenant key pure rest) db ≡ (ok t, db)
unless_known-known tenant key rest db t found = ground arith

module _ (req : Request) (tenant user : ℕ) (db db' : Db) (t : Transaction) where
  pub register_debt-IsAnswer :
      (dto : CreateTransactionDto)
      → register_debt req tenant user dto db ≡ (ok t, db')
      → IsAnswer tenant dto.idempotency_key db' t
  unfolding register_debt new_debt
  register_debt-IsAnswer dto h =
      unless_known-IsAnswer tenant dto.idempotency_key (new_debt req tenant user dto) db db' t
        (λ ran. elim (Option-cases (find_where (is_customer tenant dto.customer_id) db.customers)) [
          | inl absent ↦ absurd (ground arith)
          | inr (c, found) ↦ ground arith
        ])
        h

  pub register_payment-IsAnswer :
      (dto : CreatePaymentDto)
      → register_payment req tenant user dto db ≡ (ok t, db')
      → IsAnswer tenant dto.idempotency_key db' t
  unfolding register_payment new_payment
  register_payment-IsAnswer dto h =
      unless_known-IsAnswer tenant dto.idempotency_key (new_payment req tenant user dto) db db' t
        (λ ran. elim (Option-cases (find_where (is_customer tenant dto.customer_id) db.customers)) [
          | inl absent ↦ absurd (ground arith)
          | inr (c, found) ↦ ground arith
        ])
        h
