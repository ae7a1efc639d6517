-- ===== src/Transactions/Sound.antt =====
-- The invariant of the books under the methods that charge one customer.
use micro_erp_saas.Prelude.{ℕ, ◌≡◌, true, inl, inr, arith, Option-cases, find_where, Bool-cases}
use micro_erp_saas.Prelude.Int.{◌+ℤ◌, eqb_ℤ, eqb_ℤ→eq}
use micro_erp_saas.Entities.{Transaction}
use micro_erp_saas.Number.{Number, IsIeee}
use micro_erp_saas.Store.{Db, Request, ok, Tx, has_key, run_tx}
use micro_erp_saas.Store.Commit.{run_tx_ind}
use micro_erp_saas.Ledger.Account.{IsSound}
use micro_erp_saas.Ledger.Posting.{Posting-IsSound}
use micro_erp_saas.Transactions.Dto.{
  CreateTransactionDto, CreatePaymentDto, CreateMixedPaymentDto, ForgiveDebtDto, is_amount,
}
use micro_erp_saas.Transactions.Entry.{unless_known}
use micro_erp_saas.Transactions.Charges.{register_debt, register_payment, forgive_debt}
use micro_erp_saas.Transactions.Charges.Posts.{
  new_debt-Posting, new_payment-Posting, new_forgiveness-Posting,
}
use micro_erp_saas.Transactions.Mixed.{register_mixed_payment}
use micro_erp_saas.Transactions.Mixed.Split.{IsMixedPayment, new_mixed_payment-Posting}

-- A known key answers without a change; otherwise the rest of the method has to keep the property.
pub unless_known_ind :
    {A : Type 0} (P : Db → Type 0) (tenant key : ℕ) (known : Transaction → Tx A) (rest : Tx A)
    (db : Db)
    → ((t : Transaction) (a : A) (db' : Db) → known t db ≡ ok (a, db') → db' ≡ db)
    → P db
    → ((a : A) (db' : Db) → rest db ≡ ok (a, db') → P db')
    → P (run_tx (unless_known tenant key known rest) db).1
unless_known_ind P tenant key known rest db same start keep =
    run_tx_ind P (unless_known tenant key known rest) db start λ a db' e.
      elim (Option-cases (find_where (has_key tenant key) db.transactions)) [
        | inl fresh ↦ keep a db' (ground arith)
        | inr (t, found) ↦ rw (same t a db' (ground arith)) start
      ]

module _ (req : Request) (tenant user : ℕ) (db : Db) (s : IsSound db) where
  -- `registerDebt` keeps the books sound for an amount in the bounds of the decorators.
  pub register_debt-IsSound :
      (dto : CreateTransactionDto)
      → is_amount dto.amount_cents ≡ true
      → IsSound (register_debt req tenant user dto db).1
  unfolding register_debt
  register_debt-IsSound dto amount =
      unless_known_ind IsSound tenant _ _ _ db (λ t a db' e. ground arith) s
        λ t db' e.
          Posting-IsSound (new_debt-Posting req tenant user db dto t db' amount s.solvent e) s

  -- `registerPayment` keeps the books sound.
  pub register_payment-IsSound :
      (dto : CreatePaymentDto) → IsSound (register_payment req tenant user dto db).1
  unfolding register_payment
  register_payment-IsSound dto =
      unless_known_ind IsSound tenant _ _ _ db (λ t a db' e. ground arith) s
        λ t db' e. Posting-IsSound (new_payment-Posting req tenant user db dto t db' e) s

  -- `forgiveDebt` keeps the books sound.
  pub forgive_debt-IsSound :
      (dto : ForgiveDebtDto) → IsSound (forgive_debt req tenant user dto db).1
  unfolding forgive_debt
  forgive_debt-IsSound dto =
      unless_known_ind IsSound tenant _ _ _ db (λ t a db' e. ground arith) s
        λ t db' e. Posting-IsSound (new_forgiveness-Posting req tenant user db dto t db' e) s

  -- `registerMixedPayment` keeps the books sound for amounts in the bounds of the decorators, if
  -- the arithmetic of the proration has the laws of IEEE 754.
  pub register_mixed_payment-IsSound :
      (n : Number) (ieee : IsIeee n) (dto : CreateMixedPaymentDto)
      → is_amount dto.cash_amount_cents ≡ true
      → is_amount dto.transfer_amount_cents ≡ true
      → is_amount dto.total_amount_cents ≡ true
      → IsSound (register_mixed_payment n req tenant user dto db).1
  unfolding register_mixed_payment
  register_mixed_payment-IsSound n ieee dto c t a =
      let sum = dto.cash_amount_cents +ℤ dto.transfer_amount_cents in
      elim (Bool-cases (eqb_ℤ sum dto.total_amount_cents)) [
        | inr off ↦ rw off s
        | inl adds_up ↦
            let m : IsMixedPayment dto = record {
              cash_amount = c;
              transfer_amount = t;
              total_amount = a;
              adds_up = eqb_ℤ→eq sum dto.total_amount_cents adds_up;
            } in
            rw adds_up (
              unless_known_ind IsSound tenant _ _ _ db (λ t a db' e. ground arith) s
                λ t db' e.
                  Posting-IsSound
                    (new_mixed_payment-Posting n ieee req tenant user db dto t db' m e) s)
      ]
