-- ===== src/Transactions/Charges/Posts.antt =====
-- A successful charge is a posting: of the debt, of the payment up to what is owed, of the whole
-- balance for a forgiveness.
use micro_erp_saas.Prelude.{
  ℕ, ◌≡◌, inl, inr, true, [], ◌∷◌, arith, Option-cases, find_where, find_where-test, find_where-All,
}
use micro_erp_saas.Prelude.Int.{pos, ◌+ℤ◌, ◌-ℤ◌, ◌≤ℤ◌, min_ℤ, +ℤ_parts, -ℤ_parts, int_laws}
use micro_erp_saas.Entities.{Transaction}
use micro_erp_saas.Store.{Db, Request, ok, is_customer}
use micro_erp_saas.Ledger.Account.{IsDebtor, IsSolvent}
use micro_erp_saas.Ledger.Posting.{Posting}
use micro_erp_saas.Transactions.Dto.{
  CreateTransactionDto, CreatePaymentDto, ForgiveDebtDto, is_amount,
}
use micro_erp_saas.Transactions.Charges.{new_debt, new_payment, new_forgiveness}

module _ (req : Request) (tenant user : ℕ) (db : Db) where
  pub new_debt-Posting :
      (dto : CreateTransactionDto) (t : Transaction) (db' : Db)
      → is_amount dto.amount_cents ≡ true
      → IsSolvent db
      → new_debt req tenant user dto db ≡ ok (t, db')
      → Posting tenant db db'
  unfolding new_debt
  new_debt-Posting dto t db' amount solvent h =
      elim (Option-cases (find_where (is_customer tenant dto.customer_id) db.customers)) [
        | inl absent ↦ absurd (ground arith)
        | inr (c, found) ↦
            let owner = find_where-test (is_customer tenant dto.customer_id) db.customers c found in
            let debtor : pos 0 ≤ℤ c.balance_cents =
              find_where-All (is_customer tenant dto.customer_id) IsDebtor db.customers c solvent
                found in
            record {
              old = c;
              balance = c.balance_cents +ℤ dto.amount_cents;
              entries = t ∷ [];
              found = ground arith;
              saved = ground arith;
              appended = ground arith;
              owned = ground arith;
              moved = grind int_laws;
              nonneg = ground (arith, +ℤ_parts c.balance_cents dto.amount_cents);
              keyed = λ k. ground (arith, k);
              tills = (ground arith, ground arith);
            }
      ]

  pub new_payment-Posting :
      (dto : CreatePaymentDto) (t : Transaction) (db' : Db)
      → new_payment req tenant user dto db ≡ ok (t, db')
      → Posting tenant db db'
  unfolding new_payment
  new_payment-Posting dto t db' h =
      elim (Option-cases (find_where (is_customer tenant dto.customer_id) db.customers)) [
        | inl absent ↦ absurd (ground arith)
        | inr (c, found) ↦
            let owner = find_where-test (is_customer tenant dto.customer_id) db.customers c found in
            let paid = min_ℤ dto.amount_cents c.balance_cents in
            record {
              old = c;
              balance = c.balance_cents -ℤ min_ℤ dto.amount_cents c.balance_cents;
              entries = t ∷ [];
              found = ground arith;
              saved = ground arith;
              appended = ground arith;
              owned = ground arith;
              moved = grind int_laws;
              nonneg = ground (arith, -ℤ_parts c.balance_cents paid);
              keyed = λ k. ground (arith, k);
              tills = (ground arith, ground arith);
            }
      ]

  pub new_forgiveness-Posting :
      (dto : ForgiveDebtDto) (t : Transaction) (db' : Db)
      → new_forgiveness req tenant user dto db ≡ ok (t, db')
      → Posting tenant db db'
  unfolding new_forgiveness
  new_forgiveness-Posting dto t db' h =
      elim (Option-cases (find_where (is_customer tenant dto.customer_id) db.customers)) [
        | inl absent ↦ absurd (ground arith)
        | inr (c, found) ↦
            let owner = find_where-test (is_customer tenant dto.customer_id) db.customers c found in
            record {
              old = c;
              balance = pos 0;
              entries = t ∷ [];
              found = ground arith;
              saved = ground arith;
              appended = ground arith;
              owned = ground arith;
              moved = grind int_laws;
              nonneg = omega arith;
              keyed = λ k. ground (arith, k);
              tills = (ground arith, ground arith);
            }
      ]
