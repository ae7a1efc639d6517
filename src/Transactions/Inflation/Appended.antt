-- ===== src/Transactions/Inflation/Appended.antt =====
-- The rows that an inflation adjustment writes stand before those that were stored.
use micro_erp_saas.Prelude.{
  ℕ, ◌≡◌, refl, sym, ap, ◌∙◌, List, [], ◌∷◌, ◌++◌, inl, inr, ◌==◌, arith, Bool-cases, select_where,
}
use micro_erp_saas.Prelude.Int.{ℤ, pos, leb_ℤ}
use micro_erp_saas.Entities.{Customer, Transaction}
use micro_erp_saas.Number.{Number}
use micro_erp_saas.Store.{Db, Request, ok}
use micro_erp_saas.Store.Commit.{Result-cases}
use micro_erp_saas.Transactions.Inflation.{
  adjustment_cents, adjustment_entry, write_adjustment, adjust_customer, adjust_all, is_debtor,
  lock_customers, new_batch, BatchResult,
}

pub record Appended (db db' : Db) : Type 0 where
  pub entries : List Transaction
  pub rows : db'.transactions ≡ entries ++ db.transactions

Appended-trans : (db db1 db2 : Db) → Appended db db1 → Appended db1 db2 → Appended db db2
Appended-trans db db1 db2 a b = record {
  entries = b.entries ++ a.entries;
  rows = b.rows ∙ ap (λ ts. b.entries ++ ts) a.rows ∙ sym (assoc b.entries a.entries);
}
  where
    assoc :
        (es fs : List Transaction) → (es ++ fs) ++ db.transactions ≡ es ++ (fs ++ db.transactions)
    assoc [] fs = refl
    assoc (e ∷ es) fs = ap (λ r. e ∷ r) (assoc es fs)

module _ (n : Number) (req : Request) (tenant user : ℕ) (percentage : n.Double) where
  adjust_customer-Appended :
      (acc acc' : ℕ × ℤ) (c : Customer) (db db' : Db)
      → adjust_customer n req tenant user percentage acc c db ≡ ok (acc', db')
      → Appended db db'
  unfolding adjust_customer write_adjustment
  adjust_customer-Appended acc acc' c db db' h =
      let amount = adjustment_cents n percentage c.balance_cents in
      elim (Bool-cases (leb_ℤ amount (pos 0))) [
        | inl nothing ↦ record { entries = []; rows = ground arith }
        | inr more ↦ record {
          entries = adjustment_entry n req tenant user percentage acc.0 c amount ∷ [];
          rows = ground arith;
        }
      ]

  adjust_all-Appended :
      (rest : List Customer) (acc acc' : ℕ × ℤ) (db db' : Db)
      → adjust_all n req tenant user percentage acc rest db ≡ ok (acc', db')
      → Appended db db'
  unfolding adjust_all
  adjust_all-Appended [] acc acc' db db' h = record { entries = []; rows = ground arith }
  adjust_all-Appended (c ∷ rest) acc acc' db db' h =
      elim (Result-cases (adjust_customer n req tenant user percentage acc c db)) [
        | inr (e, failed) ↦ absurd (ground arith)
        | inl ((acc1, db1), first) ↦
            Appended-trans db db1 db' (adjust_customer-Appended acc acc1 c db db1 first)
              (adjust_all-Appended rest acc1 acc' db1 db' (ground arith))
      ]

  pub new_batch-Appended :
      (key : ℕ) (result : BatchResult) (db db' : Db)
      → new_batch n req tenant user percentage key db ≡ ok (result, db')
      → Appended db db'
  unfolding new_batch lock_customers
  new_batch-Appended key result db db' h =
      let mine = select_where (λ c. c.tenant_id == tenant) db.customers in
      let debtors = select_where is_debtor mine in
      elim (Result-cases (adjust_all n req tenant user percentage (0, pos 0) debtors db)) [
        | inr (e, failed) ↦ absurd (ground arith)
        | inl ((sums, db1), ran) ↦
            let all = adjust_all-Appended debtors (0, pos 0) sums db db1 ran in
            let rows : db'.transactions ≡ db1.transactions = ground arith in
            record { entries = all.entries; rows = rows ∙ all.rows }
      ]
