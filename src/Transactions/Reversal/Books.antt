-- ===== src/Transactions/Reversal/Books.antt =====
-- What a reversal does to the books: the balance loses the effect of the original, and the original
-- no longer counts in the sum.
use micro_erp_saas.Prelude.{
  ℕ, ◌≡◌, true, false, inl, inr, some, ◌∷◌, arith, Option-cases, any_where, find_where,
  find_where-test,
}
use micro_erp_saas.Entities.{reversal, Customer, Transaction}
use micro_erp_saas.Store.{
  Db, Request, ok, clashes, is_customer, is_transaction, put_customer, put_transaction,
}
use micro_erp_saas.Ledger.Account.{SameTills}
use micro_erp_saas.Transactions.Dto.{ReverseTransactionDto}
use micro_erp_saas.Transactions.Reversal.{
  find_reversible, reversed_balance, post_reversal, new_reversal,
}

abbrev pub marked : Transaction → Transaction
marked o = record o { is_reversed = true }

-- A successful reversal: the original, its customer, and the row that was added.
pub record Reversing (tenant : ℕ) (original : Transaction) (db db' : Db) : Type 0 where
  pub customer : Customer
  pub row : Transaction
  pub stored : find_where (is_transaction tenant original.id) db.transactions ≡ some original
  pub unreversed : original.is_reversed ≡ false
  pub found : find_where (is_customer tenant original.customer_id) db.customers ≡ some customer
  pub fresh : any_where (clashes row) db.transactions ≡ false
  pub row_type : row.type ≡ reversal
  pub row_owner : row.tenant_id ≡ tenant
  pub tills : SameTills db db'
  pub saved :
      db'.customers
      ≡ put_customer
          (record customer {
            balance_cents =
                reversed_balance original.type original.amount_cents customer.balance_cents;
          })
          db.customers
  pub written : db'.transactions ≡ put_transaction (marked original) (row ∷ db.transactions)

module _ (req : Request) (tenant user : ℕ) (dto : ReverseTransactionDto) (db : Db) where
  pub post_reversal-Reversing :
      (original t : Transaction) (db' : Db)
      → find_where (is_transaction tenant original.id) db.transactions ≡ some original
      → original.is_reversed ≡ false
      → post_reversal req tenant user dto original db ≡ ok (t, db')
      → Reversing tenant original db db'
  unfolding post_reversal
  post_reversal-Reversing o t db' stored unreversed h =
      elim (Option-cases (find_where (is_customer tenant o.customer_id) db.customers)) [
        | inl absent ↦ absurd (ground arith)
        | inr (c, found) ↦ record {
          customer = c;
          row = t;
          stored = stored;
          unreversed = unreversed;
          found = found;
          fresh = ground arith;
          row_type = ground arith;
          row_owner = ground arith;
          tills = (ground arith, ground arith);
          saved = ground arith;
          written = ground arith;
        }
      ]

  pub new_reversal-Reversing :
      (id : ℕ) (t : Transaction) (db' : Db)
      → new_reversal req tenant user dto id db ≡ ok (t, db')
      → (o : Transaction) × (find_where (is_transaction tenant id) db.transactions ≡ some o)
        × Reversing tenant o db db'
  unfolding new_reversal find_reversible
  new_reversal-Reversing id t db' h =
      elim (Option-cases (find_where (is_transaction tenant id) db.transactions)) [
        | inl absent ↦ absurd (ground arith)
        | inr (o, stored) ↦
            let owner = find_where-test (is_transaction tenant id) db.transactions o stored in
            (
              o,
              stored,
              post_reversal-Reversing o t db' (ground arith) (ground arith) (ground arith),
            )
      ]
