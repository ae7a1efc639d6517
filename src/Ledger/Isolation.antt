-- ===== src/Ledger/Isolation.antt =====
-- Isolation of tenants: what a change on behalf of one tenant leaves of the rows of another.
use micro_erp_saas.Prelude.{
  ℕ, ◌≡◌, refl, ◌∙◌, false, Bool-cases, inl, inr, some, List, [], ◌∷◌, ◌++◌, ◌==◌, arith, All,
  find_where, find_where-test, select_where, update_where-none, any_where-narrow,
}
use micro_erp_saas.Entities.{Customer, Transaction}
use micro_erp_saas.Store.{Db, clashes, is_customer, is_transaction, put_customer, put_transaction}
use micro_erp_saas.Ledger.Account.{IsDistinct, IsKeyed}
use micro_erp_saas.Ledger.Table.{distinct-head}
use micro_erp_saas.Ledger.Marking.{keyed-head}
use micro_erp_saas.Ledger.Posting.{Posting, posting_owner, IsOwned}

abbrev pub customers_of : ℕ → List Customer → List Customer
customers_of tenant = select_where (λ c. c.tenant_id == tenant)

abbrev pub transactions_of : ℕ → List Transaction → List Transaction
transactions_of tenant = select_where (λ t. t.tenant_id == tenant)

-- The customers and the transactions of a tenant are the same, in the same order.
pub record IsKept (tenant : ℕ) (db db' : Db) : Type 0 where
  pub customers : customers_of tenant db'.customers ≡ customers_of tenant db.customers
  pub transactions :
      transactions_of tenant db'.transactions ≡ transactions_of tenant db.transactions

-- The rows of every tenant but one are the same.
abbrev pub IsApart : ℕ → Db → Db → Type 0
IsApart tenant db db' = (other : ℕ) → (tenant == other) ≡ false → IsKept other db db'

pub IsKept-trans :
    (tenant : ℕ) (db db1 db2 : Db)
    → IsKept tenant db db1
    → IsKept tenant db1 db2
    → IsKept tenant db db2
IsKept-trans tenant db db1 db2 k l = record {
  customers = l.customers ∙ k.customers;
  transactions = l.transactions ∙ k.transactions;
}

module _ (tenant other : ℕ) (apart : (tenant == other) ≡ false) where
  -- A saved customer of the tenant is no row of the other.
  pub customers_of-put_customer :
      (old new : Customer) (cs : List Customer)
      → new.id ≡ old.id
      → new.tenant_id ≡ tenant
      → IsDistinct cs
      → find_where (is_customer tenant old.id) cs ≡ some old
      → customers_of other (put_customer new cs) ≡ customers_of other cs
  customers_of-put_customer old new [] same own d found = refl
  customers_of-put_customer old new (c ∷ cs) same own d found = elim (Bool-cases (c.id == old.id)) [
    | inl hit ↦
        let head = distinct-head tenant old c cs d found hit in
        let at = find_where-test (is_customer tenant old.id) (c ∷ cs) old found in
        let rest : put_customer new cs ≡ cs =
          update_where-none (λ r. r.id == new.id) (λ _. new) cs (ground (arith, head, d.0)) in
        ground (arith, rest, head, at)
    | inr miss ↦
        let later : find_where (is_customer tenant old.id) cs ≡ some old = ground arith in
        ground (arith, miss, customers_of-put_customer old new cs same own d.1 later)
  ]

  pub transactions_of-put_transaction :
      (old new : Transaction) (ts : List Transaction)
      → new.id ≡ old.id
      → new.tenant_id ≡ tenant
      → IsKeyed ts
      → find_where (is_transaction tenant old.id) ts ≡ some old
      → transactions_of other (put_transaction new ts) ≡ transactions_of other ts
  transactions_of-put_transaction old new [] same own k found = refl
  transactions_of-put_transaction old new (t ∷ ts) same own k found =
      elim (Bool-cases (t.id == old.id)) [
        | inl hit ↦
            let head =
              keyed-head tenant old old (record { id = refl; tenant = refl; key = refl }) t ts k
                found hit in
            let at = find_where-test (is_transaction tenant old.id) (t ∷ ts) old found in
            let alone =
              any_where-narrow (λ r. r.id == new.id) (clashes t) ts (λ r e. ground (arith, head))
                k.0 in
            let rest : put_transaction new ts ≡ ts =
              update_where-none (λ r. r.id == new.id) (λ _. new) ts alone in
            ground (arith, rest, head, at)
        | inr miss ↦
            let later : find_where (is_transaction tenant old.id) ts ≡ some old = ground arith in
            ground (arith, miss, transactions_of-put_transaction old new ts same own k.1 later)
      ]

  pub transactions_of-append :
      (customer : ℕ) (entries ts : List Transaction)
      → All (IsOwned tenant customer) entries
      → transactions_of other (entries ++ ts) ≡ transactions_of other ts
  transactions_of-append customer [] ts h = refl
  transactions_of-append customer (e ∷ es) ts h =
      ground (arith, transactions_of-append customer es ts h.1)

  pub Posting-IsKept :
      {db db' : Db} → Posting tenant db db' → IsDistinct db.customers → IsKept other db db'
  Posting-IsKept {db} {db'} p d = record {
    customers = rw p.saved (
        customers_of-put_customer p.old (record p.old { balance_cents = p.balance }) db.customers
          refl (posting_owner p) d p.found);
    transactions =
        rw p.appended (transactions_of-append p.old.id p.entries db.transactions p.owned);
  }
