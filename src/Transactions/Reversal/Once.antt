-- ===== src/Transactions/Reversal/Once.antt =====
-- A transaction is reversed at most once by calls that run one after the other. The check reads the
-- original before the customer is locked, so two calls that overlap can both pass it.
use micro_erp_saas.Prelude.{
  Option-cases, any_where, false, ℕ, ◌≡◌, none, inl, inr, some, List, [], ◌∷◌, arith, find_where,
  find_where-test, any_where-find_where,
}
use micro_erp_saas.Entities.{Customer, Transaction}
use micro_erp_saas.Store.{
  Db, Request, ok, err, already_reversed, has_key, is_customer, is_transaction, put_customer,
  put_transaction, clashes,
}
use micro_erp_saas.Store.Commit.{Result-cases}
use micro_erp_saas.Transactions.Dto.{ReverseTransactionDto}
use micro_erp_saas.Transactions.Outcome.{find_where-put_customer}
use micro_erp_saas.Transactions.Replay.{IsAnswer, unless_known-IsAnswer}
use micro_erp_saas.Transactions.Reversal.{
  find_reversible, reversed_balance, post_reversal, new_reversal, reverse_transaction,
}
use micro_erp_saas.Transactions.Reversal.Books.{marked, Reversing, new_reversal-Reversing}

-- A row that was stored is found with the row that replaced it, whatever new row stands before it.
find_where-put_transaction :
    (tenant id : ℕ) (o : Transaction) (ts : List Transaction)
    → find_where (is_transaction tenant id) ts ≡ some o
    → find_where (is_transaction tenant id) (put_transaction (marked o) ts) ≡ some (marked o)
find_where-put_transaction tenant id o [] h = absurd (ground arith)
find_where-put_transaction tenant id o (x ∷ xs) h =
    let owner = find_where-test (is_transaction tenant id) (x ∷ xs) o h in
    ground (arith, find_where-put_transaction tenant id o xs)

module _ {tenant : ℕ} {o : Transaction} {db db' : Db} (r : Reversing tenant o db db') where
  pub Reversing-marked : find_where (is_transaction tenant o.id) db'.transactions ≡ some (marked o)
  Reversing-marked =
      let apart =
        any_where-find_where (clashes r.row) (is_transaction tenant o.id) db.transactions o r.fresh
          r.stored in
      let owner = find_where-test (is_transaction tenant o.id) db.transactions o r.stored in
      let behind : find_where (is_transaction tenant o.id) (r.row ∷ db.transactions) ≡ some o =
        ground (arith, r.stored) in
      rw r.written (find_where-put_transaction tenant o.id o (r.row ∷ db.transactions) behind)

  pub Reversing-balance :
      find_where (is_customer tenant o.customer_id) db'.customers
      ≡ some (record r.customer {
        balance_cents = reversed_balance o.type o.amount_cents r.customer.balance_cents;
      })
  Reversing-balance =
      rw r.saved (find_where-put_customer tenant o.customer_id r.customer _ db.customers r.found)

module _ (req req' : Request) (tenant user user' : ℕ) (db db' : Db) (t : Transaction) where
  -- After a transaction was reversed under a key that was not processed before, another reversal
  -- of it under a new key is refused as already reversed and leaves the database as it is.
  pub reverse_transaction-once :
      (dto dto' : ReverseTransactionDto) (id : ℕ)
      → find_where (has_key tenant dto.idempotency_key) db.transactions ≡ none
      → reverse_transaction req tenant user dto id db ≡ (ok t, db')
      → find_where (has_key tenant dto'.idempotency_key) db'.transactions ≡ none
      → reverse_transaction req' tenant user' dto' id db' ≡ (err already_reversed, db')
  unfolding reverse_transaction new_reversal find_reversible
  reverse_transaction-once dto dto' id fresh h later =
      elim (Result-cases (new_reversal req tenant user dto id db)) [
        | inr (e, failed) ↦ absurd (ground arith)
        | inl ((t', db1), ran) ↦
            let done : db1 ≡ db' = ground arith in
            let (o, stored, r) = new_reversal-Reversing req tenant user dto db id t' db1 ran in
            let at = find_where-test (is_transaction tenant id) db.transactions o stored in
            let same : o.id ≡ id = ground arith in
            let seen : find_where (is_transaction tenant id) db'.transactions ≡ some (marked o) =
              rw (← done, ← same) (Reversing-marked r) in
            ground arith
      ]

-- If two reversals have both read the same original as not reversed before either of them writes,
-- and the writes of both succeed one after the other, the customer's stored balance has been
-- adjusted for the original twice.
pub post_reversal_twice :
    (req req' : Request) (tenant user user' id : ℕ) (dto dto' : ReverseTransactionDto)
    (db db1 db2 : Db) (o t t' : Transaction) (c : Customer)
    → find_reversible tenant id db ≡ ok (o, db)
    → find_where (is_customer tenant o.customer_id) db.customers ≡ some c
    → post_reversal req tenant user dto o db ≡ ok (t, db1)
    → post_reversal req' tenant user' dto' o db1 ≡ ok (t', db2)
    → find_where (is_customer tenant o.customer_id) db2.customers
      ≡ some (record c {
        balance_cents =
            reversed_balance o.type o.amount_cents
              (reversed_balance o.type o.amount_cents c.balance_cents);
      })
unfolding find_reversible post_reversal
post_reversal_twice req req' tenant user user' id dto dto' db db1 db2 o t t' c read found h h' =
    let first : db1.customers
        ≡ put_customer
            (record c { balance_cents = reversed_balance o.type o.amount_cents c.balance_cents })
            db.customers =
      ground arith in
    let mid : find_where (is_customer tenant o.customer_id) db1.customers
        ≡ some
            (record c { balance_cents = reversed_balance o.type o.amount_cents c.balance_cents }) =
      rw first (find_where-put_customer tenant o.customer_id c _ db.customers found) in
    let second : db2.customers
        ≡ put_customer
            (record c {
              balance_cents =
                  reversed_balance o.type o.amount_cents
                    (reversed_balance o.type o.amount_cents c.balance_cents);
            })
            db1.customers =
      ground arith in
    rw second (
      find_where-put_customer tenant o.customer_id
        (record c { balance_cents = reversed_balance o.type o.amount_cents c.balance_cents }) _
        db1.customers mid)

-- The row of a reversal has the key of the request and stands before the original.
new_reversal-answer :
    (req : Request) (tenant user id : ℕ) (dto : ReverseTransactionDto) (db db' : Db)
    (t : Transaction)
    → new_reversal req tenant user dto id db ≡ ok (t, db')
    → find_where (has_key tenant dto.idempotency_key) db'.transactions ≡ some t
unfolding new_reversal find_reversible post_reversal
new_reversal-answer req tenant user id dto db db' t ran =
    elim (Option-cases (find_where (is_transaction tenant id) db.transactions)) [
      | inl absent ↦ absurd (ground arith)
      | inr (o, stored) ↦
          elim (Option-cases (find_where (is_customer tenant o.customer_id) db.customers)) [
            | inl absent ↦ absurd (ground arith)
            | inr (c, found) ↦
                let at = find_where-test (is_transaction tenant id) db.transactions o stored in
                let fresh : any_where (clashes t) db.transactions ≡ false = ground arith in
                let apart =
                  any_where-find_where (clashes t) (is_transaction tenant id) db.transactions o
                    fresh stored in
                let rows : db'.transactions ≡ put_transaction (marked o) (t ∷ db.transactions) =
                  ground arith in
                let owner : t.tenant_id ≡ tenant = ground arith in
                let key : t.idempotency_key ≡ dto.idempotency_key = ground arith in
                rw rows (ground (arith, apart, owner, key))
          ]
    ]

pub reverse_transaction-IsAnswer :
    (req : Request) (tenant user id : ℕ) (dto : ReverseTransactionDto) (db db' : Db)
    (t : Transaction)
    → reverse_transaction req tenant user dto id db ≡ (ok t, db')
    → IsAnswer tenant dto.idempotency_key db' t
unfolding reverse_transaction
reverse_transaction-IsAnswer req tenant user id dto db db' t h =
    unless_known-IsAnswer tenant dto.idempotency_key (new_reversal req tenant user dto id) db db' t
      (new_reversal-answer req tenant user id dto db db' t) h
