-- ===== src/Transactions/Outcome.antt =====
-- What a charge that succeeds has checked, and the balance that it leaves.
use micro_erp_saas.Prelude.{
  ℕ, ◌≡◌, refl, true, false, ◌&&◌, if◌then◌else◌, any_where, none, inl, inr, some, List, [], ◌∷◌,
  ◌==◌, arith, Option-cases, Bool-cases, find_where, find_where-test,
}
use micro_erp_saas.Prelude.Int.{ℤ, pos, ◌+ℤ◌, ◌-ℤ◌, ◌≤ℤ◌, min_ℤ, leb_ℤ, +ℤ_parts}
use micro_erp_saas.Entities.{Customer, Transaction, debt}
use micro_erp_saas.Store.{
  Db, Request, ok, err, has_key, has_tenant, has_user, clashes, fits_int4, is_customer,
  put_customer, customer_blocked, limit_exceeded,
}
use micro_erp_saas.Transactions.Entry.{new_transaction}
use micro_erp_saas.Transactions.Dto.{CreateTransactionDto, CreatePaymentDto, is_amount}
use micro_erp_saas.Transactions.Charges.{new_debt, register_debt, new_payment, register_payment}

-- A customer whose row is saved is found with the saved row.
pub find_where-put_customer :
    (tenant id : ℕ) (c : Customer) (balance : ℤ) (cs : List Customer)
    → find_where (is_customer tenant id) cs ≡ some c
    → find_where (is_customer tenant id) (put_customer (record c { balance_cents = balance }) cs)
      ≡ some (record c { balance_cents = balance })
find_where-put_customer tenant id c balance [] h = absurd (ground arith)
find_where-put_customer tenant id c balance (x ∷ xs) h =
    let owner = find_where-test (is_customer tenant id) (x ∷ xs) c h in
    ground (arith, find_where-put_customer tenant id c balance xs)

-- A debt that was accepted: the customer was active, the new balance is within the limit and is the
-- one that is saved, and the row is the only new one.
pub record IsAccepted (tenant : ℕ) (dto : CreateTransactionDto) (db db' : Db) (t : Transaction)
    : Type 0 where
  pub customer : Customer
  pub found : find_where (is_customer tenant dto.customer_id) db.customers ≡ some customer
  pub unblocked : customer.is_active ≡ true
  pub within_limit : customer.balance_cents +ℤ dto.amount_cents ≤ℤ customer.credit_limit_cents
  pub amount : t.amount_cents ≡ dto.amount_cents
  pub saved :
      find_where (is_customer tenant dto.customer_id) db'.customers
      ≡ some (record customer { balance_cents = customer.balance_cents +ℤ dto.amount_cents })
  pub appended : db'.transactions ≡ t ∷ db.transactions

-- A payment that was collected: a positive amount, at most what was offered and what was owed, which
-- the saved balance is less by.
pub record IsCollected (tenant : ℕ) (dto : CreatePaymentDto) (db db' : Db) (t : Transaction)
    : Type 0 where
  pub customer : Customer
  pub found : find_where (is_customer tenant dto.customer_id) db.customers ≡ some customer
  pub positive : pos 1 ≤ℤ t.amount_cents
  pub up_to_debt : t.amount_cents ≡ min_ℤ dto.amount_cents customer.balance_cents
  pub saved :
      find_where (is_customer tenant dto.customer_id) db'.customers
      ≡ some (record customer { balance_cents = customer.balance_cents -ℤ t.amount_cents })
  pub appended : db'.transactions ≡ t ∷ db.transactions

module _ (req : Request) (tenant user : ℕ) (db db' : Db) (t : Transaction) where
  -- A debt that `registerDebt` accepts under a key that was not processed before is on a customer
  -- of the tenant who is active, keeps the balance within the credit limit, is added to that
  -- customer's stored balance, and is the only new transaction.
  pub register_debt-IsAccepted :
      (dto : CreateTransactionDto)
      → find_where (has_key tenant dto.idempotency_key) db.transactions ≡ none
      → register_debt req tenant user dto db ≡ (ok t, db')
      → IsAccepted tenant dto db db' t
  unfolding register_debt new_debt
  register_debt-IsAccepted dto fresh h =
      elim (Option-cases (find_where (is_customer tenant dto.customer_id) db.customers)) [
        | inl absent ↦ absurd (ground arith)
        | inr (c, found) ↦
            let balance = c.balance_cents +ℤ dto.amount_cents in
            let put = find_where-put_customer tenant dto.customer_id c balance db.customers found in
            let rows : db'.customers
                ≡ put_customer (record c { balance_cents = balance }) db.customers =
              ground arith in
            record {
              customer = c;
              found = found;
              unblocked = ground arith;
              within_limit = ground arith;
              amount = ground arith;
              saved = rw rows put;
              appended = ground arith;
            }
      ]

  -- A payment that `registerPayment` accepts under a key that was not processed before is
  -- positive, is the lesser of the offered amount and what the customer owes, is taken off that
  -- customer's stored balance, and is the only new transaction.
  pub register_payment-IsCollected :
      (dto : CreatePaymentDto)
      → find_where (has_key tenant dto.idempotency_key) db.transactions ≡ none
      → register_payment req tenant user dto db ≡ (ok t, db')
      → IsCollected tenant dto db db' t
  unfolding register_payment new_payment
  register_payment-IsCollected dto fresh h =
      elim (Option-cases (find_where (is_customer tenant dto.customer_id) db.customers)) [
        | inl absent ↦ absurd (ground arith)
        | inr (c, found) ↦
            let balance = c.balance_cents -ℤ t.amount_cents in
            let paid : t.amount_cents ≡ min_ℤ dto.amount_cents c.balance_cents = ground arith in
            let put = find_where-put_customer tenant dto.customer_id c balance db.customers found in
            let rows : db'.customers
                ≡ put_customer (record c { balance_cents = balance }) db.customers =
              ground arith in
            record {
              customer = c;
              found = found;
              positive = ground arith;
              up_to_debt = paid;
              saved = rw rows put;
              appended = ground arith;
            }
      ]

-- A row with a new identifier and a new key clashes with none.
not_clashing :
    (t : Transaction) (ts : List Transaction)
    → any_where (λ r. r.id == t.id) ts ≡ false
    → find_where (has_key t.tenant_id t.idempotency_key) ts ≡ none
    → any_where (clashes t) ts ≡ false
not_clashing t [] h k = refl
not_clashing t (r ∷ rs) h k = ground (arith, not_clashing t rs)

any_where-found :
    (id tenant : ℕ) (cs : List Customer) (c : Customer)
    → find_where (is_customer tenant id) cs ≡ some c
    → any_where (λ r. r.id == id) cs ≡ true
any_where-found id tenant [] c h = absurd (ground arith)
any_where-found id tenant (x ∷ xs) c h = elim (Bool-cases (is_customer tenant id x)) [
  | inl hit ↦ ground arith
  | inr miss ↦
      let later : find_where (is_customer tenant id) xs ≡ some c = ground arith in
      ground (arith, any_where-found id tenant xs c later)
]

-- The guards of a debt, once its customer is locked: no block and no excess over the limit.
module _ (req : Request) (tenant user : ℕ) (dto : CreateTransactionDto) (db : Db) (c : Customer)
    (fresh : find_where (has_key tenant dto.idempotency_key) db.transactions ≡ none)
    (granted : req.lock_granted ≡ true)
    (found : find_where (is_customer tenant dto.customer_id) db.customers ≡ some c) where
  -- For a new key, a granted lock and a customer that is found, a debt on a blocked customer or
  -- above the credit limit is refused: with the message of the block if the customer is blocked,
  -- else with that of the limit, and the database is as before.
  pub register_debt-refused :
      (c.is_active && leb_ℤ (c.balance_cents +ℤ dto.amount_cents) c.credit_limit_cents) ≡ false
      → register_debt req tenant user dto db
        ≡ (err (if c.is_active then limit_exceeded else customer_blocked), db)
  unfolding register_debt new_debt
  register_debt-refused refused = ground arith

  -- For a new key and identifier, a granted lock, a tenant and a user that are stored, and a
  -- customer that is found and active, with a balance that is not negative and a limit in the
  -- range of its column, `registerDebt` succeeds on every amount in the decorators' bounds that
  -- keeps the balance within the limit.
  pub register_debt-succeeds :
      (c.is_active && leb_ℤ (c.balance_cents +ℤ dto.amount_cents) c.credit_limit_cents) ≡ true
      → pos 0 ≤ℤ c.balance_cents
      → is_amount dto.amount_cents ≡ true
      → fits_int4 c.credit_limit_cents ≡ true
      → any_where (λ t. t.id == req.uuid 0) db.transactions ≡ false
      → has_tenant tenant db ≡ true
      → has_user user db ≡ true
      → (t : Transaction) × ((register_debt req tenant user dto db).0 ≡ ok t)
  unfolding register_debt new_debt
  register_debt-succeeds allowed debtor amount fits new_id owner author =
      let row =
        new_transaction req 0 tenant user dto.customer_id debt dto.amount_cents dto.description
          dto.idempotency_key in
      let apart = not_clashing row db.transactions new_id fresh in
      let known = any_where-found dto.customer_id tenant db.customers c found in
      let new_balance = c.balance_cents +ℤ dto.amount_cents in
      let parts = +ℤ_parts c.balance_cents dto.amount_cents in
      let int4 : fits_int4 new_balance ≡ true = ground (arith, parts) in
      let int4_amount : fits_int4 dto.amount_cents ≡ true = ground arith in
      (row, ground (arith, int4, int4_amount, apart, fits, known, owner, author))
