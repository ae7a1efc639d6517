-- ===== src/Store/State.antt =====
-- State, errors, the transaction block and the shared queries.
use micro_erp_saas.Prelude.{
  ℕ, String, Bool, true, false, not, ◌&&◌, ◌||◌, Option, none, some, List, ◌∷◌, ltb, ◌==◌,
  find_where, update_where, any_where,
}
use micro_erp_saas.Prelude.Int.{ℤ, pos, negsuc}
use micro_erp_saas.Entities.{
  Customer, Transaction, IdempotentBatchOperation, CashRegisterLog, Tenant, User, BillingEvent,
  AuditLog,
}

pub record Db : Type 0 where
  pub tenants : List Tenant
  pub customers : List Customer
  pub transactions : List Transaction
  pub batches : List IdempotentBatchOperation
  pub shifts : List CashRegisterLog
  pub users : List User
  pub billing_events : List BillingEvent
  pub audit_logs : List AuditLog

-- What a request draws from its surroundings: the clock, the UUIDs that are generated for it in
-- order, whether its row locks are granted in time, and the text of a UUID.
pub record Request : Type 0 where
  pub now : ℕ
  pub uuid : ℕ → ℕ
  pub lock_granted : Bool
  pub uuid_text : ℕ → String

-- The exceptions that the services throw, by their message.
pub data Error : Type 0 where
  customer_not_found transaction_not_found tenant_not_found shift_not_found : Error
  customer_blocked limit_exceeded no_pending_debt sum_mismatch already_reversed : Error
  turn_already_open no_open_turn note_required : Error
  duplicate_phone duplicate_dni duplicate_email same_customer : Error
  primary_not_found secondary_not_found : Error
  lock_timeout query_failed : Error
  email_taken user_not_found bad_credentials tenant_suspended : Error
  invalid_token session_revoked account_disabled credentials_changed : Error
  invalid_link misused_token link_used update_failed : Error
  role_required subscription_suspended grace_period_over data_not_found : Error

pub data Result (A : Type 0) : Type 0 where
  ok : A → Result A
  err : Error → Result A

-- Statements inside a transaction: an exception gives up the working copy.
abbrev pub Tx : Type 0 → Type 0
Tx A = Db → Result (A × Db)

infixl 5 ◌>>=◌ ◌>>◌
abbrev pub ◌>>=◌ : {A B : Type 0} → Tx A → (A → Tx B) → Tx B
◌>>=◌ m f db = elim (m db) [ ok (a, db') ↦ f a db' | err e ↦ err e ]

abbrev pub ◌>>◌ : {A B : Type 0} → Tx A → Tx B → Tx B
m >> k = m >>= λ _. k

module _ {A : Type 0} where
  abbrev pub pure : A → Tx A
  pure a db = ok (a, db)

  abbrev pub throw : Error → Tx A
  throw e db = err e

  abbrev pub gets : (Db → A) → Tx A
  gets f db = ok (f db, db)

  abbrev pub or_throw : Option A → Error → Tx A
  or_throw none e = throw e
  or_throw (some a) e = pure a

  -- try { …; commit } catch { rollback; throw }
  abbrev pub run_tx : Tx A → Db → Result A × Db
  run_tx m db = elim (m db) [ ok (a, db') ↦ (ok a, db') | err e ↦ (err e, db) ]

abbrev pub throw_if : Bool → Error → Tx Unit
throw_if true e db = err e
throw_if false e db = ok (tt, db)

abbrev pub throw_where : (Db → Bool) → Error → Tx Unit
throw_where test e db = throw_if (test db) e db

abbrev pub modify : (Db → Db) → Tx Unit
modify f db = ok (tt, f db)

-- The range of a column of type `int`.
abbrev pub fits_int4 : ℤ → Bool
fits_int4 (pos n) = ltb n 2147483648
fits_int4 (negsuc n) = ltb n 2147483648

-- WHERE id = :id AND tenant_id = :tenant
abbrev pub is_customer : ℕ → ℕ → Customer → Bool
is_customer tenant id c = c.id == id && c.tenant_id == tenant

abbrev pub is_transaction : ℕ → ℕ → Transaction → Bool
is_transaction tenant id t = t.id == id && t.tenant_id == tenant

-- WHERE tenant_id = :tenant AND idempotency_key = :key
abbrev pub has_key : ℕ → ℕ → Transaction → Bool
has_key tenant key t = t.tenant_id == tenant && t.idempotency_key == key

-- `findByIdempotencyKey`
abbrev pub find_by_idempotency_key : ℕ → ℕ → Tx (Option Transaction)
find_by_idempotency_key tenant key = gets (λ db. find_where (has_key tenant key) db.transactions)

-- `lockCustomer`: the row is read under FOR UPDATE, or the wait for the lock times out.
abbrev pub lock_customer : Request → ℕ → ℕ → Tx Customer
lock_customer req tenant id = do
  throw_if (not req.lock_granted) lock_timeout
  or_throw (← gets (λ db. find_where (is_customer tenant id) db.customers)) customer_not_found

abbrev pub put_customer : Customer → List Customer → List Customer
put_customer c = update_where (λ r. r.id == c.id) (λ _. c)

abbrev pub put_transaction : Transaction → List Transaction → List Transaction
put_transaction t = update_where (λ r. r.id == t.id) (λ _. t)

-- `save` of a customer that was loaded before: an UPDATE of the row with its id.
abbrev pub save_customer : Customer → Tx Unit
save_customer c = do
  throw_if (not (fits_int4 c.balance_cents && fits_int4 c.credit_limit_cents)) query_failed
  modify (λ db. record db { customers = put_customer c db.customers })

-- The rows that foreign keys ask for.
abbrev pub has_tenant : ℕ → Db → Bool
has_tenant id db = any_where (λ r. r.id == id) db.tenants

abbrev pub has_user : ℕ → Db → Bool
has_user id db = any_where (λ r. r.id == id) db.users

abbrev pub has_original : Option ℕ → Db → Bool
has_original none db = true
has_original (some id) db = any_where (λ r. r.id == id) db.transactions

abbrev pub has_parents : Transaction → Db → Bool
has_parents t db =
    has_tenant t.tenant_id db
    && (any_where (λ r. r.id == t.customer_id) db.customers
        && (has_user t.user_id db && has_original t.reversed_transaction_id db))

-- `save` of a new transaction: an INSERT under the primary key, the unique index on
-- (tenant_id, idempotency_key), the foreign keys of the tenant, the customer, the user and the
-- original of a reversal, and the range of the amount.
abbrev pub clashes : Transaction → Transaction → Bool
clashes t r = r.id == t.id || has_key t.tenant_id t.idempotency_key r

abbrev pub insert_transaction : Transaction → Tx Unit
insert_transaction t = do
  throw_where (λ db. not (has_parents t db)) query_failed
  throw_where (λ db. any_where (clashes t) db.transactions) query_failed
  throw_if (not (fits_int4 t.amount_cents)) query_failed
  modify (λ db. record db { transactions = t ∷ db.transactions })

-- `save` of a transaction that was loaded before.
abbrev pub save_transaction : Transaction → Tx Unit
save_transaction t = modify (λ db. record db { transactions = put_transaction t db.transactions })

-- The tenant's row under FOR UPDATE.
abbrev pub lock_tenant : Request → ℕ → Tx Tenant
lock_tenant req tenant = do
  throw_if (not req.lock_granted) lock_timeout
  or_throw (← gets (λ db. find_where (λ t. t.id == tenant) db.tenants)) tenant_not_found

abbrev pub save_tenant : Tenant → Tx Unit
save_tenant t =
    modify (λ db. record db { tenants = update_where (λ r. r.id == t.id) (λ _. t) db.tenants })
