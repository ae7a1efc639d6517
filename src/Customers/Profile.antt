-- ===== src/Customers/Profile.antt =====
-- The methods on one customer: creation, the contact data, the credit limit, the block, the promise.
pub mod Sound
use micro_erp_saas.Prelude.{
  ℕ, String, Bool, true, false, not, ◌&&◌, ◌||◌, Option, some, none, List, ◌∷◌, ◌==◌, if◌then◌else◌,
  or_else, same_id, is_some, find_where, any_where,
}
use text.Mathlib.Text.{◌==◌ as str_eq}
use micro_erp_saas.Prelude.Int.{ℤ, pos}
use micro_erp_saas.Entities.{Customer}
use micro_erp_saas.Store.{
  has_tenant, has_user, Db, Request, Result, Tx, ◌>>=◌, ◌>>◌, pure, gets, or_throw, throw_if,
  throw_where, modify, run_tx, fits_int4, is_customer, lock_customer, save_customer,
  customer_not_found, duplicate_phone, duplicate_dni, duplicate_email, query_failed,
}

pub record CreateCustomerDto : Type 0 where
  pub full_name : String
  pub phone : Option String
  pub dni : Option String
  pub credit_limit_cents : Option ℤ
  pub idempotency_key : Option ℕ

-- A field of a PATCH is absent, null or a value.
pub data Patch (A : Type 0) : Type 0 where
  absent : Patch A
  null : Patch A
  value : A → Patch A

pub record UpdateCustomerDto : Type 0 where
  pub full_name : Patch String
  pub phone : Patch String
  pub dni : Patch String
  pub address : Patch String
  pub email : Patch String
  pub notes : Patch String
  pub tags : Patch (List String)

-- What `Object.assign` leaves in a column.
abbrev pub patched : {A : Type 0} → Patch A → Option A → Option A
patched absent old = old
patched null old = none
patched (value x) old = some x

-- The same in a column that is not nullable; the database refuses a null.
abbrev pub patched_text : Patch String → String → String
patched_text (value s) old = s
patched_text _ old = old

abbrev pub is_null : {A : Type 0} → Patch A → Bool
is_null null = true
is_null _ = false

abbrev pub holds : String → Option String → Bool
holds s none = false
holds s (some r) = str_eq r s

-- A row of the tenant has the value in the column.
abbrev pub taken : (Customer → Option String) → ℕ → String → Db → Bool
taken column tenant s db = any_where (λ c. c.tenant_id == tenant && holds s (column c)) db.customers

-- The same, of a customer other than the given one.
abbrev pub taken_by_other : (Customer → Option String) → ℕ → ℕ → String → Db → Bool
taken_by_other column tenant id s db =
    any_where (λ c. c.tenant_id == tenant && (holds s (column c) && not (c.id == id))) db.customers

-- `if (dto.phone)`: an empty text counts as none.
abbrev pub when_given : Option String → (String → Db → Bool) → Db → Bool
when_given none test db = false
when_given (some String.[]) test db = false
when_given (some s) test db = test s db

abbrev pub when_patched : Patch String → (String → Db → Bool) → Db → Bool
when_patched (value s) test db = test s db
when_patched _ test db = false

-- `findCustomerOrFail`
abbrev pub find_customer_or_fail : ℕ → ℕ → Tx Customer
find_customer_or_fail tenant id = do
  or_throw (← gets (λ db. find_where (is_customer tenant id) db.customers)) customer_not_found

-- INSERT under the primary key, the foreign key of the tenant, the unique index on (tenant_id, idempotency_key), where NULLs are
-- distinct, and the range of the limit.
abbrev pub clashes_customer : Customer → Customer → Bool
clashes_customer c r =
    r.id == c.id
    || (is_some c.idempotency_key
        && (r.tenant_id == c.tenant_id && same_id r.idempotency_key c.idempotency_key))

abbrev pub insert_customer : Customer → Tx Unit
insert_customer c = do
  throw_where (λ db. not (has_tenant c.tenant_id db)) query_failed
  throw_where (λ db. any_where (clashes_customer c) db.customers) query_failed
  throw_if (not (fits_int4 c.credit_limit_cents)) query_failed
  modify (λ db. record db { customers = c ∷ db.customers })

module _ (req : Request) (tenant : ℕ) where
  -- The row of a new customer, with the defaults of the entity.
  abbrev pub created_customer : CreateCustomerDto → Customer
  created_customer dto = record {
    id = req.uuid 0;
    tenant_id = tenant;
    full_name = dto.full_name;
    phone = dto.phone;
    dni = dto.dni;
    credit_limit_cents = or_else dto.credit_limit_cents (pos 0);
    balance_cents = pos 0;
    is_active = true;
    next_payment_promise = none;
    is_overdue = false;
    auto_block_on_limit = false;
    address = none;
    email = none;
    notes = none;
    tags = none;
    idempotency_key = dto.idempotency_key;
    created_at = req.now;
  }

  abbrev pub new_customer : CreateCustomerDto → Tx Customer
  new_customer dto = do
    throw_where (when_given dto.phone (taken (λ c. c.phone) tenant)) duplicate_phone
    throw_where (when_given dto.dni (taken (λ c. c.dni) tenant)) duplicate_dni
    insert_customer (created_customer dto)
    pure (created_customer dto)

  -- WHERE tenant_id = :tenant AND idempotency_key = :key, if a key is given
  abbrev pub known_customer : Option ℕ → Db → Option Customer
  known_customer none db = none
  known_customer (some key) db =
      find_where (λ c. c.tenant_id == tenant && same_id c.idempotency_key (some key)) db.customers

  abbrev pub create_body : CreateCustomerDto → Tx Customer
  create_body dto = do
    existing ← gets (known_customer dto.idempotency_key)
    elim existing [ some c ↦ pure c | none ↦ new_customer dto ]

  unfoldable pub create : CreateCustomerDto → Db → Result Customer × Db
  create dto = run_tx (create_body dto)

  abbrev pub patched_customer : UpdateCustomerDto → Customer → Customer
  patched_customer dto c = record c {
    full_name = patched_text dto.full_name c.full_name;
    phone = patched dto.phone c.phone;
    dni = patched dto.dni c.dni;
    address = patched dto.address c.address;
    email = patched dto.email c.email;
    notes = patched dto.notes c.notes;
    tags = patched dto.tags c.tags;
  }

  abbrev pub update_body : ℕ → UpdateCustomerDto → Tx Customer
  update_body id dto = do
    customer ← find_customer_or_fail tenant id
    throw_where (when_patched dto.phone (taken_by_other (λ c. c.phone) tenant id)) duplicate_phone
    throw_where (when_patched dto.dni (taken_by_other (λ c. c.dni) tenant id)) duplicate_dni
    throw_where (when_patched dto.email (taken_by_other (λ c. c.email) tenant id)) duplicate_email
    throw_if (is_null dto.full_name) query_failed
    save_customer (patched_customer dto customer)
    pure (patched_customer dto customer)

  unfoldable pub update_customer : ℕ → UpdateCustomerDto → Db → Result Customer × Db
  update_customer id dto = run_tx (update_body id dto)

  abbrev pub limit_body : ℕ → ℤ → Tx Customer
  limit_body id credit_limit_cents = do
    customer ← lock_customer req tenant id
    save_customer (record customer { credit_limit_cents = credit_limit_cents })
    pure (record customer { credit_limit_cents = credit_limit_cents })

  unfoldable pub update_credit_limit : ℕ → ℤ → Db → Result Customer × Db
  update_credit_limit id credit_limit_cents = run_tx (limit_body id credit_limit_cents)

  abbrev pub toggle_body : ℕ → Tx Customer
  toggle_body id = do
    customer ← find_customer_or_fail tenant id
    save_customer (record customer { is_active = not customer.is_active })
    pure (record customer { is_active = not customer.is_active })

  unfoldable pub toggle_block : ℕ → Db → Result Customer × Db
  toggle_block id = run_tx (toggle_body id)

  -- The date is the parsed one, or none for a missing or empty text.
  abbrev pub promise_body : ℕ → Option ℕ → Tx Customer
  promise_body id date = do
    customer ← find_customer_or_fail tenant id
    save_customer (record customer { next_payment_promise = date })
    pure (record customer { next_payment_promise = date })

  unfoldable pub update_promise : ℕ → Option ℕ → Db → Result Customer × Db
  update_promise id date = run_tx (promise_body id date)
