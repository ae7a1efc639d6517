-- ===== src/Tests/Shop.antt =====
-- A shop for the tests: tenant 1 with two customers, a debt of each, one payment and an open turn.
use micro_erp_saas.Prelude.{ℕ, ◌+◌, refl, true, false, none, some, [], ◌∷◌, arith}
use micro_erp_saas.Prelude.Int.{ℤ, pos, ◌+ℤ◌, ◌-ℤ◌}
use micro_erp_saas.Entities.{
  TransactionType, debt, payment, trial, open_shift, Customer, Transaction, CashRegisterLog, Tenant,
  User, admin, cashier,
}
use micro_erp_saas.Store.{Db, Request}
use micro_erp_saas.Ledger.Account.{ledger, IsSound}
use micro_erp_saas.CashRegister.Turn.{HasOneTurn}

-- A request at a time, with UUIDs from a number on.
abbrev pub request : ℕ → ℕ → Request
request now first = record {
  now = now;
  uuid = λ n. first + n;
  lock_granted = true;
  uuid_text = λ id. "uuid";
}

abbrev pub customer : ℕ → ℤ → Customer
customer id balance = record {
  id = id;
  tenant_id = 1;
  full_name = "Ana";
  phone = none;
  dni = none;
  credit_limit_cents = pos 10000;
  balance_cents = balance;
  is_active = true;
  next_payment_promise = none;
  is_overdue = false;
  auto_block_on_limit = false;
  address = none;
  email = none;
  notes = none;
  tags = none;
  idempotency_key = none;
  created_at = 1;
}

abbrev pub ana : Customer
ana = customer 10 (pos 5000)

abbrev pub beto : Customer
beto = customer 11 (pos 300)

abbrev pub row : ℕ → ℕ → TransactionType → ℤ → Transaction
row id owner type amount = record {
  id = id;
  tenant_id = 1;
  customer_id = owner;
  user_id = 7;
  type = type;
  amount_cents = amount;
  description = none;
  payment_method = none;
  reference_group_id = none;
  idempotency_key = 500 + id;
  reversed_transaction_id = none;
  is_reversed = false;
  cash_register_log_id = none;
  created_at = 40 + id;
}

abbrev pub tenant : Tenant
tenant = record {
  id = 1;
  tenant_name = "Kiosco";
  subscription_plan = "basic";
  status = trial;
  mp_subscription_id = none;
  subscription_expires_at = none;
  settings = [];
  active_cash_shift_id = some 300;
  created_at = 1;
}

abbrev pub turn : CashRegisterLog
turn = record {
  id = 300;
  tenant_id = 1;
  user_id = 7;
  opened_at = 90;
  closed_at = none;
  opening_cash_cents = pos 1000;
  expected_cash_cents = none;
  actual_cash_cents = none;
  discrepancy_cents = none;
  note = none;
  status = open_shift;
}

abbrev pub owner : User
owner = record {
  id = 7;
  tenant_id = 1;
  email = "ana@kiosco";
  password_hash = "secreto";
  name = "Ana";
  phone = none;
  role = admin;
  is_active = true;
  token_version = 0;
  password_changed_at = none;
  created_at = 1;
}

abbrev pub helper : User
helper = record owner { id = 8; email = "beto@kiosco"; role = cashier }

-- Ana bought for 6000 and paid 1000; Beto bought for 300.
abbrev pub shop : Db
shop = record {
  tenants = tenant ∷ [];
  customers = ana ∷ beto ∷ [];
  transactions =
      row 102 10 payment (pos 1000) ∷ row 101 11 debt (pos 300) ∷ row 100 10 debt (pos 6000) ∷ [];
  batches = [];
  shifts = turn ∷ [];
  users = owner ∷ helper ∷ [];
  billing_events = [];
  audit_logs = [];
}

-- The shop before its turn was opened.
abbrev pub closed_shop : Db
closed_shop = record shop {
  tenants = record tenant { active_cash_shift_id = none } ∷ [];
  shifts = [];
}

pub shop-IsSound : IsSound shop
unfolding ledger ◌+ℤ◌ ◌-ℤ◌
shop-IsSound = record {
  reconciled = (refl, (refl, tt));
  solvent = (omega arith, (omega arith, tt));
  keyed = (refl, (refl, (refl, tt)));
  distinct = (refl, (refl, tt));
}

pub shop-HasOneTurn : HasOneTurn shop
shop-HasOneTurn = (λ h. refl, tt)
