-- ===== src/Entities.antt =====
-- The tables (backend/src/modules/*/entities) and the enumerations of backend/src/common/enums.
-- A UUID is a number: the program compares identifiers, and orders them in one place. Amounts are
-- integers, as the columns are; a timestamp is a number of milliseconds. Relations and the column
-- `updated_at`, which no code reads, are left out.
use micro_erp_saas.Prelude.{ℕ, String, Bool, true, false, Option, List}
use micro_erp_saas.Prelude.Int.{ℤ}

pub data TransactionType : Type 0 where
  debt payment reversal inflation_adjustment forgiveness : TransactionType

pub data PaymentMethod : Type 0 where
  cash transfer : PaymentMethod

pub data CashRegisterStatus : Type 0 where
  open_shift closed_ok closed_with_discrepancy : CashRegisterStatus

pub data TenantStatus : Type 0 where
  trial active past_due suspended cancelled : TenantStatus

pub data UserRole : Type 0 where
  admin cashier : UserRole

pub record Customer : Type 0 where
  pub id : ℕ
  pub tenant_id : ℕ
  pub full_name : String
  pub phone : Option String
  pub dni : Option String
  pub credit_limit_cents : ℤ
  pub balance_cents : ℤ
  pub is_active : Bool
  pub next_payment_promise : Option ℕ
  pub is_overdue : Bool
  pub auto_block_on_limit : Bool
  pub address : Option String
  pub email : Option String
  pub notes : Option String
  pub tags : Option (List String)
  pub idempotency_key : Option ℕ
  pub created_at : ℕ

pub record Transaction : Type 0 where
  pub id : ℕ
  pub tenant_id : ℕ
  pub customer_id : ℕ
  pub user_id : ℕ
  pub type : TransactionType
  pub amount_cents : ℤ
  pub description : Option String
  pub payment_method : Option PaymentMethod
  pub reference_group_id : Option ℕ
  pub idempotency_key : ℕ
  pub reversed_transaction_id : Option ℕ
  pub is_reversed : Bool
  pub cash_register_log_id : Option ℕ
  pub created_at : ℕ

pub record IdempotentBatchOperation : Type 0 where
  pub id : ℕ
  pub tenant_id : ℕ
  pub idempotency_key : ℕ
  pub operation_type : TransactionType
  pub affected_customers : ℕ
  pub total_adjustment_cents : ℤ

pub record CashRegisterLog : Type 0 where
  pub id : ℕ
  pub tenant_id : ℕ
  pub user_id : ℕ
  pub opened_at : ℕ
  pub closed_at : Option ℕ
  pub opening_cash_cents : ℤ
  pub expected_cash_cents : Option ℤ
  pub actual_cash_cents : Option ℤ
  pub discrepancy_cents : Option ℤ
  pub note : Option String
  pub status : CashRegisterStatus

pub record User : Type 0 where
  pub id : ℕ
  pub tenant_id : ℕ
  pub email : String
  pub password_hash : String
  pub name : String
  pub phone : Option String
  pub role : UserRole
  pub is_active : Bool
  pub token_version : ℕ
  pub password_changed_at : Option ℕ
  pub created_at : ℕ

-- The raw payload is the text of the webhook's body.
pub record BillingEvent : Type 0 where
  pub id : ℕ
  pub external_payment_id : String
  pub tenant_id : ℕ
  pub provider : String
  pub amount_cents : ℤ
  pub currency : String
  pub raw_payload : String
  pub processed_at : ℕ

pub data AuditAction : Type 0 where
  credit_limit_action block_action promise_action overdue_action merge_action : AuditAction
  reverse_action forgive_action inflation_action : AuditAction
  deactivate_action activate_action password_action : AuditAction

-- The snapshots that the services write into the `jsonb` columns of the audit log.
pub data Snapshot : Type 0 where
  credit_limit_snapshot : ℤ → Snapshot
  active_snapshot : Bool → Snapshot
  promise_snapshot : Option ℕ → Snapshot
  not_overdue_snapshot : Snapshot
  overdue_snapshot : ℤ → Option ℕ → Snapshot
  password_snapshot : Option ℕ → Snapshot

pub record AuditLog : Type 0 where
  pub id : ℕ
  pub tenant_id : ℕ
  pub user_id : Option ℕ
  pub action : AuditAction
  pub entity_type : String
  pub entity_id : ℕ
  pub old_value : Option Snapshot
  pub new_value : Option Snapshot
  pub ip_address : Option String
  pub created_at : ℕ

-- A value of the `jsonb` column of the settings.
pub data Setting : Type 0 where
  text_setting : String → Setting
  number_setting : ℕ → Setting
  list_setting : List String → Setting
  null_setting : Setting

pub record Tenant : Type 0 where
  pub id : ℕ
  pub tenant_name : String
  pub subscription_plan : String
  pub status : TenantStatus
  pub mp_subscription_id : Option String
  pub subscription_expires_at : Option ℕ
  pub settings : List (String × Setting)
  pub active_cash_shift_id : Option ℕ
  pub created_at : ℕ

abbrev pub is_type : TransactionType → TransactionType → Bool
is_type debt debt = true
is_type payment payment = true
is_type reversal reversal = true
is_type inflation_adjustment inflation_adjustment = true
is_type forgiveness forgiveness = true
is_type _ _ = false

abbrev pub is_method : PaymentMethod → PaymentMethod → Bool
is_method cash cash = true
is_method transfer transfer = true
is_method _ _ = false

abbrev pub is_open : CashRegisterStatus → Bool
is_open open_shift = true
is_open _ = false

abbrev pub is_past_due : TenantStatus → Bool
is_past_due past_due = true
is_past_due _ = false
