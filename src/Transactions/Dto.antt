-- ===== src/Transactions/Dto.antt =====
-- The request bodies of backend/src/modules/transactions/dto, and the bounds that their decorators
-- put on the amounts. A field marked `?` in the source is an option.
use micro_erp_saas.Prelude.{ℕ, String, Bool, ◌&&◌, Option}
use micro_erp_saas.Prelude.Int.{ℤ, pos, ltb_ℤ, leb_ℤ}
use micro_erp_saas.Entities.{PaymentMethod}

pub record CreateTransactionDto : Type 0 where
  pub customer_id : ℕ
  pub amount_cents : ℤ
  pub description : Option String
  pub idempotency_key : ℕ

pub record CreatePaymentDto : Type 0 where
  pub customer_id : ℕ
  pub amount_cents : ℤ
  pub description : Option String
  pub idempotency_key : ℕ
  pub payment_method : Option PaymentMethod

pub record CreateMixedPaymentDto : Type 0 where
  pub customer_id : ℕ
  pub total_amount_cents : ℤ
  pub cash_amount_cents : ℤ
  pub transfer_amount_cents : ℤ
  pub description : Option String
  pub idempotency_key : ℕ

pub record ReverseTransactionDto : Type 0 where
  pub idempotency_key : ℕ
  pub description : Option String

pub record ForgiveDebtDto : Type 0 where
  pub customer_id : ℕ
  pub description : String
  pub idempotency_key : ℕ

abbrev pub max_amount_cents : ℤ
max_amount_cents = pos 2000000000

-- `@IsInt @IsPositive @Max(MAX_AMOUNT_CENTS)`
abbrev pub is_amount : ℤ → Bool
is_amount a = ltb_ℤ (pos 0) a && leb_ℤ a max_amount_cents
