-- ===== src/Notifications.antt =====
-- backend/src/modules/notifications/notifications.service.ts: a link by which a customer reads the own
-- debt without an account. The token service is a parameter.
pub mod Summary
use micro_erp_saas.Prelude.{
  ℕ, ◌+◌, ◌/◌, ◌≤◌, ◌<◌, ◌≡◌, leb, String, Bool, true, false, not, ◌&&◌, Option, none, some, List,
  [], ◌∷◌, ◌==◌, find_where, select_where, order_by, take,
}
use micro_erp_saas.Prelude.Int.{ℤ}
use text.Mathlib.Text.{◌==◌ as str_eq}
use micro_erp_saas.Entities.{
  Tenant, Customer, Transaction, TransactionType, debt, payment, is_type, Setting, text_setting,
}
use micro_erp_saas.Store.{
  Db, Error, Tx, ◌>>=◌, ◌>>◌, pure, gets, or_throw, throw_if, is_customer, customer_not_found,
  invalid_token, invalid_link, data_not_found,
}
use micro_erp_saas.Transactions.History.{up_to_date}
use micro_erp_saas.Tenants.{find_setting}

-- `SummaryTokenPayload`; a token of another kind may have no type.
pub record SummaryTokenPayload : Type 0 where
  pub tenant_id : ℕ
  pub customer_id : ℕ
  pub type : Option String

-- The JWT service: what a token says at a time, or none if it is forged or expired.
pub record TokenService : Type 1 where
  pub Token : Type 0
  pub sign : SummaryTokenPayload → ℕ → Token
  pub verify : Token → ℕ → Option SummaryTokenPayload

-- 72 hours, in seconds.
abbrev pub summary_seconds : ℕ
summary_seconds = 259200

-- A signed token verifies until the second at which it expires, counted from that of the signature.
pub record IsTokenService (k : TokenService) : Type 0 where
  pub verify-sign :
      (p : SummaryTokenPayload) (now later : ℕ)
      → now ≤ later
      → later / 1000 < now / 1000 + summary_seconds
      → k.verify (k.sign p now) later ≡ some p

pub record PublicDebtSummary : Type 0 where
  pub business_name : String
  pub customer_name : String
  pub balance_cents : ℤ
  pub recent_debts : List Transaction
  pub recent_payments : List Transaction
  pub payment_alias : Option String

abbrev pub summary_payload : ℕ → ℕ → SummaryTokenPayload
summary_payload tenant customer = record {
  tenant_id = tenant;
  customer_id = customer;
  type = some "summary";
}

-- `generateSummaryLink`: the token of the link.
unfoldable pub generate_summary_link : (k : TokenService) → ℕ → ℕ → ℕ → Tx k.Token
generate_summary_link k now tenant customer = do
  row ←
      or_throw (← gets (λ db. find_where (is_customer tenant customer) db.customers))
        customer_not_found
  pure (k.sign (summary_payload tenant customer) now)

-- WHERE customer_id = :customer AND tenant_id = :tenant AND type = :type AND NOT is_reversed
abbrev pub is_entry : ℕ → ℕ → TransactionType → Transaction → Bool
is_entry tenant customer type t =
    t.customer_id == customer
    && (t.tenant_id == tenant && (is_type t.type type && not t.is_reversed))

abbrev pub recent : ℕ → ℕ → ℕ → TransactionType → List Transaction → List Transaction
recent n tenant customer type ts =
    take n (order_by up_to_date (select_where (is_entry tenant customer type) ts))

-- `typeof settings?.payment_alias === 'string' ? settings.payment_alias : null`
abbrev pub text_of : Option Setting → Option String
text_of (some (text_setting s)) = some s
text_of _ = none

abbrev pub is_summary : Option String → Bool
is_summary none = false
is_summary (some s) = str_eq s "summary"

-- `getPublicSummary`. The rows of the lists are given whole, of which the answer has three columns.
unfoldable pub get_public_summary : (k : TokenService) → ℕ → k.Token → Tx PublicDebtSummary
get_public_summary k now token = do
  p ← or_throw (k.verify token now) invalid_link
  throw_if (not (is_summary p.type)) invalid_token
  tenant ← or_throw (← gets (λ db. find_where (λ t. t.id == p.tenant_id) db.tenants)) data_not_found
  customer ←
      or_throw (← gets (λ db. find_where (is_customer p.tenant_id p.customer_id) db.customers))
        data_not_found
  debts ← gets (λ db. recent 5 p.tenant_id p.customer_id debt db.transactions)
  payments ← gets (λ db. recent 2 p.tenant_id p.customer_id payment db.transactions)
  pure (record {
    business_name = tenant.tenant_name;
    customer_name = customer.full_name;
    balance_cents = customer.balance_cents;
    recent_debts = debts;
    recent_payments = payments;
    payment_alias = text_of (find_setting "payment_alias" tenant.settings);
  })
