-- ===== src/Subscriptions.antt =====
-- The subscription of a tenant: backend/src/modules/cron/saas-cron.service.ts, which suspends the
-- tenants that did not pay, and backend/src/modules/billing/billing.service.ts, which processes the
-- payments. The service's clock is in UTC, where a day has 86400000 milliseconds.
pub mod Keys
pub mod Suspension
pub mod Payments
pub mod Webhook
pub mod Signed
use micro_erp_saas.Prelude.{
  ℕ, ◌+◌, ◌-◌, ◌*◌, String, Bool, true, false, not, ◌&&◌, ◌||◌, Option, none, some, List, [], ◌∷◌,
  ltb, ◌==◌, if◌then◌else◌, or_else, is_some, find_where, select_where, any_where,
}
use micro_erp_saas.Prelude.Int.{pos}
use text.Mathlib.Text.{◌==◌ as str_eq}
use micro_erp_saas.Entities.{
  Tenant, TenantStatus, trial, active, past_due, suspended, cancelled, is_past_due, BillingEvent,
}
use micro_erp_saas.Store.{
  has_tenant, has_user, Db, Request, Result, Tx, ◌>>=◌, ◌>>◌, pure, gets, throw_if, throw_where,
  modify, run_tx, save_tenant, query_failed, lock_timeout,
}

abbrev pub day_ms : ℕ
day_ms = 86400000

-- A nullable date before another one, as SQL compares: never for NULL.
abbrev pub is_before : ℕ → Option ℕ → Bool
is_before date none = false
is_before date (some at) = ltb at date

-- WHERE status = 'PAST_DUE' AND subscription_expires_at < :cutoff
abbrev pub is_expired : ℕ → Tenant → Bool
is_expired cutoff t = is_past_due t.status && is_before cutoff t.subscription_expires_at

-- Three days ago.
abbrev pub cutoff_date : ℕ → ℕ
cutoff_date now = now - 3 * day_ms

abbrev pub suspend : Tenant → Tenant
suspend t = record t { status = suspended }

-- The loop over the rows that were found.
abbrev pub suspend_all : List Tenant → Tx Unit
suspend_all [] = pure tt
suspend_all (t ∷ ts) = save_tenant (suspend t) >> suspend_all ts

-- `processSaasExpirations`. An error is logged, not thrown.
unfoldable pub process_saas_expirations : Request → Db → Db
process_saas_expirations req db =
    let expired = select_where (is_expired (cutoff_date req.now)) db.tenants in
    (run_tx (suspend_all expired) db).1

-- `rawPayload.data?.subscription_id || 'test_sub_id'`
abbrev pub subscription_or_test : Option String → String
subscription_or_test none = "test_sub_id"
subscription_or_test (some s) = if str_eq s "" then "test_sub_id" else s

-- WHERE external_payment_id = :payment
abbrev pub has_payment : String → BillingEvent → Bool
has_payment payment e = str_eq e.external_payment_id payment

-- WHERE mp_subscription_id = :subscription
abbrev pub has_subscription : String → Tenant → Bool
has_subscription subscription t = elim t.mp_subscription_id [
  | none ↦ false
  | some s ↦ str_eq s subscription
]

-- INSERT under the primary key, the foreign key of the tenant and the unique identifier of the payment.
abbrev pub insert_event : BillingEvent → Tx Unit
insert_event e = do
  throw_where (λ db. not (has_tenant e.tenant_id db)) query_failed
  throw_where
      (λ db. any_where (λ r. r.id == e.id || has_payment e.external_payment_id r) db.billing_events)
      query_failed
  modify (λ db. record db { billing_events = e ∷ db.billing_events })

abbrev pub new_event : Request → String → String → Tenant → BillingEvent
new_event req payment raw_payload t = record {
  id = req.uuid 0;
  external_payment_id = payment;
  tenant_id = t.id;
  provider = "mercadopago";
  amount_cents = pos 3000;
  currency = "ARS";
  raw_payload = raw_payload;
  processed_at = req.now;
}

-- Thirty days from the expiry, or from now if there is none.
abbrev pub extended : ℕ → Tenant → Tenant
extended now t = record t {
  status = active;
  subscription_expires_at = some (or_else t.subscription_expires_at now + 30 * day_ms);
}

module _ (req : Request) (payment : String) where
  -- Without a tenant nothing is written.
  abbrev pub credit : String → Option Tenant → Tx Unit
  credit raw_payload none = pure tt
  credit raw_payload (some t) = do
    insert_event (new_event req payment raw_payload t)
    save_tenant (extended req.now t)

  -- The tenant is read under FOR UPDATE.
  abbrev pub new_payment_body : String → String → Tx Unit
  new_payment_body subscription raw_payload = do
    throw_if (not req.lock_granted) lock_timeout
    tenant ← gets (λ db. find_where (has_subscription subscription) db.tenants)
    credit raw_payload tenant

  abbrev pub unless_processed : Bool → Tx Unit → Tx Unit
  unless_processed true rest = pure tt
  unless_processed false rest = rest

  abbrev pub process_body : Option String → String → Tx Unit
  process_body subscription_id raw_payload = do
    processed ← gets (λ db. any_where (has_payment payment) db.billing_events)
    unless_processed processed (new_payment_body (subscription_or_test subscription_id) raw_payload)

  -- `processPayment`, with the subscription's identifier of the payload and the payload.
  unfoldable pub process_payment : Option String → String → Db → Result Unit × Db
  process_payment subscription_id raw_payload = run_tx (process_body subscription_id raw_payload)
