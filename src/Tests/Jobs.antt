-- ===== src/Tests/Jobs.antt =====
-- The jobs and the payments of the subscription in the shop of the tests.
use micro_erp_saas.Prelude.{
  ℕ, ◌+◌, ◌*◌, ◌≡◌, refl, String, Option, none, some, true, [], ◌∷◌, arith,
}
use micro_erp_saas.Prelude.Int.{pos, ◌+ℤ◌, ◌-ℤ◌}
use micro_erp_saas.Entities.{Tenant, past_due, Customer, number_setting}
use micro_erp_saas.Store.{Db, Request, err, customer_blocked, grace_period_over}
use micro_erp_saas.Ledger.Account.{IsSound, ledger}
use micro_erp_saas.Transactions.Dto.{CreateTransactionDto}
use micro_erp_saas.Transactions.Charges.{register_debt}
use micro_erp_saas.Accounts.Auth.{epoch_seconds}
use micro_erp_saas.Accounts.Guards.{check_subscription}
use micro_erp_saas.Subscriptions.{process_saas_expirations, process_payment, suspend, day_ms}
use micro_erp_saas.Subscriptions.Keys.{IsTenantKeyed}
use micro_erp_saas.Subscriptions.Suspension.{
  process_saas_expirations-update_where, check_subscription-is_expired,
}
use micro_erp_saas.Subscriptions.Payments.{Notification, Paid, process_all, process_all-Paid}
use micro_erp_saas.Overdue.{process_overdue_customers}
use micro_erp_saas.Subscriptions.Webhook.{
  Hmac, Environment, WebhookBody, given, verify_signature, handle_webhook,
}
use micro_erp_saas.Subscriptions.Signed.{signed_header, handle_webhook-once}
use micro_erp_saas.Overdue.Marking.{process_overdue_customers-IsSound}
use micro_erp_saas.Overdue.Blocking.{by_days, register_debt-process_overdue_customers}
use micro_erp_saas.Overdue.Twice.{process_overdue_customers-again}
use micro_erp_saas.Tests.Shop.{request, shop, tenant, ana, beto}

-- A tenant that stopped paying ten days ago, in the morning of the twentieth day.
abbrev late_tenant : Tenant
late_tenant = record tenant {
  status = past_due;
  subscription_expires_at = some (10 * day_ms);
  mp_subscription_id = some "sub";
  settings = ("auto_block_overdue_days", number_setting 5) ∷ [];
}

abbrev morning : Request
morning = request (20 * day_ms + 1000) 900

-- Ana promised to pay on the tenth day.
abbrev late_ana : Customer
late_ana = record ana { next_payment_promise = some (10 * day_ms) }

abbrev late_shop : Db
late_shop = record shop { tenants = late_tenant ∷ []; customers = late_ana ∷ beto ∷ [] }

late_shop-IsSound : IsSound late_shop
unfolding ledger ◌+ℤ◌ ◌-ℤ◌
late_shop-IsSound = record {
  reconciled = (refl, (refl, tt));
  solvent = (omega arith, (omega arith, tt));
  keyed = (refl, (refl, (refl, tt)));
  distinct = (refl, (refl, tt));
}

late_shop-IsTenantKeyed : IsTenantKeyed late_shop.tenants
late_shop-IsTenantKeyed = (refl, tt)

-- No text is a number of days.
abbrev no_int : String → Option ℕ
no_int s = none

process_saas_expirations-update_where_example :
    process_saas_expirations morning late_shop
    ≡ record late_shop { tenants = suspend late_tenant ∷ [] }
process_saas_expirations-update_where_example =
    process_saas_expirations-update_where morning late_shop late_shop-IsTenantKeyed

check_subscription-is_expired_example :
    check_subscription morning.now past_due (epoch_seconds (some (10 * day_ms))) late_shop
    ≡ err grace_period_over
check_subscription-is_expired_example =
    check_subscription-is_expired morning.now late_tenant (10 * day_ms) late_shop refl (omega arith)
      refl

abbrev paid : String → Notification
paid payment = record {
  request = morning;
  payment = payment;
  subscription_id = some "sub";
  raw_payload = "";
}

process_all-Paid_example : Paid 1 late_shop (process_all (paid "p1" ∷ paid "p1" ∷ []) late_shop)
process_all-Paid_example =
    process_all-Paid (paid "p1" ∷ paid "p1" ∷ []) late_shop 1 late_shop-IsTenantKeyed

process_overdue_customers-IsSound_example :
    IsSound (process_overdue_customers no_int morning late_shop).1
process_overdue_customers-IsSound_example =
    process_overdue_customers-IsSound no_int morning late_shop late_shop-IsSound

process_overdue_customers-again_example :
    process_overdue_customers no_int
      (request (20 * day_ms + 2000) 990)
      (process_overdue_customers no_int morning late_shop).1
    ≡ (0, (process_overdue_customers no_int morning late_shop).1)
process_overdue_customers-again_example =
    process_overdue_customers-again no_int morning (request (20 * day_ms + 2000) 990) late_shop
      late_shop-IsSound.distinct (omega arith)

abbrev purchase : CreateTransactionDto
purchase = record {
  customer_id = 10;
  amount_cents = pos 100;
  description = none;
  idempotency_key = 800;
}

register_debt-process_overdue_customers_example :
    register_debt
      (request (20 * day_ms + 3000) 990)
      1
      7
      purchase
      (process_overdue_customers no_int morning late_shop).1
    ≡ (err customer_blocked, (process_overdue_customers no_int morning late_shop).1)
register_debt-process_overdue_customers_example =
    register_debt-process_overdue_customers no_int morning (request (20 * day_ms + 3000) 990) 7
      late_shop late_ana purchase refl refl
      (by_days (record {
        owner = late_tenant;
        days = 5;
        found = refl;
        set = refl;
        some_days = omega arith;
        readable = refl;
        in_debt = refl;
        late = refl;
      }))
      refl refl

-- A hash with one value, and a decoding that keeps the text.
abbrev constant_hash : Hmac
constant_hash = record { digest = λ secret text. 97 ∷ []; from_hex = λ text. text }

abbrev production : Environment
production = record { secret = 115 ∷ []; is_production = true }

abbrev payment_body : WebhookBody
payment_body = record {
  action = some "payment.created";
  type = none;
  payment_id = given "p1";
  subscription_id = some "sub";
  raw_payload = "";
}

abbrev delivered : Request → Db → ℕ × Db
delivered req db =
    handle_webhook constant_hash production req (signed_header (49 ∷ []) (97 ∷ [])) (50 ∷ [])
      payment_body db

handle_webhook-once_example :
    delivered (request 2000 950) (delivered morning late_shop).1
    ≡ (200, (delivered morning late_shop).1)
unfolding handle_webhook verify_signature process_payment
handle_webhook-once_example =
    handle_webhook-once constant_hash production morning (request 2000 950)
      (signed_header (49 ∷ []) (97 ∷ [])) (50 ∷ []) payment_body late_shop refl refl
