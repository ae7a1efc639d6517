-- ===== src/Tests/Views.antt =====
-- Settings, audit, figures, links and exports in the shop of the tests.
use micro_erp_saas.Prelude.{
  ℕ, ◌+◌, ◌/◌, ◌≡◌, refl, String, true, false, none, some, [], ◌∷◌, ltb, if◌then◌else◌, arith,
  find_where, ◌==◌,
}
use micro_erp_saas.Prelude.Int.{pos, ◌+ℤ◌}
use micro_erp_saas.Entities.{Tenant, text_setting, debt, payment}
use micro_erp_saas.Store.{ok}
use micro_erp_saas.Tenants.{
  UpdateSettingsDto, SettingsView, find_setting, get_settings, update_settings,
}
use micro_erp_saas.Tenants.Settings.{value_after, get_settings-update_settings}
use micro_erp_saas.Audit.{LoadedCustomer, date_object}
use micro_erp_saas.Dashboard.{DashboardMetrics, get_metrics, mora_ratio_of}
use micro_erp_saas.Dashboard.Receivables.{tenant_ledger, get_metrics-tenant_ledger}
use micro_erp_saas.Dashboard.Export.{Text}
use micro_erp_saas.Dashboard.Export.Reading.{before}
use micro_erp_saas.Dashboard.Export.Restored.{Restored}
use micro_erp_saas.Notifications.{
  TokenService, IsTokenService, SummaryTokenPayload, PublicDebtSummary, summary_payload,
  get_public_summary, is_summary, summary_seconds,
}
use micro_erp_saas.Notifications.Summary.{IsSummaryOf, get_public_summary-IsSummaryOf}
use micro_erp_saas.Tests.Ratio.{ratios}
use micro_erp_saas.Tests.Shop.{request, shop, shop-IsSound, tenant, ana, beto, row}

abbrev new_alias : UpdateSettingsDto
new_alias = record {
  payment_alias = some (some "kiosco.mp");
  currency_symbol = none;
  ticket_header = none;
  auto_block_overdue_days = some (some 5);
  enabled_payment_methods = none;
  default_credit_limit_cents = none;
}

abbrev with_alias : Tenant
with_alias = record tenant { settings = ("payment_alias", text_setting "kiosco.mp") ∷ [] }

abbrev alias_view : SettingsView
alias_view = record { tenant_name = "Kiosco"; settings = with_alias.settings }

get_settings-update_settings_example :
    (old : Tenant) × (find_where (λ t. t.id == 1) shop.tenants ≡ some old)
    × (alias_view.tenant_name ≡ old.tenant_name)
    × ((key : String)
        → find_setting key alias_view.settings
          ≡ value_after new_alias key (find_setting key old.settings))
    × (get_settings 1 (update_settings (request 200 900) 1 new_alias shop).1
        ≡ ok (alias_view, (update_settings (request 200 900) 1 new_alias shop).1))
unfolding update_settings
get_settings-update_settings_example =
    get_settings-update_settings (request 200 900) 1 new_alias shop alias_view refl

-- Ana is blocked and promises to pay.
abbrev loaded : LoadedCustomer
loaded = record { row = ana; promise = none }

abbrev changed : LoadedCustomer
changed = record { row = record ana { is_active = false }; promise = some (date_object 500) }

abbrev figures : DashboardMetrics ratios
figures = record {
  total_receivable_cents = pos 5300;
  total_customers = 2;
  active_debtors = 2;
  blocked_customers = 0;
  overdue_promises = 0;
  today_collections_cents = pos 1000;
  today_debts_cents = pos 6300;
  week_collections_cents = pos 1000;
  week_debts_cents = pos 6300;
  mora_ratio = mora_ratio_of ratios 0 2;
  top_debtors = ana ∷ beto ∷ [];
}

get_metrics-tenant_ledger_example : pos 5300 ≡ tenant_ledger 1 shop.transactions shop.customers
unfolding get_metrics ◌+ℤ◌
get_metrics-tenant_ledger_example =
    get_metrics-tenant_ledger ratios 200 1 shop shop figures shop-IsSound refl

-- A token is its payload and the time of its signature.
abbrev transparent : TokenService
transparent = record {
  Token = SummaryTokenPayload × ℕ;
  sign = λ p now. (p, now);
  verify = λ token later.
      if ltb (later / 1000) (token.1 / 1000 + summary_seconds) then some token.0 else none;
}

transparent-IsTokenService : IsTokenService transparent
transparent-IsTokenService = record {
  verify-sign = λ p now later after before.
      let test : ltb (later / 1000) (now / 1000 + summary_seconds) ≡ true = ground arith in
      rw test refl;
}

abbrev summary : PublicDebtSummary
summary = record {
  business_name = "Kiosco";
  customer_name = "Ana";
  balance_cents = pos 5000;
  recent_debts = row 100 10 debt (pos 6000) ∷ [];
  recent_payments = row 102 10 payment (pos 1000) ∷ [];
  payment_alias = none;
}

get_public_summary-IsSummaryOf_example :
    (p : SummaryTokenPayload) × (transparent.verify (summary_payload 1 10, 300) 400 ≡ some p)
    × (is_summary p.type ≡ true)
    × IsSummaryOf p.tenant_id p.customer_id shop summary
unfolding get_public_summary
get_public_summary-IsSummaryOf_example =
    get_public_summary-IsSummaryOf transparent 400 (summary_payload 1 10, 300) shop shop summary
      refl

-- Dates without a text.
abbrev no_date : ℕ → Text
no_date at = []
