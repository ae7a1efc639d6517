-- ===== src/Tenants.antt =====
-- backend/src/modules/tenants/tenants.service.ts: the settings of a tenant, a JSON object that is read
-- and merged with the fields of a request.
pub mod Settings
use micro_erp_saas.Prelude.{
  ℕ, String, Bool, true, false, Option, none, some, List, [], ◌∷◌, ◌==◌, if◌then◌else◌, find_where,
}
use micro_erp_saas.Prelude.Int.{ℤ}
use text.Mathlib.Text.{◌==◌ as str_eq}
use micro_erp_saas.Entities.{Tenant, PaymentMethod, Setting, text_setting, null_setting}
use micro_erp_saas.Store.{
  Db, Request, Result, Tx, ◌>>=◌, ◌>>◌, pure, gets, or_throw, run_tx, lock_tenant, save_tenant,
  tenant_not_found,
}

-- A field that may be absent, and may be null: the decorator @IsOptional admits both.
abbrev pub Field : Type 0 → Type 0
Field A = Option (Option A)

pub record UpdateSettingsDto : Type 0 where
  pub payment_alias : Field String
  pub currency_symbol : Field String
  pub ticket_header : Field String
  pub auto_block_overdue_days : Field ℕ
  pub enabled_payment_methods : Field (List PaymentMethod)
  pub default_credit_limit_cents : Field ℕ

-- An object of JSON: its keys and values.
abbrev pub Object : Type 0
Object = List (String × Setting)

abbrev pub find_setting : String → Object → Option Setting
find_setting key [] = none
find_setting key (s ∷ ss) = if str_eq s.0 key then some s.1 else find_setting key ss

-- `object.key = value`
abbrev pub set_setting : String → Setting → Object → Object
set_setting key value [] = (key, value) ∷ []
set_setting key value (s ∷ ss) =
    let rest = set_setting key value ss in if str_eq s.0 key then (s.0, value) ∷ ss else s ∷ rest

abbrev pub text_or_null : Option String → Setting
text_or_null none = null_setting
text_or_null (some s) = text_setting s

-- if (field !== undefined) object.key = field
abbrev pub set_field : String → Field String → Object → Object
set_field key none object = object
set_field key (some value) object = set_setting key (text_or_null value) object

abbrev pub updated_settings : UpdateSettingsDto → Object → Object
updated_settings dto object = set_field "ticket_header" dto.ticket_header (
    set_field "currency_symbol" dto.currency_symbol
      (set_field "payment_alias" dto.payment_alias object))

pub record SettingsView : Type 0 where
  pub tenant_name : String
  pub settings : Object

abbrev pub view : Tenant → SettingsView
view t = record { tenant_name = t.tenant_name; settings = t.settings }

unfoldable pub get_settings : ℕ → Tx SettingsView
get_settings tenant = do
  t ← or_throw (← gets (λ db. find_where (λ t. t.id == tenant) db.tenants)) tenant_not_found
  pure (view t)

module _ (req : Request) (tenant : ℕ) where
  abbrev pub settings_body : UpdateSettingsDto → Tx SettingsView
  settings_body dto = do
    t ← lock_tenant req tenant
    let new = record t { settings = updated_settings dto t.settings }
    save_tenant new
    pure (view new)

  unfoldable pub update_settings : UpdateSettingsDto → Db → Result SettingsView × Db
  update_settings dto = run_tx (settings_body dto)
