-- ===== src/Tenants/Settings.antt =====
-- What a change of the settings leaves under each key.
use micro_erp_saas.Prelude.{
  ℕ, ◌≡◌, refl, sym, subst, ◌∙◌, String, true, false, inl, inr, Option, none, some, [], ◌∷◌,
  if◌then◌else◌, arith, Bool-cases, Option-cases, find_where, find_where-test,
}
use text.Mathlib.Text.{◌==◌ as str_eq}
use text.Mathlib.TextEquality.{eq_iff}
use micro_erp_saas.Entities.{Tenant, Setting}
use micro_erp_saas.Store.{Db, Request, ok}
use micro_erp_saas.Store.Commit.{run_tx_ok_ind}
use micro_erp_saas.Subscriptions.Keys.{has_id, find_where-put_tenant, put_tenant}
use micro_erp_saas.Tenants.{
  UpdateSettingsDto, Field, Object, find_setting, set_setting, text_or_null, set_field,
  updated_settings, SettingsView, view, get_settings, settings_body, update_settings,
}

str_apart : (a b c : String) → a ≡ c → str_eq a b ≡ false → str_eq b c ≡ false
str_apart a b c e apart = elim (Bool-cases (str_eq b c)) [
  | inl h ↦
      let same : a ≡ b = e ∙ sym ((eq_iff b c).0 h) in
      absurd (ground (arith, apart, (eq_iff a b).1 same))
  | inr h ↦ h
]

-- A key that is set is found with its value; any other is found as before.
pub find_setting-set_setting :
    (key other : String) (value : Setting) (object : Object)
    → find_setting other (set_setting key value object)
      ≡ (if str_eq key other then some value else find_setting other object)
find_setting-set_setting key other value [] = refl
find_setting-set_setting key other value (s ∷ ss) = elim (Bool-cases (str_eq s.0 key)) [
  | inl same ↦
      let e : s.0 ≡ key = (eq_iff s.0 key).0 same in
      rw (same, e) (elim (Bool-cases (str_eq key other)) [ inl h ↦ rw h refl | inr h ↦ rw h refl ])
  | inr apart ↦ elim (Bool-cases (str_eq s.0 other)) [
    | inl here ↦
        let e : s.0 ≡ other = (eq_iff s.0 other).0 here in
        let no : str_eq key other ≡ false = str_apart s.0 key other e apart in
        rw (apart, here, no) refl
    | inr later ↦ rw (apart, later) (find_setting-set_setting key other value ss)
  ]
]

-- The value of a field that the request has, else the value before.
abbrev pub or_before : Field String → Option Setting → Option Setting
or_before none before = before
or_before (some value) before = some (text_or_null value)

-- What a key holds after the request: three keys have a field.
abbrev pub value_after : UpdateSettingsDto → String → Option Setting → Option Setting
value_after dto key before =
    if str_eq "ticket_header" key
    then or_before dto.ticket_header before
    else (if str_eq "currency_symbol" key
        then or_before dto.currency_symbol before
        else (if str_eq "payment_alias" key then or_before dto.payment_alias before else before))

find_setting-set_field :
    (key other : String) (field : Field String) (object : Object)
    → find_setting other (set_field key field object) ≡ (
        if str_eq key other
        then or_before field (find_setting other object)
        else find_setting other object)
find_setting-set_field key other none object = elim (Bool-cases (str_eq key other)) [
  | inl h ↦ rw h refl
  | inr h ↦ rw h refl
]
find_setting-set_field key other (some value) object =
    find_setting-set_setting key other (text_or_null value) object

str_key : (a b key : String) → str_eq a key ≡ true → str_eq b a ≡ false → str_eq b key ≡ false
str_key a b key h apart = let e : a ≡ key = (eq_iff a key).0 h in rw (← e) apart

find_setting-updated_settings :
    (dto : UpdateSettingsDto) (key : String) (object : Object)
    → find_setting key (updated_settings dto object) ≡ value_after dto key (find_setting key object)
find_setting-updated_settings dto key object =
    let o1 = set_field "payment_alias" dto.payment_alias object in
    let o2 = set_field "currency_symbol" dto.currency_symbol o1 in
    let a = find_setting-set_field "payment_alias" key dto.payment_alias object in
    let b = find_setting-set_field "currency_symbol" key dto.currency_symbol o1 in
    let c = find_setting-set_field "ticket_header" key dto.ticket_header o2 in
    elim (Bool-cases (str_eq "ticket_header" key)) [
      | inl h ↦
          let e : "ticket_header" ≡ key = (eq_iff "ticket_header" key).0 h in
          let no_b = str_key "ticket_header" "currency_symbol" key h refl in
          let no_a = str_key "ticket_header" "payment_alias" key h refl in
          ground (arith, a, b, c, h, no_a, no_b)
      | inr h ↦ elim (Bool-cases (str_eq "currency_symbol" key)) [
        | inl h2 ↦
            let no_a = str_key "currency_symbol" "payment_alias" key h2 refl in
            ground (arith, a, b, c, h, h2, no_a)
        | inr h2 ↦ ground (arith, a, b, c, h, h2)
      ]
    ]

-- The settings of a tenant after a request.
pub record Updated (req : Request) (tenant : ℕ) (dto : UpdateSettingsDto) (db db' : Db)
    : Type 0 where
  pub old : Tenant
  pub new : Tenant
  pub found : find_where (has_id tenant) db.tenants ≡ some old
  pub saved : find_where (has_id tenant) db'.tenants ≡ some new
  pub same_name : new.tenant_name ≡ old.tenant_name
  pub settings : new.settings ≡ updated_settings dto old.settings

module _ (req : Request) (tenant : ℕ) (dto : UpdateSettingsDto) (db : Db) (v : SettingsView) where
  update_settings-Updated :
      ((update_settings req tenant dto db).0 ≡ ok v)
      → (u : Updated req tenant dto db (update_settings req tenant dto db).1) × (v ≡ view u.new)
  unfolding update_settings
  update_settings-Updated =
      run_tx_ok_ind (λ d. (u : Updated req tenant dto db d) × (v ≡ view u.new))
        (settings_body req tenant dto) db v
        (λ db' ran. elim (Option-cases (find_where (has_id tenant) db.tenants)) [
          | inl absent ↦ absurd (ground arith)
          | inr (t, found) ↦
              let at = find_where-test (has_id tenant) db.tenants t found in
              let new : Tenant = record t { settings = updated_settings dto t.settings } in
              let rows : db'.tenants ≡ put_tenant new db.tenants = ground arith in
              let same : t.id ≡ tenant = ground arith in
              let put =
                find_where-put_tenant tenant t new db.tenants refl
                  (subst (λ i. find_where (has_id i) db.tenants ≡ some t) (sym same) found) in
              (
                record {
                  old = t;
                  new = new;
                  found = found;
                  saved = rw rows (ground (arith, put, same));
                  same_name = refl;
                  settings = refl;
                },
                ground arith,
              )
        ])

  -- After a successful `updateSettings`, `getSettings` returns what it has answered, which has the
  -- name of the tenant, under each of its three keys the value of the request where the request has
  -- one, and under every other key what was there before.
  pub get_settings-update_settings :
      (update_settings req tenant dto db).0 ≡ ok v
      → (old : Tenant) × (find_where (has_id tenant) db.tenants ≡ some old)
        × (v.tenant_name ≡ old.tenant_name)
        × ((key : String)
            → find_setting key v.settings ≡ value_after dto key (find_setting key old.settings))
        × (get_settings tenant (update_settings req tenant dto db).1
            ≡ ok (v, (update_settings req tenant dto db).1))
  unfolding get_settings
  get_settings-update_settings done =
      let u = update_settings-Updated done in
      (
        u.0.old,
        u.0.found,
        rw u.1 u.0.same_name,
        λ key. rw (u.1, u.0.settings) (find_setting-updated_settings dto key u.0.old.settings),
        rw (u.0.saved, u.1) refl,
      )
