-- ===== src/Accounts/Auth.antt =====
-- backend/src/modules/auth/auth.service.ts: registration of a tenant, login, and the reset of a
-- password by a signed link. The cache of processed reset keys is an argument and a result.
use micro_erp_saas.Prelude.{
  ℕ, ◌/◌, String, Bool, true, false, not, Option, some, none, [], ◌∷◌, ◌==◌, if◌then◌else◌,
  find_where, any_where,
}
use text.Mathlib.Text.{◌==◌ as str_eq}
use micro_erp_saas.Entities.{User, admin, Tenant, TenantStatus, trial, suspended, cancelled}
use micro_erp_saas.Store.{
  throw, Db, Request, Error, Result, ok, err, Tx, ◌>>=◌, ◌>>◌, pure, gets, or_throw, throw_if,
  throw_where, modify, run_tx, query_failed, email_taken, bad_credentials, tenant_suspended,
  invalid_link, misused_token, link_used, user_not_found, lock_timeout, update_failed,
}
use micro_erp_saas.Accounts.Crypto.{Crypto, JwtPayload, ResetTokenPayload}
use micro_erp_saas.Accounts.Users.{
  CreateUserDto, has_email, insert_user, save_user, new_user, with_password,
}
use micro_erp_saas.Accounts.Strategy.{issued_before}

pub record RegisterTenantDto : Type 0 where
  pub tenant_name : String
  pub email : String
  pub password : String
  pub name : String
  pub phone : Option String

pub record LoginDto : Type 0 where
  pub email : String
  pub password : String

abbrev pub insert_tenant : Tenant → Tx Unit
insert_tenant t = do
  throw_where (λ db. any_where (λ r. r.id == t.id) db.tenants) query_failed
  modify (λ db. record db { tenants = t ∷ db.tenants })

-- A new row, with the defaults of the entity.
abbrev pub new_tenant : Request → RegisterTenantDto → Tenant
new_tenant req dto = record {
  id = req.uuid 0;
  tenant_name = dto.tenant_name;
  subscription_plan = "FREE";
  status = trial;
  mp_subscription_id = none;
  subscription_expires_at = none;
  settings = [];
  active_cash_shift_id = none;
  created_at = req.now;
}

abbrev pub first_user : RegisterTenantDto → CreateUserDto
first_user dto = record {
  email = dto.email;
  password = dto.password;
  name = dto.name;
  phone = dto.phone;
}

-- The statuses that refuse a login.
abbrev pub is_locked_out : TenantStatus → Bool
is_locked_out suspended = true
is_locked_out cancelled = true
is_locked_out _ = false

-- `Math.floor(ms / 1000)`, or 0 for no date.
abbrev pub epoch_seconds : Option ℕ → ℕ
epoch_seconds none = 0
epoch_seconds (some ms) = ms / 1000

abbrev pub login_payload : User → Tenant → JwtPayload
login_payload u t = record {
  sub = u.id;
  tenant_id = u.tenant_id;
  role = u.role;
  email = u.email;
  token_version = u.token_version;
  sub_status = t.status;
  sub_expires_at = epoch_seconds t.subscription_expires_at;
  iat = none;
}

-- The errors of the reset that are passed on; any other becomes a general one.
abbrev pub reset_error : Error → Error
reset_error user_not_found = user_not_found
reset_error link_used = link_used
reset_error _ = update_failed

abbrev pub reset_result : Result Unit → Result Unit
reset_result (ok u) = ok u
reset_result (err e) = err (reset_error e)

module _ (k : Crypto) (req : Request) where
  abbrev pub register_body : RegisterTenantDto → Tx Unit
  register_body dto = do
    throw_where (λ db. any_where (has_email dto.email) db.users) email_taken
    insert_tenant (new_tenant req dto)
    insert_user (new_user k req (req.uuid 2) (req.uuid 1) (req.uuid 0) admin (first_user dto))

  unfoldable pub register : RegisterTenantDto → Db → Result Unit × Db
  register dto = run_tx (register_body dto)

  -- The user is read together with the tenant that its foreign key names.
  unfoldable pub login : LoginDto → Tx k.Token
  login dto = do
    user ← or_throw (← gets (λ db. find_where (has_email dto.email) db.users)) bad_credentials
    throw_if (not user.is_active) bad_credentials
    throw_if (not (k.compare dto.password user.password_hash)) bad_credentials
    tenant ←
        or_throw (← gets (λ db. find_where (λ t. t.id == user.tenant_id) db.tenants)) query_failed
    throw_if (is_locked_out tenant.status) tenant_suspended
    pure (k.sign (login_payload user tenant) req.now)

  -- The transaction of the reset, for a payload that has been verified. `auditService.log` inserts its
  -- row on a connection of its own, where the foreign key of `user_id` waits for the user's row. This
  -- transaction holds that row under FOR UPDATE until the insert has ended, so the insert can only
  -- end by an error.
  abbrev pub reset_body : ResetTokenPayload → String → Tx Unit
  reset_body payload new_password = do
    throw_if (not req.lock_granted) lock_timeout
    user ← or_throw (← gets (λ db. find_where (λ u. u.id == payload.sub) db.users)) user_not_found
    throw_if (issued_before payload.iat user.password_changed_at) link_used
    save_user (with_password (k.hash new_password (req.uuid 0)) req.now user)
    throw query_failed

  abbrev pub reset_with : ResetTokenPayload → String → Db → Result Unit × Db
  reset_with payload new_password db =
      let done = run_tx (reset_body payload new_password) db in
      if str_eq payload.purpose "pwd_reset"
      then (reset_result done.0, done.1)
      else (err misused_token, db)

  -- `none` is a forged or expired link.
  abbrev pub reset_verified : Option ResetTokenPayload → String → Db → Result Unit × Db
  reset_verified none new_password db = (err invalid_link, db)
  reset_verified (some payload) new_password db = reset_with payload new_password db

  -- A request whose key is in the cache is answered as a success.
  unfoldable pub execute_password_reset : Bool → k.Token → String → Db → Result Unit × Db
  execute_password_reset duplicate token new_password db =
      let done = reset_verified (k.verify_reset token req.now) new_password db in
      if duplicate then (ok tt, db) else done

  -- What is queued for the mail.
  abbrev pub reset_mail : Option User → Option (String × k.Token)
  reset_mail none = none
  reset_mail (some user) =
      some (
        user.email,
        k.sign_reset (record { sub = user.id; purpose = "pwd_reset"; iat = 0 }) req.now,
      )

  -- `requestPasswordReset`: the mail that is queued, if any. The answer is the same text either way.
  unfoldable pub request_password_reset : String → Db → Option (String × k.Token)
  request_password_reset email db = reset_mail (find_where (has_email email) db.users)
