-- ===== src/Tests/Access.antt =====
-- Users and sessions of the shop of the tests, under transparent tokens.
use micro_erp_saas.Prelude.{
  ℕ, ◌+◌, ◌/◌, ◌≡◌, refl, false, none, some, [], ◌∷◌, ltb, if◌then◌else◌, arith,
}
use text.Mathlib.Text.{◌==◌ as str_eq}
use micro_erp_saas.Entities.{admin, cashier, trial}
use micro_erp_saas.Store.{err, session_revoked}
use micro_erp_saas.Accounts.Crypto.{Crypto, JwtPayload, session_seconds}
use micro_erp_saas.Accounts.Users.{deactivate, activate}
use micro_erp_saas.Accounts.Auth.{LoginDto, login_payload}
use micro_erp_saas.Accounts.Strategy.{JwtPayloadUser, validate}
use micro_erp_saas.Accounts.Guards.{Endpoint, admit, check_subscription}
use micro_erp_saas.Accounts.Keys.{IsUserKeyed}
use micro_erp_saas.Accounts.Lifecycle.{start, step, user_activated}
use micro_erp_saas.Accounts.Sessions.{validate-deactivate}
use micro_erp_saas.Accounts.Admission.{IsAdmitted, admit-IsAdmitted}
use micro_erp_saas.Tests.Shop.{request, shop, tenant, helper}

-- A token is its payload and the time of its signature; a hash is the password.
abbrev transparent : Crypto
transparent = record {
  hash = λ password salt. password;
  compare = str_eq;
  Token = JwtPayload × ℕ;
  sign = λ p now. (p, now);
  verify = λ token later.
      if ltb (later / 1000) (token.1 / 1000 + session_seconds)
      then some (record token.0 { iat = some (token.1 / 1000) })
      else none;
  sign_reset =
      λ p now. (record (login_payload helper tenant) { sub = p.sub; email = p.purpose }, now);
  verify_reset = λ token later.
      if ltb (later / 1000) (token.1 / 1000 + 900)
      then some (record { sub = token.0.sub; purpose = token.0.email; iat = token.1 / 1000 })
      else none;
}

shop-IsUserKeyed : IsUserKeyed shop.users
shop-IsUserKeyed = (refl, (refl, tt))

abbrev credentials : LoginDto
credentials = record { email = "beto@kiosco"; password = "secreto" }

abbrev claims : JwtPayload
claims = record (login_payload helper tenant) { iat = some 5 }

-- The helper's token is revoked for good, even if the account comes back.
validate-deactivate_example :
    validate claims
      (activate transparent
        (request 9000 40)
        1
        8
        (deactivate transparent (request 8000 30) 1 8 shop).1).1
    ≡ err session_revoked
unfolding deactivate
validate-deactivate_example =
    validate-deactivate transparent (request 8000 30) 1 claims helper shop
      (activate transparent (request 9000 40) 1 8
        (deactivate transparent (request 8000 30) 1 8 shop).1).1
      shop-IsUserKeyed refl (omega arith) refl (step start (user_activated (request 9000 40) 1 8))

abbrev for_all : Endpoint
for_all = record { skips_subscription = false; roles = admin ∷ cashier ∷ [] }

abbrev helper_session : JwtPayloadUser
helper_session = record {
  id = 8;
  tenant_id = 1;
  role = cashier;
  sub_status = trial;
  sub_expires_at = 0;
}

admit-IsAdmitted_example :
    IsAdmitted transparent 9000 for_all (login_payload helper tenant, 5000) shop helper_session
unfolding admit validate check_subscription
admit-IsAdmitted_example =
    admit-IsAdmitted transparent 9000 for_all (login_payload helper tenant, 5000) shop shop
      helper_session false refl
