-- ===== src/Accounts/Login.antt =====
-- The session that a login opens, and the logins that are refused.
use micro_erp_saas.Prelude.{
  ℕ, ◌≡◌, String, Bool, false, ◌&&◌, inl, inr, some, List, [], ◌∷◌, ◌==◌, arith, Option-cases,
  Bool-cases, find_where, find_where-test, any_where, any_where-find_where,
}
use micro_erp_saas.Entities.{User, Tenant}
use micro_erp_saas.Store.{Db, Request, ok, err, bad_credentials}
use micro_erp_saas.Accounts.Crypto.{Crypto, JwtPayload}
use micro_erp_saas.Accounts.Users.{has_email, clashes_user}
use micro_erp_saas.Accounts.Auth.{LoginDto, login, is_locked_out, epoch_seconds}
use micro_erp_saas.Accounts.Strategy.{validate}
use micro_erp_saas.Accounts.Keys.{is_id, IsUserKeyed}

-- The user with an email is the user with its identifier.
pub find_where-has_email :
    (email : String) (us : List User) (u : User)
    → IsUserKeyed us
    → find_where (has_email email) us ≡ some u
    → find_where (is_id u.id) us ≡ some u
find_where-has_email email [] u k h = absurd (ground arith)
find_where-has_email email (x ∷ xs) u k h = elim (Bool-cases (has_email email x)) [
  | inl hit ↦ ground arith
  | inr miss ↦
      let later : find_where (has_email email) xs ≡ some u = ground arith in
      let apart = any_where-find_where (clashes_user x) (has_email email) xs u k.0 later in
      ground (arith, find_where-has_email email xs u k.1 later)
]

-- The session that a login of a user opens: the tenant's claims, and who the token stands for.
pub record Session (k : Crypto) (db : Db) (u : User) (token : k.Token) (now later : ℕ)
    : Type 0 where
  pub tenant : Tenant
  pub owner : find_where (λ t. t.id == u.tenant_id) db.tenants ≡ some tenant
  pub admitted : is_locked_out tenant.status ≡ false
  pub payload : JwtPayload
  pub verified : k.verify token later ≡ some payload
  pub standing :
      validate payload db
      ≡ ok (
        record {
          id = u.id;
          tenant_id = u.tenant_id;
          role = u.role;
          sub_status = tenant.status;
          sub_expires_at = epoch_seconds tenant.subscription_expires_at;
        },
        db,
      )

-- The user has the email, is active, and the password matches its hash.
abbrev pub knows : Crypto → LoginDto → User → Bool
knows k dto u = has_email dto.email u && u.is_active && k.compare dto.password u.password_hash

-- An unknown email, a blocked account and a wrong password are refused alike.
pub login-bad_credentials :
    (k : Crypto) (req : Request) (dto : LoginDto) (db : Db)
    → any_where (knows k dto) db.users ≡ false
    → login k req dto db ≡ err bad_credentials
unfolding login
login-bad_credentials k req dto db unknown =
    elim (Option-cases (find_where (has_email dto.email) db.users)) [
      | inl absent ↦ ground arith
      | inr (u, found) ↦
          let at = find_where-test (has_email dto.email) db.users u found in
          let miss =
            any_where-find_where (knows k dto) (has_email dto.email) db.users u unknown found in
          ground arith
    ]
