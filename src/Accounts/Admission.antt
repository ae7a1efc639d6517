-- ===== src/Accounts/Admission.antt =====
-- The guards of a protected endpoint, as a handler relies on them.
use micro_erp_saas.Prelude.{
  ℕ, ◌≡◌, refl, Bool, true, false, inl, inr, some, arith, Option-cases, Bool-cases, find_where,
}
use micro_erp_saas.Entities.{
  User, TenantStatus, trial, active, past_due, suspended, cancelled, is_past_due,
}
use micro_erp_saas.Store.{Db, ok}
use micro_erp_saas.Accounts.Crypto.{Crypto, JwtPayload}
use micro_erp_saas.Accounts.Strategy.{JwtPayloadUser, validate, outdated}
use micro_erp_saas.Accounts.Guards.{Endpoint, admit, has_role, check_subscription, is_grace_over}
use micro_erp_saas.Accounts.Keys.{is_id}

abbrev pub is_suspended : TenantStatus → Bool
is_suspended suspended = true
is_suspended _ = false

-- The claims of a token whose subscription may use the endpoint.
pub data MayUse (now : ℕ) (endpoint : Endpoint) (p : JwtPayload) : Type 0 where
  skipped : endpoint.skips_subscription ≡ true → MayUse now endpoint p
  paid :
      is_suspended p.sub_status ≡ false → is_past_due p.sub_status ≡ false → MayUse now endpoint p
  in_grace :
      p.sub_status ≡ past_due → is_grace_over now p.sub_expires_at ≡ false → MayUse now endpoint p

pub record IsAdmitted (k : Crypto) (now : ℕ) (endpoint : Endpoint) (token : k.Token) (db : Db)
    (who : JwtPayloadUser) : Type 0 where
  pub payload : JwtPayload
  pub verified : k.verify token now ≡ some payload
  pub user : User
  pub found : find_where (is_id payload.sub) db.users ≡ some user
  pub current : payload.token_version ≡ user.token_version
  pub is_enabled : user.is_active ≡ true
  pub is_fresh : outdated payload.iat user.password_changed_at ≡ false
  pub same_id : who.id ≡ user.id
  pub same_tenant : who.tenant_id ≡ user.tenant_id
  pub permitted : has_role endpoint.roles user.role ≡ true
  pub subscribed : MayUse now endpoint payload

-- What passes the check of the subscription.
check_subscription-MayUse :
    (now : ℕ) (endpoint : Endpoint) (p : JwtPayload) (db db' : Db) (status : TenantStatus)
    (warned : Bool)
    → p.sub_status ≡ status
    → check_subscription now status p.sub_expires_at db ≡ ok (warned, db')
    → MayUse now endpoint p
unfolding check_subscription
check_subscription-MayUse now endpoint p db db' trial warned e ran = paid (rw e refl) (rw e refl)
check_subscription-MayUse now endpoint p db db' active warned e ran = paid (rw e refl) (rw e refl)
check_subscription-MayUse now endpoint p db db' past_due warned e ran = in_grace e (ground arith)
check_subscription-MayUse now endpoint p db db' suspended warned e ran = absurd (ground arith)
check_subscription-MayUse now endpoint p db db' cancelled warned e ran =
    paid (rw e refl) (rw e refl)

-- Whom the guards of a protected endpoint admit holds a token that verifies, and is a user that is
-- in the database now, is active, has the version of the token and no change of password after its
-- signature, and has one of the roles of the endpoint; the handler gets the identifier and the
-- tenant of that row, and the subscription in the token is not suspended or is in its days of
-- grace, unless the endpoint skips that check.
pub admit-IsAdmitted :
    (k : Crypto) (now : ℕ) (endpoint : Endpoint) (token : k.Token) (db db' : Db)
    (who : JwtPayloadUser) (warned : Bool)
    → admit k now endpoint token db ≡ ok ((who, warned), db')
    → IsAdmitted k now endpoint token db who
unfolding admit validate
admit-IsAdmitted k now endpoint token db db' who warned ran =
    elim (Option-cases (k.verify token now)) [
      | inl forged ↦ absurd (ground arith)
      | inr (p, verified) ↦ elim (Option-cases (find_where (is_id p.sub) db.users)) [
        | inl absent ↦ absurd (ground arith)
        | inr (u, found) ↦ record {
          payload = p;
          verified = verified;
          user = u;
          found = found;
          current = ground arith;
          is_enabled = ground arith;
          is_fresh = ground arith;
          same_id = ground arith;
          same_tenant = ground arith;
          permitted = ground arith;
          subscribed = elim (Bool-cases endpoint.skips_subscription) [
            | inl free ↦ skipped free
            | inr bound ↦
                check_subscription-MayUse now endpoint p db db' p.sub_status warned refl
                  (ground arith)
          ];
        }
      ]
    ]
