-- ===== src/Accounts/Strategy.antt =====
-- backend/src/modules/auth/strategies/jwt.strategy.ts: what a verified token is checked for in every
-- request.
use micro_erp_saas.Prelude.{ℕ, ◌*◌, Bool, false, not, Option, some, none, ◌==◌, ltb, find_where}
use micro_erp_saas.Entities.{UserRole, TenantStatus}
use micro_erp_saas.Store.{
  Tx, ◌>>=◌, ◌>>◌, pure, gets, or_throw, throw_if, invalid_token, session_revoked, account_disabled,
  credentials_changed,
}
use micro_erp_saas.Accounts.Crypto.{JwtPayload}

-- `req.user`
pub record JwtPayloadUser : Type 0 where
  pub id : ℕ
  pub tenant_id : ℕ
  pub role : UserRole
  pub sub_status : TenantStatus
  pub sub_expires_at : ℕ

-- The second of the signature lies before the change of the password.
abbrev pub issued_before : ℕ → Option ℕ → Bool
issued_before iat none = false
issued_before iat (some changed) = ltb (iat * 1000) changed

abbrev pub outdated : Option ℕ → Option ℕ → Bool
outdated none changed = false
outdated (some iat) changed = issued_before iat changed

unfoldable pub validate : JwtPayload → Tx JwtPayloadUser
validate payload = do
  user ← or_throw (← gets (λ db. find_where (λ u. u.id == payload.sub) db.users)) invalid_token
  throw_if (not (payload.token_version == user.token_version)) session_revoked
  throw_if (not user.is_active) account_disabled
  throw_if (outdated payload.iat user.password_changed_at) credentials_changed
  pure (record {
    id = user.id;
    tenant_id = user.tenant_id;
    role = user.role;
    sub_status = payload.sub_status;
    sub_expires_at = payload.sub_expires_at;
  })
