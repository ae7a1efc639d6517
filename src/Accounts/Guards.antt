-- ===== src/Accounts/Guards.antt =====
-- The guards of backend/src/common/guards, in the order of app.module.ts: the token, the role, the
-- subscription.
use micro_erp_saas.Prelude.{
  ℕ, ◌+◌, ◌*◌, Bool, true, false, not, ◌&&◌, List, [], ◌∷◌, ltb, ◌==◌, if◌then◌else◌, any_where,
}
use micro_erp_saas.Entities.{UserRole, admin, cashier, TenantStatus, past_due, suspended}
use micro_erp_saas.Store.{
  Tx, ◌>>=◌, ◌>>◌, pure, or_throw, throw_if, invalid_token, role_required, subscription_suspended,
  grace_period_over,
}
use micro_erp_saas.Accounts.Crypto.{Crypto}
use micro_erp_saas.Accounts.Strategy.{JwtPayloadUser, validate}

-- The decorators of a protected endpoint: @SkipSubscription and @Roles. An endpoint with @Public
-- admits everybody.
pub record Endpoint : Type 0 where
  pub skips_subscription : Bool
  pub roles : List UserRole

abbrev pub is_role : UserRole → UserRole → Bool
is_role admin admin = true
is_role cashier cashier = true
is_role _ _ = false

-- `RolesGuard`: no roles admit every user.
abbrev pub has_role : List UserRole → UserRole → Bool
has_role [] role = true
has_role (r ∷ rs) role = any_where (is_role role) (r ∷ rs)

-- Three days in milliseconds.
abbrev pub grace_ms : ℕ
grace_ms = 259200000

-- The end of the grace period has passed. An expiry of 0 counts as none.
abbrev pub is_grace_over : ℕ → ℕ → Bool
is_grace_over now sub_expires_at =
    not (sub_expires_at == 0) && ltb (sub_expires_at * 1000 + grace_ms) now

-- `SubscriptionGuard` for a protected endpoint; the result tells whether the warning header is set.
unfoldable pub check_subscription : ℕ → TenantStatus → ℕ → Tx Bool
check_subscription now suspended expires = throw_if true subscription_suspended >> pure false
check_subscription now past_due expires =
    throw_if (is_grace_over now expires) grace_period_over >> pure true
check_subscription now _ expires = pure false

-- The guards of a protected endpoint, for a token.
unfoldable pub admit : (k : Crypto) → ℕ → Endpoint → k.Token → Tx (JwtPayloadUser × Bool)
admit k now endpoint token = do
  payload ← or_throw (k.verify token now) invalid_token
  user ← validate payload
  throw_if (not (has_role endpoint.roles user.role)) role_required
  warned ←
      (if endpoint.skips_subscription
        then pure false
        else check_subscription now user.sub_status user.sub_expires_at)
  pure (user, warned)
