-- ===== src/Accounts/Crypto.antt =====
-- The libraries that hash passwords and sign tokens, as parameters: bcrypt, and the JWT service under
-- the session secret and under the secret of password resets.
use micro_erp_saas.Prelude.{ℕ, ◌+◌, ◌/◌, ◌≤◌, ◌<◌, ◌≡◌, String, Bool, true, Option, some}
use micro_erp_saas.Entities.{UserRole, TenantStatus}

-- `JwtPayload`. The expiry is in seconds, 0 for none; `iat` is the second of the signature.
pub record JwtPayload : Type 0 where
  pub sub : ℕ
  pub tenant_id : ℕ
  pub role : UserRole
  pub email : String
  pub token_version : ℕ
  pub sub_status : TenantStatus
  pub sub_expires_at : ℕ
  pub iat : Option ℕ

-- `ResetTokenPayload`; the purpose is the text of the claim.
pub record ResetTokenPayload : Type 0 where
  pub sub : ℕ
  pub purpose : String
  pub iat : ℕ

-- `hash` takes the password and the random salt; `sign` and `sign_reset` take the time and set the second
-- of the signature; `verify` and `verify_reset` take the time, and fail for a forged or expired token.
pub record Crypto : Type 1 where
  pub hash : String → ℕ → String
  pub compare : String → String → Bool
  pub Token : Type 0
  pub sign : JwtPayload → ℕ → Token
  pub verify : Token → ℕ → Option JwtPayload
  pub sign_reset : ResetTokenPayload → ℕ → Token
  pub verify_reset : Token → ℕ → Option ResetTokenPayload

-- Eight hours, the lifetime of a session token, in seconds.
abbrev pub session_seconds : ℕ
session_seconds = 28800

module _ (k : Crypto) where
  open k use {hash, compare, sign, verify}

  -- A password matches its own hash; a signed token verifies until the second at which it expires,
  -- counted from the second of the signature, and says when it was signed.
  pub record IsCrypto : Type 0 where
    pub compare-hash : (password : String) (salt : ℕ) → compare password (hash password salt) ≡ true
    pub verify-sign :
        (p : JwtPayload) (now later : ℕ)
        → now ≤ later
        → later / 1000 < now / 1000 + session_seconds
        → verify (sign p now) later ≡ some (record p { iat = some (now / 1000) })
