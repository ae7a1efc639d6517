-- ===== src/Accounts.antt =====
-- Users and sessions: backend/src/modules/users, backend/src/modules/auth and the guards of
-- backend/src/common/guards.
pub mod Crypto
pub mod Users
pub mod Auth
pub mod Strategy
pub mod Guards
pub mod Keys
pub mod Revocation
pub mod Lifecycle
pub mod Sessions
pub mod Login
pub mod Admission
