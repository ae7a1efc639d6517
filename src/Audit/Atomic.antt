-- ===== src/Audit/Atomic.antt =====
-- The batch of logs that the subscriber of customers' updates inserts.
use micro_erp_saas.Prelude.{ℕ, ◌≤◌, ◌≡◌, false, none, List, [], ◌∷◌, ◌==◌, any_where}
use micro_erp_saas.Entities.{AuditLog}
use micro_erp_saas.Store.{Db, Request}
use micro_erp_saas.Audit.{AuditLogInput}

-- The rows of a batch in front of a table, the last one first.
abbrev pub in_front : List AuditLog → List AuditLog → List AuditLog
in_front [] logs = logs
in_front (e ∷ es) logs = in_front es (e ∷ logs)

-- A log of a customer of the tenant that names no user.
abbrev IsAnonymous : ℕ → AuditLogInput → Type 0
IsAnonymous tenant i = (i.tenant_id ≡ tenant) × (i.user_id ≡ none)

module _ (req : Request) (distinct : (m n : ℕ) → req.uuid m ≡ req.uuid n → m ≡ n) where
  -- No row has an identifier that the request draws from a number on.
  abbrev IsUnused : ℕ → Db → Type 0
  IsUnused n db = (m : ℕ) → n ≤ m → any_where (λ r. r.id == req.uuid m) db.audit_logs ≡ false
