-- ===== src/Audit.antt =====
-- The audit log: backend/src/modules/audit/audit.service.ts, and the subscriber of customers' updates
-- in backend/src/modules/audit/subscribers/customer-audit.subscriber.ts.
pub mod Atomic
use micro_erp_saas.Prelude.{
  ℕ, ◌+◌, String, Bool, true, false, not, ◌&&◌, Option, none, some, List, [], ◌∷◌, ◌++◌, ◌==◌,
  if◌then◌else◌, same_id, any_where,
}
use micro_erp_saas.Prelude.Int.{ℤ, eqb_ℤ}
use micro_erp_saas.Entities.{
  Customer, AuditLog, AuditAction, credit_limit_action, block_action, promise_action, Snapshot,
  credit_limit_snapshot, active_snapshot, promise_snapshot,
}
use micro_erp_saas.Store.{
  has_tenant, has_user, Db, Request, Result, Tx, ◌>>=◌, ◌>>◌, throw_where, modify, run_tx,
  query_failed,
}

abbrev pub known_user : Option ℕ → Db → Bool
known_user none db = true
known_user (some id) db = has_user id db

-- `AuditService.log`: an INSERT under the primary key and the foreign keys of the tenant and the user.
abbrev pub log : AuditLog → Tx Unit
log entry = do
  throw_where (λ db. not (has_tenant entry.tenant_id db && known_user entry.user_id db))
      query_failed
  throw_where (λ db. any_where (λ r. r.id == entry.id) db.audit_logs) query_failed
  modify (λ db. record db { audit_logs = entry ∷ db.audit_logs })

-- The log in a block that absorbs its error.
abbrev pub log_or_skip : AuditLog → Db → Db
log_or_skip entry db = (run_tx (log entry) db).1

-- A date in an entity: a `Date` object, or the text that the driver reads from a column of type `date`.
pub data DateValue : Type 0 where
  date_object date_text : ℕ → DateValue

-- `value instanceof Date ? value.toISOString() : null`
abbrev pub iso_of : Option DateValue → Option ℕ
iso_of (some (date_object at)) = some at
iso_of (some (date_text at)) = none
iso_of none = none

-- A customer in the memory of the service: the row, and what stands for its promise.
pub record LoadedCustomer : Type 0 where
  pub row : Customer
  pub promise : Option DateValue

-- A log to insert: the identifier and the time come with the INSERT.
pub record AuditLogInput : Type 0 where
  pub tenant_id : ℕ
  pub user_id : Option ℕ
  pub action : AuditAction
  pub entity_type : String
  pub entity_id : ℕ
  pub old_value : Snapshot
  pub new_value : Snapshot
  pub ip_address : Option String

abbrev pub log_input : Customer → AuditAction → Snapshot → Snapshot → AuditLogInput
log_input c action old new = record {
  tenant_id = c.tenant_id;
  user_id = none;
  action = action;
  entity_type = "Customer";
  entity_id = c.id;
  old_value = old;
  new_value = new;
  ip_address = none;
}

abbrev pub same_active : Bool → Bool → Bool
same_active true b = b
same_active false b = not b

-- if (changed) logs.push(input)
abbrev pub push_if : Bool → AuditLogInput → List AuditLogInput
push_if true input = input ∷ []
push_if false input = []

-- The differences that `afterUpdate` logs, between the entity that was read and the one that was saved.
unfoldable pub diff_logs : LoadedCustomer → LoadedCustomer → List AuditLogInput
diff_logs previous updated =
    let p = previous.row in
    let u = updated.row in
    let old_promise = iso_of previous.promise in
    let new_promise = iso_of updated.promise in
    push_if (not (eqb_ℤ p.credit_limit_cents u.credit_limit_cents)) (
      log_input u credit_limit_action (credit_limit_snapshot p.credit_limit_cents)
        (credit_limit_snapshot u.credit_limit_cents))
    ++ (push_if (not (same_active p.is_active u.is_active))
          (log_input u block_action (active_snapshot p.is_active) (active_snapshot u.is_active))
        ++ push_if (not (same_id old_promise new_promise)) (
            log_input u promise_action (promise_snapshot old_promise)
              (promise_snapshot new_promise)))

-- The rows of a batch INSERT, with the draws of the request from a number on.
abbrev pub log_rows : Request → ℕ → List AuditLogInput → List AuditLog
log_rows req n [] = []
log_rows req n (i ∷ is) =
    record {
      id = req.uuid n;
      tenant_id = i.tenant_id;
      user_id = i.user_id;
      action = i.action;
      entity_type = i.entity_type;
      entity_id = i.entity_id;
      old_value = some i.old_value;
      new_value = some i.new_value;
      ip_address = i.ip_address;
      created_at = req.now;
    }
    ∷ log_rows req (n + 1) is

abbrev pub log_all : List AuditLog → Tx Unit
log_all [] = modify (λ db. db)
log_all (e ∷ es) = log e >> log_all es

-- `afterUpdate`: all logs are inserted or none is, and an error is not passed on.
unfoldable pub after_update : Request → Option LoadedCustomer → Option LoadedCustomer → Db → Db
after_update req none updated db = db
after_update req (some previous) none db = db
after_update req (some previous) (some updated) db =
    (run_tx (log_all (log_rows req 0 (diff_logs previous updated))) db).1
