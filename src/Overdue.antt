-- ===== src/Overdue.antt =====
-- backend/src/modules/cron/overdue-cron.service.ts: the daily job that marks overdue customers and
-- blocks customers by the settings of their tenant or by their own limit. The service's clock is in
-- UTC. What the job starts without waiting for it runs here in the order in which it is started.
pub mod Marking
pub mod Blocked
pub mod Blocking
pub mod Twice
use micro_erp_saas.Prelude.{
  ℕ, ◌+◌, ◌-◌, ◌*◌, ◌/◌, String, Bool, true, false, not, ◌&&◌, Option, none, some, List, [], ◌∷◌,
  ltb, ◌==◌, if◌then◌else◌, or_else, is_some, length, find_where, select_where, update_where,
  any_where,
}
use micro_erp_saas.Prelude.Int.{ℤ, pos, leb_ℤ}
use micro_erp_saas.Entities.{
  Customer, Tenant, AuditLog, overdue_action, not_overdue_snapshot, overdue_snapshot, Setting,
  text_setting, number_setting, list_setting, null_setting,
}
use micro_erp_saas.Store.{Db, Request}
use micro_erp_saas.Audit.{log_or_skip}
use micro_erp_saas.Tenants.{find_setting}
use micro_erp_saas.Subscriptions.{day_ms, is_before}

-- `setHours(0, 0, 0, 0)`
abbrev pub midnight : ℕ → ℕ
midnight now = day_ms * (now / day_ms)

abbrev pub owes : Customer → Bool
owes c = not (leb_ℤ c.balance_cents (pos 0))

-- The three conditions of the query: the promise has passed, there is a debt, not marked yet.
abbrev pub is_candidate : ℕ → Customer → Bool
is_candidate today c = is_before today c.next_payment_promise && owes c && not c.is_overdue

abbrev pub mark_overdue : Customer → Customer
mark_overdue c = record c { is_overdue = true }

-- UPDATE … SET is_overdue = true WHERE id IN (:ids)
abbrev pub mark_ids : List ℕ → List Customer → List Customer
mark_ids ids = update_where (λ c. any_where (λ id. id == c.id) ids) mark_overdue

abbrev pub ids_of : List Customer → List ℕ
ids_of [] = []
ids_of (c ∷ cs) = c.id ∷ ids_of cs

-- The column of the promise is of type `date`, which is read as a text, so the snapshot has no date.
abbrev pub overdue_log : Request → ℕ → Customer → AuditLog
overdue_log req n c = record {
  id = req.uuid n;
  tenant_id = c.tenant_id;
  user_id = none;
  action = overdue_action;
  entity_type = "Customer";
  entity_id = c.id;
  old_value = some not_overdue_snapshot;
  new_value = some (overdue_snapshot c.balance_cents none);
  ip_address = none;
  created_at = req.now;
}

-- `insertAuditLogsFireAndForget`, with the draws of the request from a number on.
abbrev pub insert_audit_logs : Request → ℕ → List Customer → Db → Db
insert_audit_logs req n [] db = db
insert_audit_logs req n (c ∷ cs) db =
    insert_audit_logs req (n + 1) cs (log_or_skip (overdue_log req n c) db)

-- The cast `::int` of a text is a parameter; none is the error of a cast.
abbrev pub days_of : (String → Option ℕ) → Option Setting → Option ℕ
days_of to_int none = some 0
days_of to_int (some (number_setting n)) = if ltb n 2147483648 then some n else none
days_of to_int (some (text_setting s)) = to_int s
days_of to_int (some (list_setting l)) = none
days_of to_int (some null_setting) = some 0

-- `settings.auto_block_overdue_days`
abbrev pub auto_block_days : (String → Option ℕ) → Tenant → Option ℕ
auto_block_days to_int t = days_of to_int (find_setting "auto_block_overdue_days" t.settings)

abbrev pub block : Customer → Customer
block c = record c { is_active = false }

-- WHERE tenant_id = :tenant AND is_overdue AND is_active AND balance_cents > 0 AND
-- next_payment_promise < :cutoff
abbrev pub is_long_overdue : ℕ → ℕ → Customer → Bool
is_long_overdue tenant cutoff c =
    c.tenant_id == tenant
    && (c.is_overdue && (c.is_active && (owes c && is_before cutoff c.next_payment_promise)))

abbrev pub update_customers : (Customer → Bool) → (Customer → Customer) → Db → Db
update_customers test change db = record db { customers = update_where test change db.customers }

-- The loop over the tenants, of which the query keeps those with some days.
abbrev pub block_long_overdue : (String → Option ℕ) → ℕ → List Tenant → Db → Db
block_long_overdue to_int now [] db = db
block_long_overdue to_int now (t ∷ ts) db =
    let days = or_else (auto_block_days to_int t) 0 in
    let cutoff = midnight (now - days * day_ms) in
    let db1 = if days == 0 then db else update_customers (is_long_overdue t.id cutoff) block db in
    block_long_overdue to_int now ts db1

-- `processAutoBlocks`. A setting that is no integer fails the query for every tenant.
abbrev pub process_auto_blocks : (String → Option ℕ) → ℕ → Db → Db
process_auto_blocks to_int now db =
    let blocked = block_long_overdue to_int now db.tenants db in
    if any_where (λ t. not (is_some (auto_block_days to_int t))) db.tenants then db else blocked

-- WHERE auto_block_on_limit AND is_active AND credit_limit_cents > 0 AND balance_cents >= credit_limit_cents
abbrev pub is_over_limit : Customer → Bool
is_over_limit c =
    c.auto_block_on_limit
    && (c.is_active
        && (not (leb_ℤ c.credit_limit_cents (pos 0)) && leb_ℤ c.credit_limit_cents c.balance_cents))

-- `processAutoBlockOnLimit`
abbrev pub process_auto_block_on_limit : Db → Db
process_auto_block_on_limit = update_customers is_over_limit block

-- What follows for the candidates; none ends the job.
abbrev pub process_candidates : (String → Option ℕ) → Request → List Customer → Db → ℕ × Db
process_candidates to_int req [] db = (0, db)
process_candidates to_int req (c ∷ cs) db =
    let marked = record db { customers = mark_ids (ids_of (c ∷ cs)) db.customers } in
    let logged = insert_audit_logs req 0 (c ∷ cs) marked in
    let blocked = process_auto_blocks to_int req.now logged in
    (length (c ∷ cs), process_auto_block_on_limit blocked)

-- `processOverdueCustomers`: how many customers were marked, and the database.
unfoldable pub process_overdue_customers : (String → Option ℕ) → Request → Db → ℕ × Db
process_overdue_customers to_int req db =
    process_candidates to_int req (select_where (is_candidate (midnight req.now)) db.customers) db
