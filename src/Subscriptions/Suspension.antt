-- ===== src/Subscriptions/Suspension.antt =====
-- The job that suspends tenants (backend/src/modules/cron/saas-cron.service.ts), beside an update of
-- the table and beside the guard of the subscription.
use micro_erp_saas.Prelude.{
  ℕ, ◌/◌, ◌≤◌, ◌≡◌, refl, ap, ◌∙◌, true, false, inl, inr, some, List, [], ◌∷◌, ◌==◌, arith,
  Bool-cases, select_where, update_where, any_where,
}
use micro_erp_saas.Entities.{
  Tenant, TenantStatus, trial, active, past_due, suspended, cancelled, is_past_due,
}
use micro_erp_saas.Store.{Db, Request, ok, err, grace_period_over}
use micro_erp_saas.Accounts.Auth.{epoch_seconds}
use micro_erp_saas.Accounts.Guards.{check_subscription, is_grace_over}
use micro_erp_saas.Subscriptions.{
  process_saas_expirations, is_expired, cutoff_date, suspend, suspend_all,
}
use micro_erp_saas.Subscriptions.Keys.{has_id, IsTenantKeyed, put_tenant}

-- What the loop writes.
abbrev put_all : List Tenant → List Tenant → List Tenant
put_all [] ts = ts
put_all (r ∷ rs) ts = put_all rs (put_tenant (suspend r) ts)

suspend_all-put_all :
    (rs : List Tenant) (db : Db)
    → suspend_all rs db ≡ ok (tt, record db { tenants = put_all rs db.tenants })
suspend_all-put_all [] db = refl
suspend_all-put_all (r ∷ rs) db =
    suspend_all-put_all rs (record db { tenants = put_tenant (suspend r) db.tenants })

put_all-head :
    (rs : List Tenant) (t : Tenant) (ts : List Tenant)
    → any_where (has_id t.id) rs ≡ false
    → put_all rs (t ∷ ts) ≡ t ∷ put_all rs ts
put_all-head [] t ts h = refl
put_all-head (r ∷ rs) t ts h =
    let apart : (t.id == r.id) ≡ false = ground arith in
    rw apart (put_all-head rs t (put_tenant (suspend r) ts) (ground arith))

put_all-miss :
    (r : Tenant) (rs ts : List Tenant)
    → any_where (has_id r.id) ts ≡ false
    → put_tenant (suspend r) ts ≡ ts
put_all-miss r rs [] h = refl
put_all-miss r rs (t ∷ ts) h = ground (arith, put_all-miss r rs ts)

any_where-selected :
    (id cutoff : ℕ) (ts : List Tenant)
    → any_where (has_id id) ts ≡ false
    → any_where (has_id id) (select_where (is_expired cutoff) ts) ≡ false
any_where-selected id cutoff [] h = refl
any_where-selected id cutoff (t ∷ ts) h = ground (arith, any_where-selected id cutoff ts)

put_all-update :
    (cutoff : ℕ) (ts : List Tenant)
    → IsTenantKeyed ts
    → put_all (select_where (is_expired cutoff) ts) ts ≡ update_where (is_expired cutoff) suspend ts
put_all-update cutoff [] k = refl
put_all-update cutoff (t ∷ ts) k =
    let free = any_where-selected t.id cutoff ts k.0 in
    let rest = put_all-update cutoff ts k.1 in
    elim (Bool-cases (is_expired cutoff t)) [
      | inl hit ↦
          let same = put_all-miss t [] ts k.0 in
          let first : put_tenant (suspend t) (t ∷ ts) ≡ suspend t ∷ ts = ground (arith, same) in
          let head = put_all-head (select_where (is_expired cutoff) ts) (suspend t) ts free in
          rw hit (
            ap (put_all (select_where (is_expired cutoff) ts)) first
            ∙ head
            ∙ ap (λ r. suspend t ∷ r) rest)
      | inr miss ↦
          let head = put_all-head (select_where (is_expired cutoff) ts) t ts free in
          rw miss (head ∙ ap (λ r. t ∷ r) rest)
    ]

-- The daily job, which finds the expired tenants and saves them one by one, does exactly what one
-- update of the table would: it suspends the tenants whose payment is due since more than three
-- days and touches nothing else, if identifiers of tenants are distinct.
pub process_saas_expirations-update_where :
    (req : Request) (db : Db)
    → IsTenantKeyed db.tenants
    → process_saas_expirations req db
      ≡ record db { tenants = update_where (is_expired (cutoff_date req.now)) suspend db.tenants }
unfolding process_saas_expirations
process_saas_expirations-update_where req db keyed =
    rw
      (
        process_saas_expirations,
        suspend_all-put_all (select_where (is_expired (cutoff_date req.now)) db.tenants) db,
      )
      (ap (λ ts. record db { tenants = ts })
        (put_all-update (cutoff_date req.now) db.tenants keyed))

is_past_due-lem : (s : TenantStatus) → is_past_due s ≡ true → s ≡ past_due
is_past_due-lem trial h = absurd (ground arith)
is_past_due-lem active h = absurd (ground arith)
is_past_due-lem past_due h = refl
is_past_due-lem suspended h = absurd (ground arith)
is_past_due-lem cancelled h = absurd (ground arith)

-- A tenant that the daily job would suspend is refused by the subscription guard already, by the
-- status and the expiry that a login puts into the token, if the expiry is not in the first second
-- of 1970.
pub check_subscription-is_expired :
    (now : ℕ) (t : Tenant) (expires : ℕ) (db : Db)
    → t.subscription_expires_at ≡ some expires
    → 1000 ≤ expires
    → is_expired (cutoff_date now) t ≡ true
    → check_subscription now t.status (epoch_seconds t.subscription_expires_at) db
      ≡ err grace_period_over
unfolding check_subscription
check_subscription-is_expired now t expires db e real gone =
    let late : t.status ≡ past_due = is_past_due-lem t.status (ground arith) in
    let over : is_grace_over now (expires / 1000) ≡ true = ground arith in
    rw (late, e, check_subscription, over) refl
