-- ===== src/Subscriptions/Payments.antt =====
-- What a sequence of payments adds up to.
use micro_erp_saas.Prelude.{
  ℕ, ◌+◌, ◌*◌, ◌≡◌, refl, String, Bool, true, false, inl, inr, Option, some, List, [], ◌∷◌, ◌==◌,
  length, arith, Bool-cases, Option-cases, find_where, select_where, any_where,
}
use text.Mathlib.TextPositions.{eq_refl}
use micro_erp_saas.Entities.{Tenant, BillingEvent}
use micro_erp_saas.Store.{Db, Request, ok, run_tx}
use micro_erp_saas.Store.Commit.{run_tx_ind, run_tx_ok_ind}
use micro_erp_saas.Subscriptions.{
  process_payment, process_body, new_event, extended, has_payment, has_subscription,
  subscription_or_test, day_ms,
}
use micro_erp_saas.Subscriptions.Keys.{
  has_id, IsTenantKeyed, put_tenant, find_where-has_id, find_where-put_tenant,
  put_tenant-IsTenantKeyed,
}

-- The payments that are recorded for a tenant.
abbrev pub payments_of : ℕ → List BillingEvent → ℕ
payments_of id es = length (select_where (λ e. e.tenant_id == id) es)

-- The tenant is there, and its subscription ends at a time.
pub record Expires (db : Db) (id at : ℕ) : Type 0 where
  pub tenant : Tenant
  pub found : find_where (has_id id) db.tenants ≡ some tenant
  pub expiry : tenant.subscription_expires_at ≡ some at

-- The end of a tenant's subscription and the payments recorded for it grow together.
pub record Paid (id : ℕ) (db db' : Db) : Type 0 where
  pub keyed : IsTenantKeyed db'.tenants
  pub extends :
      (at : ℕ)
      → Expires db id at
      → (at' : ℕ) × (Expires db' id at')
        × (at' + 30 * day_ms * payments_of id db.billing_events
            ≡ at + 30 * day_ms * payments_of id db'.billing_events)

payments_of-hit :
    (id : ℕ) (e : BillingEvent) (es : List BillingEvent)
    → (id == e.tenant_id) ≡ true
    → payments_of id (e ∷ es) ≡ payments_of id es + 1
payments_of-hit id e es h = ground arith

payments_of-miss :
    (id : ℕ) (e : BillingEvent) (es : List BillingEvent)
    → (id == e.tenant_id) ≡ false
    → payments_of id (e ∷ es) ≡ payments_of id es
payments_of-miss id e es h = ground arith

-- What a payment writes, for the tenant it found.
module _ (req : Request) (payment raw_payload : String) (t : Tenant) (db db' : Db) (id : ℕ)
    (keyed : IsTenantKeyed db.tenants) (test : Tenant → Bool)
    (found : find_where test db.tenants ≡ some t)
    (events : db'.billing_events ≡ new_event req payment raw_payload t ∷ db.billing_events)
    (tenants : db'.tenants ≡ put_tenant (extended req.now t) db.tenants) where
  own : find_where (has_id t.id) db.tenants ≡ some t
  own = find_where-has_id test db.tenants t keyed found

  credit-extends :
      (at : ℕ)
      → Expires db id at
      → (at' : ℕ) × (Expires db' id at')
        × (at' + 30 * day_ms * payments_of id db.billing_events
            ≡ at + 30 * day_ms * payments_of id db'.billing_events)
  credit-extends at x =
      let put = find_where-put_tenant id t (extended req.now t) db.tenants refl own in
      elim (Bool-cases (id == t.id)) [
        | inl mine ↦
            let same : x.tenant ≡ t = ground (arith, x.found, own) in
            let from : t.subscription_expires_at ≡ some at = rw (← same) x.expiry in
            (
              at + 30 * day_ms,
              record {
                tenant = extended req.now t;
                found = rw (tenants, put, mine) refl;
                expiry = rw from refl;
              },
              rw
                  (
                    events,
                    payments_of-hit id (new_event req payment raw_payload t) db.billing_events mine,
                  )
                  (omega arith),
            )
        | inr other ↦ (
          at,
          record { tenant = x.tenant; found = rw (tenants, put, other) x.found; expiry = x.expiry },
          rw
              (
                events,
                payments_of-miss id (new_event req payment raw_payload t) db.billing_events other,
              )
              refl,
        )
      ]

process_payment-Paid :
    (req : Request) (payment : String) (subscription_id : Option String) (raw_payload : String)
    (db : Db) (id : ℕ)
    → IsTenantKeyed db.tenants
    → Paid id db (process_payment req payment subscription_id raw_payload db).1
unfolding process_payment
process_payment-Paid req payment subscription_id raw_payload db id keyed =
    run_tx_ind (Paid id db) (process_body req payment subscription_id raw_payload) db
      (record { keyed = keyed; extends = λ at x. (at, x, refl) })
      λ u db' ran.
        let test = has_subscription (subscription_or_test subscription_id) in
        elim (Bool-cases (any_where (has_payment payment) db.billing_events)) [
          | inl known ↦
              let same : db' ≡ db = ground arith in
              rw same (record { keyed = keyed; extends = λ at x. (at, x, refl) })
          | inr new ↦ elim (Option-cases (find_where test db.tenants)) [
            | inl absent ↦
                let same : db' ≡ db = ground arith in
                rw same (record { keyed = keyed; extends = λ at x. (at, x, refl) })
            | inr (t, found) ↦
                let rows : db'.tenants ≡ put_tenant (extended req.now t) db.tenants =
                  ground arith in
                let events : db'.billing_events
                    ≡ new_event req payment raw_payload t ∷ db.billing_events =
                  ground arith in
                record {
                  keyed = rw rows (put_tenant-IsTenantKeyed (extended req.now t) db.tenants keyed);
                  extends =
                      credit-extends req payment raw_payload t db db' id keyed test found events
                        rows;
                }
          ]
        ]

-- A notification of a payment.
pub record Notification : Type 0 where
  pub request : Request
  pub payment : String
  pub subscription_id : Option String
  pub raw_payload : String

-- The notifications are processed in order.
abbrev pub process_all : List Notification → Db → Db
process_all [] db = db
process_all (n ∷ ns) db =
    process_all ns (process_payment n.request n.payment n.subscription_id n.raw_payload db).1

-- Whatever notifications of payments are processed, in any order, with repetitions and failures
-- among them, the expiry of every tenant that has one moves by exactly thirty days for each payment
-- that is newly recorded for it, and identifiers of tenants stay distinct, if they were.
pub process_all-Paid :
    (ns : List Notification) (db : Db) (id : ℕ)
    → IsTenantKeyed db.tenants
    → Paid id db (process_all ns db)
process_all-Paid [] db id keyed = record { keyed = keyed; extends = λ at x. (at, x, refl) }
process_all-Paid (n ∷ ns) db id keyed =
    let db1 = (process_payment n.request n.payment n.subscription_id n.raw_payload db).1 in
    let first =
      process_payment-Paid n.request n.payment n.subscription_id n.raw_payload db id keyed in
    let rest = process_all-Paid ns db1 id first.keyed in
    record {
      keyed = rest.keyed;
      extends = λ at x.
          let a = first.extends at x in
          let b = rest.extends a.0 a.1 in (b.0, b.1, omega (arith, a.2, b.2));
    }

-- After `processPayment` has succeeded, processing the same notification again, with its lock
-- granted, succeeds and changes nothing.
pub process_payment-once :
    (req req' : Request) (payment : String) (subscription_id : Option String) (raw_payload : String)
    (db : Db)
    → req'.lock_granted ≡ true
    → (process_payment req payment subscription_id raw_payload db).0 ≡ ok tt
    → process_payment req' payment subscription_id raw_payload
        (process_payment req payment subscription_id raw_payload db).1
      ≡ (ok tt, (process_payment req payment subscription_id raw_payload db).1)
unfolding process_payment
process_payment-once req req' payment subscription_id raw_payload db granted done =
    run_tx_ok_ind
      (λ d. run_tx (process_body req' payment subscription_id raw_payload) d ≡ (ok tt, d))
      (process_body req payment subscription_id raw_payload) db tt
      (λ db' ran.
        let test = has_subscription (subscription_or_test subscription_id) in
        elim (Bool-cases (any_where (has_payment payment) db.billing_events)) [
          | inl known ↦ let same : db' ≡ db = ground arith in rw same (ground arith)
          | inr new ↦ elim (Option-cases (find_where test db.tenants)) [
            | inl absent ↦ let same : db' ≡ db = ground arith in rw same (ground arith)
            | inr (t, found) ↦
                let events : db'.billing_events
                    ≡ new_event req payment raw_payload t ∷ db.billing_events =
                  ground arith in
                let known : any_where (has_payment payment) db'.billing_events ≡ true =
                  rw (events, eq_refl payment) refl in
                ground arith
          ]
        ])
      done
