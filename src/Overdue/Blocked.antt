-- ===== src/Overdue/Blocked.antt =====
-- Customers that are blocked: by an update of the table, and by the loop over the tenants
-- (`processAutoBlocks` of backend/src/modules/cron/overdue-cron.service.ts).
use micro_erp_saas.Prelude.{
  ℕ, ◌-◌, ◌*◌, ◌<◌, ◌≡◌, refl, ap, subst, String, Bool, true, false, inl, inr, Option, some, List,
  [], ◌∷◌, ◌==◌, if◌then◌else◌, arith, Bool-cases, find_where, update_where, or_else,
}
use micro_erp_saas.Entities.{Customer, Tenant}
use micro_erp_saas.Store.{Db, is_customer}
use micro_erp_saas.Subscriptions.{day_ms, is_before}
use micro_erp_saas.Subscriptions.Keys.{has_id}
use micro_erp_saas.Overdue.{
  owes, midnight, block, block_long_overdue, is_long_overdue, auto_block_days, update_customers,
}
use micro_erp_saas.Overdue.Marking.{
  Touched, Rows, no_rows, next_row, Jobbed, block_long_overdue-Jobbed,
}

-- A customer that is found before the job is found after it.
pub Rows-find_where :
    (tenant id : ℕ) {cs cs' : List Customer} (c : Customer)
    → Rows cs cs'
    → find_where (is_customer tenant id) cs ≡ some c
    → (c' : Customer) × (find_where (is_customer tenant id) cs' ≡ some c') × Touched c c'
Rows-find_where tenant id c no_rows found = absurd (ground arith)
Rows-find_where tenant id c (next_row {c = x} {c' = x'} t rest) found =
    let i : x'.id ≡ x.id = ap (λ r. r.id) t.row in
    let j : x'.tenant_id ≡ x.tenant_id = ap (λ r. r.tenant_id) t.row in
    elim (Bool-cases (is_customer tenant id x)) [
      | inl hit ↦
          let own : x ≡ c = ground arith in
          (x', ground (arith, i, j), subst (λ r. Touched r x') own t)
      | inr miss ↦
          let later = Rows-find_where tenant id c rest (ground arith) in
          (later.0, ground (arith, i, j, later.1), later.2)
    ]

pub find_where-update :
    (tenant id : ℕ) (test : Customer → Bool) (change : Customer → Customer) (cs : List Customer)
    (c : Customer)
    → ((x : Customer) → (change x).id ≡ x.id)
    → ((x : Customer) → (change x).tenant_id ≡ x.tenant_id)
    → find_where (is_customer tenant id) cs ≡ some c
    → find_where (is_customer tenant id) (update_where test change cs)
      ≡ some (if test c then change c else c)
find_where-update tenant id test change [] c same own found = absurd (ground arith)
find_where-update tenant id test change (x ∷ xs) c same own found =
    elim (Bool-cases (is_customer tenant id x)) [
      | inl hit ↦
          let head : x ≡ c = ground arith in
          elim (Bool-cases (test x)) [
            | inl t ↦ ground (arith, same x, own x, head, t)
            | inr f ↦ ground (arith, head, f)
          ]
      | inr miss ↦
          let rest = find_where-update tenant id test change xs c same own (ground arith) in
          elim (Bool-cases (test x)) [
            | inl t ↦ ground (arith, same x, own x, t, rest)
            | inr f ↦ ground (arith, f, rest)
          ]
    ]

-- The row is there and blocked.
pub record Blocked (tenant id : ℕ) (db : Db) : Type 0 where
  pub customer : Customer
  pub found : find_where (is_customer tenant id) db.customers ≡ some customer
  pub inactive : customer.is_active ≡ false

pub Jobbed-Blocked :
    (tenant id : ℕ) (db db' : Db) → Jobbed db db' → Blocked tenant id db → Blocked tenant id db'
Jobbed-Blocked tenant id db db' j b =
    let later = Rows-find_where tenant id b.customer j.rows b.found in
    record { customer = later.0; found = later.1; inactive = later.2.blocked b.inactive }

-- An update that blocks blocks the rows that pass its test, and those that only their block keeps from
-- passing it are blocked already.
pub update_customers-Blocked :
    (tenant id : ℕ) (test : Customer → Bool) (db : Db) (c : Customer)
    → find_where (is_customer tenant id) db.customers ≡ some c
    → (c.is_active ≡ true → test c ≡ true)
    → Blocked tenant id (update_customers test block db)
update_customers-Blocked tenant id test db c found due =
    let put = find_where-update tenant id test block db.customers c (λ x. refl) (λ x. refl) found in
    record {
      customer = if test c then block c else c;
      found = put;
      inactive = elim (Bool-cases c.is_active) [
        | inl on ↦ rw (due on) refl
        | inr off ↦ elim (Bool-cases (test c)) [ inl t ↦ rw t refl | inr f ↦ rw f off ]
      ];
    }

-- The loop reaches the tenant of a long overdue customer.
pub block_long_overdue-Blocked :
    (to_int : String → Option ℕ) (now id days : ℕ) (owner : Tenant) (ts : List Tenant) (db : Db)
    (c : Customer)
    → find_where (has_id c.tenant_id) ts ≡ some owner
    → auto_block_days to_int owner ≡ some days
    → 0 < days
    → find_where (is_customer c.tenant_id id) db.customers ≡ some c
    → owes c ≡ true
    → c.is_overdue ≡ true
    → is_before (midnight (now - days * day_ms)) c.next_payment_promise ≡ true
    → Blocked c.tenant_id id (block_long_overdue to_int now ts db)
block_long_overdue-Blocked to_int now id days owner [] db c at set positive found debt overdue
      late =
    absurd (ground arith)
block_long_overdue-Blocked to_int now id days owner (t ∷ ts) db c at set positive found debt overdue
      late =
    let ds = or_else (auto_block_days to_int t) 0 in
    let test = is_long_overdue t.id (midnight (now - ds * day_ms)) in
    let db1 = update_customers test block db in
    elim (Bool-cases (has_id c.tenant_id t)) [
      | inl mine ↦
          let own : t ≡ owner = ground arith in
          let same : ds ≡ days = rw (own, set) refl in
          let on : (ds == 0) ≡ false = ground arith in
          let due : c.is_active ≡ true → test c ≡ true =
            λ a. rw (same, debt, overdue, a, late) (ground arith) in
          rw on (
            Jobbed-Blocked c.tenant_id id db1 (block_long_overdue to_int now ts db1)
              (block_long_overdue-Jobbed to_int now ts db1)
              (update_customers-Blocked c.tenant_id id test db c found due))
      | inr other ↦
          let later : find_where (has_id c.tenant_id) ts ≡ some owner = ground arith in
          elim (Bool-cases (ds == 0)) [
            | inl off ↦ rw off (
                block_long_overdue-Blocked to_int now id days owner ts db c later set positive found
                  debt overdue late)
            | inr on ↦
                let miss : test c ≡ false = ground arith in
                let put =
                  find_where-update c.tenant_id id test block db.customers c (λ x. refl) (λ x. refl)
                    found in
                rw on (
                  block_long_overdue-Blocked to_int now id days owner ts db1 c later set positive
                    (rw miss at put) debt overdue late)
          ]
    ]
