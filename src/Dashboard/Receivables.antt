-- ===== src/Dashboard/Receivables.antt =====
-- The figure of the debts against the transactions, and the counts against each other.
use micro_erp_saas.Prelude.{
  ℕ, ◌+◌, ◌≤◌, ◌≡◌, refl, ◌∙◌, false, not, ◌&&◌, inl, inr, List, [], ◌∷◌, if◌then◌else◌, arith, All,
  Bool-cases, select_where,
}
use micro_erp_saas.Prelude.Int.{ℤ, pos, ◌+ℤ◌, zero-+ℤ, eqb_ℤ→eq}
use micro_erp_saas.Entities.{Customer, Transaction}
use micro_erp_saas.Number.{Number}
use micro_erp_saas.Store.{Db, ok}
use micro_erp_saas.Ledger.Account.{ledger, Agrees, IsDebtor, IsSound}
use micro_erp_saas.Overdue.{owes}
use micro_erp_saas.Dashboard.{
  DashboardMetrics, of_tenant, owes_tenant, count_where, sum_balances, get_metrics,
}

-- What the customers of a tenant owe by the transactions.
abbrev pub tenant_ledger : ℕ → List Transaction → List Customer → ℤ
tenant_ledger tenant ts [] = pos 0
tenant_ledger tenant ts (c ∷ cs) =
    let rest = tenant_ledger tenant ts cs in
    if of_tenant tenant c then ledger tenant c.id ts +ℤ rest else rest

-- A balance that is neither positive nor negative.
nothing_owed : (c : Customer) → IsDebtor c → owes c ≡ false → c.balance_cents ≡ pos 0
nothing_owed c debtor h = eqb_ℤ→eq c.balance_cents (pos 0) (ground arith)

sum_balances-ledger :
    (tenant : ℕ) (ts : List Transaction) (cs : List Customer)
    → All (Agrees ts) cs
    → All IsDebtor cs
    → sum_balances (select_where (owes_tenant tenant) cs) ≡ tenant_ledger tenant ts cs
sum_balances-ledger tenant ts [] a d = refl
sum_balances-ledger tenant ts (c ∷ cs) a d =
    let rest = sum_balances-ledger tenant ts cs a.1 d.1 in
    elim (Bool-cases (of_tenant tenant c)) [
      | inl own ↦
          let here : c.tenant_id ≡ tenant = ground arith in
          let by : c.balance_cents ≡ ledger tenant c.id ts = rw (← here) a.0 in
          elim (Bool-cases (owes c)) [
            | inl debt ↦ rw (own, debt, rest, by) refl
            | inr clear ↦
                let zero_by : ledger tenant c.id ts ≡ pos 0 =
                  rw (← by) (nothing_owed c d.0 clear) in
                rw (own, clear, zero_by)
                  (ground (arith, rest, zero-+ℤ (tenant_ledger tenant ts cs)))
          ]
      | inr other ↦ rw other rest
    ]

-- If the books are sound, the total that the dashboard shows as receivable is what the tenant's
-- customers owe by their transactions.
pub get_metrics-tenant_ledger :
    (n : Number) (now tenant : ℕ) (db db' : Db) (m : DashboardMetrics n)
    → IsSound db
    → get_metrics n now tenant db ≡ ok (m, db')
    → m.total_receivable_cents ≡ tenant_ledger tenant db.transactions db.customers
unfolding get_metrics
get_metrics-tenant_ledger n now tenant db db' m s ran =
    let sum : m.total_receivable_cents
        ≡ sum_balances (select_where (owes_tenant tenant) db.customers) =
      ground arith in
    sum ∙ sum_balances-ledger tenant db.transactions db.customers s.reconciled s.solvent

count-parts :
    (tenant : ℕ) (cs : List Customer)
    → count_where (λ c. owes_tenant tenant c && c.is_active) cs
        + count_where (λ c. of_tenant tenant c && not c.is_active) cs
      ≤ count_where (of_tenant tenant) cs
count-parts tenant [] = omega arith
count-parts tenant (c ∷ cs) = ground (arith, count-parts tenant cs)

-- Active debtors and blocked customers are at most all customers.
pub get_metrics-counts :
    (n : Number) (now tenant : ℕ) (db db' : Db) (m : DashboardMetrics n)
    → get_metrics n now tenant db ≡ ok (m, db')
    → m.active_debtors + m.blocked_customers ≤ m.total_customers
unfolding get_metrics
get_metrics-counts n now tenant db db' m ran =
    let debtors : m.active_debtors
        ≡ count_where (λ c. owes_tenant tenant c && c.is_active) db.customers =
      ground arith in
    let blocked : m.blocked_customers
        ≡ count_where (λ c. of_tenant tenant c && not c.is_active) db.customers =
      ground arith in
    let all : m.total_customers ≡ count_where (of_tenant tenant) db.customers = ground arith in
    rw (debtors, blocked, all) (count-parts tenant db.customers)
