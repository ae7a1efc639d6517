-- ===== src/Dashboard.antt =====
-- backend/src/modules/dashboard/dashboard.service.ts: the figures of a tenant. The service's clock is in
-- UTC; rows of one balance come in the order of the table.
pub mod Receivables
pub mod Top
pub mod Export
use micro_erp_saas.Prelude.{
  ℕ, ◌+◌, ◌-◌, ◌*◌, ◌/◌, Bool, true, false, not, ◌&&◌, Option, none, some, List, [], ◌∷◌, ltb, leb,
  ◌==◌, if◌then◌else◌, length, select_where, order_by, take,
}
use micro_erp_saas.Prelude.Int.{ℤ, pos, ◌+ℤ◌, leb_ℤ}
use micro_erp_saas.Entities.{Customer, Transaction, TransactionType, payment, debt, is_type}
use micro_erp_saas.Number.{Number}
use micro_erp_saas.Store.{Db, Tx, ◌>>=◌, ◌>>◌, pure, gets, throw_where, fits_int4, query_failed}
use micro_erp_saas.CashRegister.{sum_amounts}
use micro_erp_saas.Subscriptions.{day_ms, is_before}
use micro_erp_saas.Overdue.{midnight, owes}

pub record DashboardMetrics (n : Number) : Type 0 where
  pub total_receivable_cents : ℤ
  pub total_customers : ℕ
  pub active_debtors : ℕ
  pub blocked_customers : ℕ
  pub overdue_promises : ℕ
  pub today_collections_cents : ℤ
  pub today_debts_cents : ℤ
  pub week_collections_cents : ℤ
  pub week_debts_cents : ℤ
  pub mora_ratio : n.Double
  pub top_debtors : List Customer

abbrev pub of_tenant : ℕ → Customer → Bool
of_tenant tenant c = c.tenant_id == tenant

abbrev pub owes_tenant : ℕ → Customer → Bool
owes_tenant tenant c = of_tenant tenant c && owes c

-- SELECT count(*) WHERE …
abbrev pub count_where {ℓ} : {A : Type ℓ} → (A → Bool) → List A → ℕ
count_where test xs = length (select_where test xs)

abbrev pub sum_balances : List Customer → ℤ
sum_balances [] = pos 0
sum_balances (c ∷ cs) = c.balance_cents +ℤ sum_balances cs

-- WHERE tenant_id = :tenant AND type = :type AND created_at >= :start AND NOT is_reversed
abbrev pub is_since : ℕ → TransactionType → ℕ → Transaction → Bool
is_since tenant type start t =
    t.tenant_id == tenant && (is_type t.type type && (leb start t.created_at && not t.is_reversed))

-- COALESCE(SUM(…), 0)::int, where the cast fails out of the range.
abbrev pub sum_since : ℕ → TransactionType → ℕ → Tx ℤ
sum_since tenant type start = do
  throw_where
      (λ db.
        not (fits_int4 (sum_amounts (select_where (is_since tenant type start) db.transactions))))
      query_failed
  gets (λ db. sum_amounts (select_where (is_since tenant type start) db.transactions))

abbrev pub sum_receivable : ℕ → Tx ℤ
sum_receivable tenant = do
  throw_where
      (λ db. not (fits_int4 (sum_balances (select_where (owes_tenant tenant) db.customers))))
      query_failed
  gets (λ db. sum_balances (select_where (owes_tenant tenant) db.customers))

-- ORDER BY balance_cents DESC
abbrev pub up_to_balance : Customer → Customer → Bool
up_to_balance d c = leb_ℤ d.balance_cents c.balance_cents

abbrev pub top_of : ℕ → List Customer → List Customer
top_of tenant cs = take 10 (order_by up_to_balance (select_where (owes_tenant tenant) cs))

-- `Math.round((overdue / active) * 10000) / 100`, or 0.
abbrev pub mora_ratio_of : (n : Number) → ℕ → ℕ → n.Double
mora_ratio_of n overdue active =
    if active == 0
    then n.from_ℤ (pos 0)
    else n.div
        (n.from_ℤ (
          n.round (
            n.mul (n.div (n.from_ℤ (pos overdue)) (n.from_ℤ (pos active))) (n.from_ℤ (pos 10000)))))
        (n.from_ℤ (pos 100))

-- `getMetrics`
unfoldable pub get_metrics : (n : Number) → ℕ → ℕ → Tx (DashboardMetrics n)
get_metrics n now tenant = do
  let today = midnight now
  let week = midnight (now - 7 * day_ms)
  receivable ← sum_receivable tenant
  total ← gets (λ db. count_where (of_tenant tenant) db.customers)
  active ← gets (λ db. count_where (λ c. owes_tenant tenant c && c.is_active) db.customers)
  blocked ← gets (λ db. count_where (λ c. of_tenant tenant c && not c.is_active) db.customers)
  overdue ← gets (λ db.
      count_where (λ c. owes_tenant tenant c && is_before now c.next_payment_promise) db.customers)
  today_collections ← sum_since tenant payment today
  today_debts ← sum_since tenant debt today
  week_collections ← sum_since tenant payment week
  week_debts ← sum_since tenant debt week
  top ← gets (λ db. top_of tenant db.customers)
  pure (record {
    total_receivable_cents = receivable;
    total_customers = total;
    active_debtors = active;
    blocked_customers = blocked;
    overdue_promises = overdue;
    today_collections_cents = today_collections;
    today_debts_cents = today_debts;
    week_collections_cents = week_collections;
    week_debts_cents = week_debts;
    mora_ratio = mora_ratio_of n overdue active;
    top_debtors = top;
  })
