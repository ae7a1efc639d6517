-- ===== src/Dashboard/Top.antt =====
-- The list of the top debtors, by the order of the balances and a cut.
use micro_erp_saas.Prelude.{
  ℕ, ◌≤◌, ◌<◌, ◌≡◌, inl, inr, List, [], ◌∷◌, ◌++◌, arith, All, All-map, Bool-cases, select_where,
  length, insert_by, order_by,
}
use mathlib.Core.List.{Perm}
use micro_erp_saas.Prelude.Int.{leb_ℤ, ◌≤ℤ◌}
use micro_erp_saas.Entities.{Customer}
use micro_erp_saas.Number.{Number}
use micro_erp_saas.Dashboard.{owes_tenant, up_to_balance}

-- No balance of a list is above a customer's.
abbrev pub AllBelow : Customer → List Customer → Type 0
AllBelow c = All (λ d. d.balance_cents ≤ℤ c.balance_cents)

abbrev pub Ranked : List Customer → Type 0
Ranked [] = Unit
Ranked (c ∷ cs) = AllBelow c cs × Ranked cs

AllBelow-insert :
    (c d : Customer) (ds : List Customer)
    → d.balance_cents ≤ℤ c.balance_cents
    → AllBelow c ds
    → AllBelow c (insert_by up_to_balance d ds)
AllBelow-insert c d [] h a = (h, tt)
AllBelow-insert c d (x ∷ xs) h a = elim (Bool-cases (leb_ℤ x.balance_cents d.balance_cents)) [
  | inl here ↦ rw here (h, a)
  | inr later ↦ rw later (a.0, AllBelow-insert c d xs h a.1)
]

insert-Ranked :
    (c : Customer) (ds : List Customer) → Ranked ds → Ranked (insert_by up_to_balance c ds)
insert-Ranked c [] r = (tt, tt)
insert-Ranked c (d ∷ ds) r = elim (Bool-cases (leb_ℤ d.balance_cents c.balance_cents)) [
  | inl here ↦
      let below : d.balance_cents ≤ℤ c.balance_cents = ground arith in
      let all =
        All-map (λ e. e.balance_cents ≤ℤ d.balance_cents) (λ e. e.balance_cents ≤ℤ c.balance_cents)
          ds (λ e h. omega (arith, h, below)) r.0 in
      rw here ((below, all), r)
  | inr later ↦
      let above : c.balance_cents ≤ℤ d.balance_cents = ground arith in
      rw later (AllBelow-insert d c ds above r.0, insert-Ranked c ds r.1)
]

pub order-Ranked : (cs : List Customer) → Ranked (order_by up_to_balance cs)
order-Ranked [] = tt
order-Ranked (c ∷ cs) = insert-Ranked c (order_by up_to_balance cs) (order-Ranked cs)

-- The rest of a tenant's debtors, below a list of at most ten that leaves out none without need.
pub record IsTop (tenant : ℕ) (cs top : List Customer) : Type 0 where
  pub rest : List Customer
  pub all : Perm (select_where (owes_tenant tenant) cs) (top ++ rest)
  pub below : All (λ t. AllBelow t rest) top
  pub at_most : length top ≤ 10
  pub no_more : length top < 10 → rest ≡ []
