-- ===== src/Ledger/Account.antt =====
-- The signed effect of a transaction, and the sum of the effects on one customer.
use micro_erp_saas.Prelude.{
  ℕ, ◌≡◌, refl, Bool, false, ◌&&◌, List, [], ◌∷◌, ◌==◌, if◌then◌else◌, All, any_where,
}
use micro_erp_saas.Prelude.Int.{ℤ, pos, ◌+ℤ◌, neg_ℤ, ◌≤ℤ◌}
use micro_erp_saas.Entities.{
  TransactionType, debt, payment, reversal, inflation_adjustment, forgiveness, Customer,
  Transaction,
}
use micro_erp_saas.Store.{Db, clashes}

-- What a transaction of a type adds to the debt.
abbrev pub type_effect : TransactionType → ℤ → ℤ
type_effect debt a = a
type_effect inflation_adjustment a = a
type_effect payment a = neg_ℤ a
type_effect forgiveness a = neg_ℤ a
type_effect reversal a = pos 0

-- A reversed transaction and its reversal cancel out: neither counts.
abbrev pub effect : Transaction → ℤ
effect t = if t.is_reversed then pos 0 else type_effect t.type t.amount_cents

abbrev pub is_owned : ℕ → ℕ → Transaction → Bool
is_owned tenant customer t = t.tenant_id == tenant && t.customer_id == customer

abbrev pub owned_effect : ℕ → ℕ → Transaction → ℤ
owned_effect tenant customer t = if is_owned tenant customer t then effect t else pos 0

-- The debt of a customer by the transactions.
unfoldable pub ledger : ℕ → ℕ → List Transaction → ℤ
ledger tenant customer [] = pos 0
ledger tenant customer (t ∷ ts) = owned_effect tenant customer t +ℤ ledger tenant customer ts

pub ledger-nil : (tenant customer : ℕ) → ledger tenant customer [] ≡ pos 0
unfolding ledger
ledger-nil tenant customer = refl

pub ledger-cons :
    (tenant customer : ℕ) (t : Transaction) (ts : List Transaction)
    → ledger tenant customer (t ∷ ts) ≡ owned_effect tenant customer t +ℤ ledger tenant customer ts
unfolding ledger
ledger-cons tenant customer t ts = refl

-- The balance of every customer of a list is the debt by the transactions.
abbrev pub Agrees : List Transaction → Customer → Type 0
Agrees ts c = c.balance_cents ≡ ledger c.tenant_id c.id ts

abbrev pub IsReconciled : Db → Type 0
IsReconciled db = All (Agrees db.transactions) db.customers

-- No customer has a credit balance.
abbrev pub IsDebtor : Customer → Type 0
IsDebtor c = pos 0 ≤ℤ c.balance_cents

abbrev pub IsSolvent : Db → Type 0
IsSolvent db = All IsDebtor db.customers

-- The primary key and the unique index of the table hold: no row clashes with one stored before it.
abbrev pub IsKeyed : List Transaction → Type 0
IsKeyed [] = Unit
IsKeyed (t ∷ ts) = (any_where (clashes t) ts ≡ false) × IsKeyed ts

-- The primary key of the customers.
abbrev pub IsDistinct : List Customer → Type 0
IsDistinct [] = Unit
IsDistinct (c ∷ cs) = (any_where (λ r. r.id == c.id) cs ≡ false) × IsDistinct cs

-- The tables of the till are the same.
abbrev pub SameTills : Db → Db → Type 0
SameTills db db' = (db'.tenants ≡ db.tenants) × (db'.shifts ≡ db.shifts)

-- What the services keep true of customers and transactions.
pub record IsSound (db : Db) : Type 0 where
  pub reconciled : IsReconciled db
  pub solvent : IsSolvent db
  pub keyed : IsKeyed db.transactions
  pub distinct : IsDistinct db.customers

-- Only the two tables matter.
pub IsSound-same :
    (db db' : Db)
    → db'.customers ≡ db.customers
    → db'.transactions ≡ db.transactions
    → IsSound db
    → IsSound db'
IsSound-same db db' p q s = record {
  reconciled = rw (p, q) s.reconciled;
  solvent = rw p s.solvent;
  keyed = rw q s.keyed;
  distinct = rw p s.distinct;
}
