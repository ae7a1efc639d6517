-- ===== src/Customers/Books.antt =====
-- The merge and the books: the debts of two customers become one debt, and no money is lost.
use micro_erp_saas.Prelude.{
  ℕ, ◌≡◌, refl, sym, subst, ◌∙◌, ap, false, Bool-cases, inl, inr, List, some, ◌==◌, arith,
  Option-cases, find_where, find_where-test, find_where-All, update_where-All,
}
use micro_erp_saas.Prelude.Int.{ℤ, pos, ◌+ℤ◌, +ℤ_right_cancel, +ℤ_zero, int_laws}
use mathlib.Core.Path.{ap₂}
use micro_erp_saas.Entities.{Customer, Transaction}
use micro_erp_saas.Store.{Db, Request, ok, is_customer, put_customer}
use micro_erp_saas.Store.Commit.{run_tx_ind}
use micro_erp_saas.Ledger.Account.{
  SameTills, is_owned, ledger, Agrees, IsDebtor, IsReconciled, IsSolvent, IsDistinct, IsSound,
}
use micro_erp_saas.Ledger.Remark.{update-IsKeyed}
use micro_erp_saas.Ledger.Table.{
  put_customer-IsDistinct, total_balance, total_balance-save, find_where-apart,
}
use micro_erp_saas.Customers.Merge.{
  MergeCustomersDto, move_transactions, merged_primary, merged_secondary, write_merge, merge_body,
  merge_customers,
}
use micro_erp_saas.Customers.Moved.{
  ledger-moved_primary, ledger-moved_secondary, ledger-moved_other,
}

-- A merge that went through: both rows of the tenant, and the tables after it.
pub record Merging (tenant : ℕ) (db db' : Db) : Type 0 where
  pub primary : Customer
  pub secondary : Customer
  pub apart : (primary.id == secondary.id) ≡ false
  pub found_primary : find_where (is_customer tenant primary.id) db.customers ≡ some primary
  pub found_secondary : find_where (is_customer tenant secondary.id) db.customers ≡ some secondary
  pub saved :
      db'.customers
      ≡ put_customer
          (merged_secondary secondary)
          (put_customer (merged_primary primary secondary) db.customers)
  pub moved_all :
      db'.transactions ≡ move_transactions tenant secondary.id primary.id db.transactions
  pub tills : SameTills db db'

pub merge_body-Merging :
    (req : Request) (tenant : ℕ) (dto : MergeCustomersDto) (db db' : Db) (c : Customer)
    → (dto.primary_id == dto.secondary_id) ≡ false
    → merge_body req tenant dto db ≡ ok (c, db')
    → Merging tenant db db'
unfolding merge_body write_merge
merge_body-Merging req tenant dto db db' c distinct h =
    elim (Option-cases (find_where (is_customer tenant dto.primary_id) db.customers)) [
      | inl absent ↦ absurd (ground arith)
      | inr (p, fp) ↦
          elim (Option-cases (find_where (is_customer tenant dto.secondary_id) db.customers)) [
            | inl absent ↦ absurd (ground arith)
            | inr (s, fs) ↦
                let tp = find_where-test (is_customer tenant dto.primary_id) db.customers p fp in
                let ts = find_where-test (is_customer tenant dto.secondary_id) db.customers s fs in
                record {
                  primary = p;
                  secondary = s;
                  apart = ground arith;
                  found_primary = ground arith;
                  found_secondary = ground arith;
                  saved = ground arith;
                  moved_all = ground arith;
                  tills = (ground arith, ground arith);
                }
          ]
    ]

module _ {tenant : ℕ} {db db' : Db} (m : Merging tenant db db') where
  abbrev p : Customer
  p = m.primary

  abbrev s : Customer
  s = m.secondary

  pub owners : (p.tenant_id ≡ tenant) × (s.tenant_id ≡ tenant)
  owners =
      let tp = find_where-test (is_customer tenant p.id) db.customers p m.found_primary in
      let ts = find_where-test (is_customer tenant s.id) db.customers s m.found_secondary in
      (ground arith, ground arith)

  moved_table : List Transaction
  moved_table = move_transactions tenant s.id p.id db.transactions

  merged-Agrees : IsReconciled db → Agrees moved_table (merged_primary p s)
  unfolding moved_table
  merged-Agrees h =
      let own_p : p.balance_cents ≡ ledger tenant p.id db.transactions =
        subst (λ x. p.balance_cents ≡ ledger x p.id db.transactions) owners.0
          (find_where-All (is_customer tenant p.id) (Agrees db.transactions) db.customers p h
            m.found_primary) in
      let own_s : s.balance_cents ≡ ledger tenant s.id db.transactions =
        subst (λ x. s.balance_cents ≡ ledger x s.id db.transactions) owners.1
          (find_where-All (is_customer tenant s.id) (Agrees db.transactions) db.customers s h
            m.found_secondary) in
      subst
        (λ x.
          p.balance_cents +ℤ s.balance_cents
          ≡ ledger x p.id (move_transactions tenant s.id p.id db.transactions))
        (sym owners.0)
        (ap₂ (λ x y. x +ℤ y) own_p own_s
          ∙ sym (ledger-moved_primary tenant p.id s.id m.apart db.transactions))

  Merging-IsReconciled : IsReconciled db → IsReconciled db'
  unfolding moved_table
  Merging-IsReconciled h =
      rw (m.saved, m.moved_all)
        (update_where-All (λ c. c.id == s.id) Later (Agrees moved_table) (λ _. merged_secondary s)
          (put_customer (merged_primary p s) db.customers)
          (λ c hit later.
            subst (λ x. pos 0 ≡ ledger x s.id (move_transactions tenant s.id p.id db.transactions))
              (sym owners.1)
              (sym (ledger-moved_secondary tenant p.id s.id m.apart db.transactions)))
          (λ c miss later. later miss)
          (update_where-All (λ c. c.id == p.id) (Agrees db.transactions) Later
            (λ _. merged_primary p s) db.customers (λ c hit a _. merged-Agrees h)
            (λ c miss a other.
              a
              ∙ sym (
                  ledger-moved_other tenant p.id s.id m.apart c.tenant_id c.id db.transactions miss
                    other))
            h))
    where
      Later : Customer → Type 0
      Later c = (c.id == s.id) ≡ false → Agrees moved_table c

  Merging-IsSolvent : IsSolvent db → IsSolvent db'
  Merging-IsSolvent h =
      let dp = find_where-All (is_customer tenant p.id) IsDebtor db.customers p h m.found_primary in
      let ds =
        find_where-All (is_customer tenant s.id) IsDebtor db.customers s h m.found_secondary in
      rw m.saved (
        update_where-All (λ c. c.id == s.id) IsDebtor IsDebtor (λ _. merged_secondary s)
          (put_customer (merged_primary p s) db.customers) (λ c hit d. omega arith) (λ c miss d. d)
          (update_where-All (λ c. c.id == p.id) IsDebtor IsDebtor (λ _. merged_primary p s)
            db.customers (λ c hit d. omega int_laws) (λ c miss d. d) h))

  Merging-IsSound : IsSound db → IsSound db'
  Merging-IsSound x = record {
    reconciled = Merging-IsReconciled x.reconciled;
    solvent = Merging-IsSolvent x.solvent;
    keyed = rw m.moved_all (
        update-IsKeyed (is_owned tenant s.id) _ db.transactions (λ a t. refl) (λ a t. refl)
          x.keyed);
    distinct =
        rw m.saved
          (put_customer-IsDistinct _ _ (put_customer-IsDistinct _ db.customers x.distinct));
  }

  Merging_total : IsDistinct db.customers → total_balance db'.customers ≡ total_balance db.customers
  Merging_total d =
      let first =
        total_balance-save tenant p (merged_primary p s) db.customers refl d m.found_primary in
      let behind : find_where (is_customer tenant s.id)
            (put_customer (merged_primary p s) db.customers)
          ≡ some s =
        find_where-apart tenant s.id (merged_primary p s) db.customers s m.apart
          m.found_secondary in
      let second =
        total_balance-save tenant s (merged_secondary s)
          (put_customer (merged_primary p s) db.customers) refl
          (put_customer-IsDistinct _ db.customers d) behind in
      rw m.saved (sums_merge _ _ _ p.balance_cents s.balance_cents first second)
    where
      sums_merge : (a b c x y : ℤ) → b +ℤ x ≡ c +ℤ (x +ℤ y) → a +ℤ y ≡ b +ℤ pos 0 → a ≡ c
      sums_merge a b c x y e f = +ℤ_right_cancel y a c (
          +ℤ_right_cancel x (a +ℤ y) (c +ℤ y)
            (rw f (sym (ap (λ z. z) (rw (+ℤ_zero b, e) (omega int_laws))))))

-- `mergeCustomers` keeps the books sound: the moved transactions are the moved debt.
pub merge_customers-IsSound :
    (req : Request) (tenant : ℕ) (dto : MergeCustomersDto) (db : Db)
    → IsSound db
    → IsSound (merge_customers req tenant dto db).1
unfolding merge_customers
merge_customers-IsSound req tenant dto db x =
    elim (Bool-cases (dto.primary_id == dto.secondary_id)) [
      | inl same ↦ rw same x
      | inr distinct ↦ rw distinct (
          run_tx_ind IsSound (merge_body req tenant dto) db x λ c db' ran.
            Merging-IsSound (merge_body-Merging req tenant dto db db' c distinct ran) x)
    ]

-- If identifiers of customers are distinct, `mergeCustomers` does not change what all customers
-- owe together.
pub merge_customers_total :
    (req : Request) (tenant : ℕ) (dto : MergeCustomersDto) (db : Db)
    → IsDistinct db.customers
    → total_balance (merge_customers req tenant dto db).1.customers ≡ total_balance db.customers
unfolding merge_customers
merge_customers_total req tenant dto db d = elim (Bool-cases (dto.primary_id == dto.secondary_id)) [
  | inl same ↦ rw same refl
  | inr distinct ↦ rw distinct (
      run_tx_ind (λ x. total_balance x.customers ≡ total_balance db.customers)
        (merge_body req tenant dto) db refl
        λ c db' ran. Merging_total (merge_body-Merging req tenant dto db db' c distinct ran) d)
]
