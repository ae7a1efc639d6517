-- ===== src/System/Isolation.antt =====
-- Isolation of tenants over every request.
use micro_erp_saas.Prelude.{
  ℕ, ◌≡◌, refl, sym, subst, ◌∙◌, false, some, ◌∷◌, ◌==◌, arith, find_where, find_where-test,
  select_where-update_where,
}
use micro_erp_saas.Entities.{Transaction}
use micro_erp_saas.Store.{Db, is_customer, put_customer}
use micro_erp_saas.Ledger.Account.{IsSound, is_owned}
use micro_erp_saas.Ledger.Table.{put_customer-IsDistinct, find_where-apart}
use micro_erp_saas.Ledger.Isolation.{
  IsKept, customers_of-put_customer, transactions_of-put_transaction,
}
use micro_erp_saas.Transactions.Reversal.Books.{marked, Reversing}
use micro_erp_saas.Transactions.Reversal.Invariant.{stored_behind, owner}
use micro_erp_saas.Customers.Profile.Sound.{Saving}
use micro_erp_saas.Customers.Merge.{merged_primary, merged_secondary}
use micro_erp_saas.Customers.Books.{Merging, owners}

-- A change of neither table keeps them.
pub same-IsKept :
    (other : ℕ) (db db' : Db)
    → db'.customers ≡ db.customers
    → db'.transactions ≡ db.transactions
    → IsKept other db db'
same-IsKept other db db' p q = record { customers = rw p refl; transactions = rw q refl }

pub unchanged-IsKept : (other : ℕ) (db : Db) → IsKept other db db
unchanged-IsKept other db = record { customers = refl; transactions = refl }

module _ {tenant other : ℕ} (apart : (tenant == other) ≡ false) {db db' : Db} (s : IsSound db) where
  pub Reversing-IsKept : {o : Transaction} → Reversing tenant o db db' → IsKept other db db'
  Reversing-IsKept {o} r =
      let own = owner r in
      let at = find_where-test (is_customer tenant o.customer_id) db.customers r.customer r.found in
      record {
        customers = rw r.saved (
            customers_of-put_customer tenant other apart r.customer _ db.customers refl own.2
              s.distinct
              (subst (λ x. find_where (is_customer tenant x) db.customers ≡ some r.customer)
                (sym own.1) r.found));
        transactions = rw r.written (
            transactions_of-put_transaction tenant other apart o (marked o)
              (r.row ∷ db.transactions) refl own.0 (r.fresh, s.keyed) (stored_behind r)
            ∙ ground (arith, r.row_owner, apart));
      }

  pub Saving-IsKept : Saving tenant db db' → IsKept other db db'
  Saving-IsKept v =
      let at = find_where-test (is_customer tenant v.old.id) db.customers v.old v.found in
      record {
        customers = rw v.saved (
            customers_of-put_customer tenant other apart v.old v.new db.customers v.same_id
              (v.same_tenant ∙ ground arith) s.distinct v.found);
        transactions = rw v.kept refl;
      }

  pub Merging-IsKept : Merging tenant db db' → IsKept other db db'
  Merging-IsKept m =
      let own = owners m in
      let first = put_customer (merged_primary m.primary m.secondary) db.customers in
      record {
        customers = rw m.saved (
            customers_of-put_customer tenant other apart m.secondary (merged_secondary m.secondary)
              first refl own.1 (put_customer-IsDistinct _ db.customers s.distinct)
              (find_where-apart tenant m.secondary.id _ db.customers m.secondary m.apart
                m.found_secondary)
            ∙ customers_of-put_customer tenant other apart m.primary
                (merged_primary m.primary m.secondary) db.customers refl own.0 s.distinct
                m.found_primary);
        transactions = rw m.moved_all (
            select_where-update_where (is_owned tenant m.secondary.id) (λ t. t.tenant_id == other) _
              db.transactions (λ t hit. (ground arith, ground arith)));
      }
