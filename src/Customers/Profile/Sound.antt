-- ===== src/Customers/Profile/Sound.antt =====
-- The invariant of the books under the methods on one customer: none of them touches a balance, and
-- a new customer has no transactions yet.
use micro_erp_saas.Prelude.{
  ℕ, ◌≡◌, refl, sym, false, inl, inr, Option, some, List, [], ◌∷◌, ◌==◌, arith, Option-cases, All,
  find_where, find_where-test, find_where-All, update_where-All, any_where, any_where-narrow, subst,
}
use micro_erp_saas.Prelude.Int.{ℤ, pos, +ℤ_zero}
use micro_erp_saas.Entities.{Customer, Transaction}
use micro_erp_saas.Store.{Db, Request, ok, is_customer, put_customer}
use micro_erp_saas.Store.Commit.{run_tx_ind}
use micro_erp_saas.Ledger.Account.{
  SameTills, ledger, ledger-nil, ledger-cons, Agrees, IsDebtor, IsSound,
}
use micro_erp_saas.Ledger.Table.{put_customer-IsDistinct}
use micro_erp_saas.Customers.Profile.{
  CreateCustomerDto, UpdateCustomerDto, create, create_body, created_customer, known_customer,
  update_customer, update_body, patched_customer, update_credit_limit, limit_body, toggle_block,
  toggle_body, update_promise, promise_body, clashes_customer,
}

-- A customer's row is saved with the balance that it had.
pub record Saving (tenant : ℕ) (db db' : Db) : Type 0 where
  pub old : Customer
  pub new : Customer
  pub found : find_where (is_customer tenant old.id) db.customers ≡ some old
  pub same_id : new.id ≡ old.id
  pub same_tenant : new.tenant_id ≡ old.tenant_id
  pub same_balance : new.balance_cents ≡ old.balance_cents
  pub saved : db'.customers ≡ put_customer new db.customers
  pub kept : db'.transactions ≡ db.transactions
  pub tills : SameTills db db'

Saving-IsSound : (tenant : ℕ) (db db' : Db) → Saving tenant db db' → IsSound db → IsSound db'
Saving-IsSound tenant db db' v s = record {
  reconciled =
      let before =
        find_where-All (is_customer tenant v.old.id) (Agrees db.transactions) db.customers v.old
          s.reconciled v.found in
      rw (v.saved, v.kept)
        (update_where-All (λ r. r.id == v.new.id) (Agrees db.transactions) (Agrees db.transactions)
          (λ _. v.new) db.customers (λ c t a. rw (v.same_id, v.same_tenant, v.same_balance) before)
          (λ c f a. a) s.reconciled);
  solvent =
      let before =
        find_where-All (is_customer tenant v.old.id) IsDebtor db.customers v.old s.solvent
          v.found in
      rw v.saved (
        update_where-All (λ r. r.id == v.new.id) IsDebtor IsDebtor (λ _. v.new) db.customers
          (λ c t a. rw v.same_balance before) (λ c f a. a) s.solvent);
  keyed = rw v.kept s.keyed;
  distinct = rw v.saved (put_customer-IsDistinct _ db.customers s.distinct);
}

-- A customer without transactions owes nothing.
ledger-unused :
    (tenant customer : ℕ) (ts : List Transaction)
    → any_where (λ t. t.customer_id == customer) ts ≡ false
    → ledger tenant customer ts ≡ pos 0
ledger-unused tenant customer [] h = ledger-nil tenant customer
ledger-unused tenant customer (t ∷ ts) h =
    rw (ledger-cons, ledger-unused tenant customer ts (ground arith))
      (ground (arith, +ℤ_zero (pos 0)))

-- Each of these methods is such a save.
module _ (req : Request) (tenant : ℕ) (db : Db) where
  pub update_customer-Saving :
      (id : ℕ) (dto : UpdateCustomerDto) (c : Customer) (db' : Db)
      → update_body req tenant id dto db ≡ ok (c, db')
      → Saving tenant db db'
  update_customer-Saving id dto c db' ran =
      elim (Option-cases (find_where (is_customer tenant id) db.customers)) [
        | inl absent ↦ absurd (ground arith)
        | inr (old, found) ↦
            let at = find_where-test (is_customer tenant id) db.customers old found in
            record {
              old = old;
              new = patched_customer req tenant dto old;
              found = ground arith;
              same_id = refl;
              same_tenant = refl;
              same_balance = refl;
              saved = ground arith;
              kept = ground arith;
              tills = (ground arith, ground arith);
            }
      ]

  pub update_credit_limit-Saving :
      (id : ℕ) (limit : ℤ) (c : Customer) (db' : Db)
      → limit_body req tenant id limit db ≡ ok (c, db')
      → Saving tenant db db'
  update_credit_limit-Saving id limit c db' ran =
      elim (Option-cases (find_where (is_customer tenant id) db.customers)) [
        | inl absent ↦ absurd (ground arith)
        | inr (old, found) ↦
            let at = find_where-test (is_customer tenant id) db.customers old found in
            record {
              old = old;
              new = c;
              found = ground arith;
              same_id = ground arith;
              same_tenant = ground arith;
              same_balance = ground arith;
              saved = ground arith;
              kept = ground arith;
              tills = (ground arith, ground arith);
            }
      ]

  pub toggle_block-Saving :
      (id : ℕ) (c : Customer) (db' : Db)
      → toggle_body req tenant id db ≡ ok (c, db')
      → Saving tenant db db'
  toggle_block-Saving id c db' ran =
      elim (Option-cases (find_where (is_customer tenant id) db.customers)) [
        | inl absent ↦ absurd (ground arith)
        | inr (old, found) ↦
            let at = find_where-test (is_customer tenant id) db.customers old found in
            record {
              old = old;
              new = c;
              found = ground arith;
              same_id = ground arith;
              same_tenant = ground arith;
              same_balance = ground arith;
              saved = ground arith;
              kept = ground arith;
              tills = (ground arith, ground arith);
            }
      ]

  pub update_promise-Saving :
      (id : ℕ) (date : Option ℕ) (c : Customer) (db' : Db)
      → promise_body req tenant id date db ≡ ok (c, db')
      → Saving tenant db db'
  update_promise-Saving id date c db' ran =
      elim (Option-cases (find_where (is_customer tenant id) db.customers)) [
        | inl absent ↦ absurd (ground arith)
        | inr (old, found) ↦
            let at = find_where-test (is_customer tenant id) db.customers old found in
            record {
              old = old;
              new = c;
              found = ground arith;
              same_id = ground arith;
              same_tenant = ground arith;
              same_balance = ground arith;
              saved = ground arith;
              kept = ground arith;
              tills = (ground arith, ground arith);
            }
      ]

module _ (req : Request) (tenant : ℕ) (db : Db) (s : IsSound db) where
  -- `create` keeps the books sound if no transaction names the new customer's identifier.
  pub create-IsSound :
      (dto : CreateCustomerDto)
      → any_where (λ t. t.customer_id == req.uuid 0) db.transactions ≡ false
      → IsSound (create req tenant dto db).1
  unfolding create
  create-IsSound dto unused = run_tx_ind IsSound (create_body req tenant dto) db s λ c db' ran.
      elim (Option-cases (known_customer req tenant dto.idempotency_key db)) [
        | inr (old, known) ↦ let same : db' ≡ db = ground arith in rw same s
        | inl fresh ↦
            let rows : db'.customers ≡ created_customer req tenant dto ∷ db.customers =
              ground arith in
            let kept : db'.transactions ≡ db.transactions = ground arith in
            let apart : any_where (clashes_customer (created_customer req tenant dto)) db.customers
                ≡ false =
              ground arith in
            let new_id =
              any_where-narrow (λ r. r.id == req.uuid 0)
                (clashes_customer (created_customer req tenant dto)) db.customers
                (λ r hit. ground arith) apart in
            record {
              reconciled = rw rows (
                ground (arith, ledger-unused tenant (req.uuid 0) db.transactions unused),
                subst (λ ts. All (Agrees ts) db.customers) (sym kept) s.reconciled,
              );
              solvent = rw rows (ground arith, s.solvent);
              keyed = rw kept s.keyed;
              distinct = rw rows (new_id, s.distinct);
            }
      ]

  pub update_customer-IsSound :
      (id : ℕ) (dto : UpdateCustomerDto) → IsSound (update_customer req tenant id dto db).1
  unfolding update_customer
  update_customer-IsSound id dto =
      run_tx_ind IsSound (update_body req tenant id dto) db s λ c db' ran.
        Saving-IsSound tenant db db' (update_customer-Saving req tenant db id dto c db' ran) s

  pub update_credit_limit-IsSound :
      (id : ℕ) (limit : ℤ) → IsSound (update_credit_limit req tenant id limit db).1
  unfolding update_credit_limit
  update_credit_limit-IsSound id limit =
      run_tx_ind IsSound (limit_body req tenant id limit) db s λ c db' ran.
        Saving-IsSound tenant db db' (update_credit_limit-Saving req tenant db id limit c db' ran) s

  pub toggle_block-IsSound : (id : ℕ) → IsSound (toggle_block req tenant id db).1
  unfolding toggle_block
  toggle_block-IsSound id =
      run_tx_ind IsSound (toggle_body req tenant id) db s
        λ c db' ran. Saving-IsSound tenant db db' (toggle_block-Saving req tenant db id c db' ran) s

  pub update_promise-IsSound :
      (id : ℕ) (date : Option ℕ) → IsSound (update_promise req tenant id date db).1
  unfolding update_promise
  update_promise-IsSound id date =
      run_tx_ind IsSound (promise_body req tenant id date) db s λ c db' ran.
        Saving-IsSound tenant db db' (update_promise-Saving req tenant db id date c db' ran) s
