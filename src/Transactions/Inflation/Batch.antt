-- ===== src/Transactions/Inflation/Batch.antt =====
-- The loop of the inflation adjustment: every round that writes is a posting on one debtor, the rows
-- behind it stay as they were loaded, and the sum that is reported is what the debts grew by.
use micro_erp_saas.Prelude.{
  ℕ, ◌≡◌, refl, sym, ◌∙◌, subst, true, false, Bool-cases, inl, inr, some, none, List, [], ◌∷◌, ◌==◌,
  arith, All, All-zip, any_where-All, find_where, select_where, select_where-All, select_where-test,
  Option-cases,
}
use micro_erp_saas.Prelude.Int.{
  ℤ, pos, ◌+ℤ◌, ◌≤ℤ◌, leb_ℤ, +ℤ_parts, +ℤ_zero, +ℤ_assoc, +ℤ_right_cancel, int_laws,
}
use micro_erp_saas.Entities.{Customer}
use micro_erp_saas.Number.{Number}
use micro_erp_saas.Store.{Db, Request, ok, is_customer}
use micro_erp_saas.Store.Commit.{Result-cases, run_tx_ind}
use micro_erp_saas.Ledger.Account.{SameTills, IsSound, IsSound-same, IsDistinct}
use micro_erp_saas.Ledger.Table.{
  IsStored, put_customer-IsStored, select_where-IsDistinct, All-IsStored, total_balance,
}
use micro_erp_saas.Ledger.Posting.{Posting, Posting-IsSound, Posting-total_balance}
use micro_erp_saas.Ledger.Isolation.{IsKept, IsKept-trans, IsApart, Posting-IsKept}
use micro_erp_saas.Transactions.Inflation.{
  adjustment_cents, adjustment_entry, write_adjustment, adjust_customer, adjust_all, is_debtor,
  lock_customers, new_batch, BatchResult, apply_inflation_adjustment, has_batch_key, batch_body,
}

-- Two rounds: what the total and the reported sum gain in each is the same.
sums_chain :
    (t t1 t' a a1 a' x : ℤ) → a1 ≡ a +ℤ x → t1 ≡ t +ℤ x → t' +ℤ a1 ≡ t1 +ℤ a' → t' +ℤ a ≡ t +ℤ a'
sums_chain t t1 t' a a1 a' x p q r =
    let sum : t' +ℤ (a +ℤ x) ≡ t +ℤ x +ℤ a' = rw (← p, ← q) r in
    let shift : t +ℤ x +ℤ a' ≡ t +ℤ a' +ℤ x = omega int_laws in
    +ℤ_right_cancel x (t' +ℤ a) (t +ℤ a') (+ℤ_assoc t' a x ∙ sum ∙ shift)

module _ (n : Number) (req : Request) (tenant user : ℕ) (percentage : n.Double) where
  -- What one round did: nothing, or a posting of the adjustment on its debtor.
  record Adjusted (c : Customer) (acc acc' : ℕ × ℤ) (db db' : Db) : Type 0 where
    amount : ℤ
    sum : acc'.1 ≡ acc.1 +ℤ amount
    sound : IsSound db → IsSound db'
    tills : SameTills db db'
    apart : (other : ℕ) → (tenant == other) ≡ false → IsDistinct db.customers → IsKept other db db'
    grown :
        IsDistinct db.customers → total_balance db'.customers ≡ total_balance db.customers +ℤ amount
    kept :
        (r : Customer) → (r.id == c.id) ≡ false → IsStored db.customers r → IsStored db'.customers r

  write_adjustment-Adjusted :
      (acc acc' : ℕ × ℤ) (c : Customer) (amount : ℤ) (db db' : Db)
      → c.tenant_id ≡ tenant
      → pos 0 ≤ℤ c.balance_cents
      → leb_ℤ amount (pos 0) ≡ false
      → IsStored db.customers c
      → write_adjustment n req tenant user percentage acc c amount db ≡ ok (acc', db')
      → Adjusted c acc acc' db db'
  unfolding write_adjustment
  write_adjustment-Adjusted acc acc' c amount db db' own debtor more stored h =
      let t = adjustment_entry n req tenant user percentage acc.0 c amount in
      let p : Posting tenant db db' = record {
        old = c;
        balance = c.balance_cents +ℤ amount;
        entries = t ∷ [];
        found = subst (λ x. find_where (is_customer x c.id) db.customers ≡ some c) own stored;
        saved = ground arith;
        appended = ground arith;
        owned = ground arith;
        moved = omega int_laws;
        nonneg = ground (arith, +ℤ_parts c.balance_cents amount);
        keyed = λ k. ground (arith, k);
        tills = (ground arith, ground arith);
      } in
      record {
        amount = amount;
        sum = ground arith;
        sound = Posting-IsSound p;
        tills = p.tills;
        apart = λ other ne d. Posting-IsKept tenant other ne p d;
        grown = λ d. Posting-total_balance p d ∙ (omega int_laws);
        kept = λ r apart old. rw p.saved (put_customer-IsStored _ r db.customers apart old);
      }

  adjust_customer-Adjusted :
      (acc acc' : ℕ × ℤ) (c : Customer) (db db' : Db)
      → c.tenant_id ≡ tenant
      → pos 0 ≤ℤ c.balance_cents
      → IsStored db.customers c
      → adjust_customer n req tenant user percentage acc c db ≡ ok (acc', db')
      → Adjusted c acc acc' db db'
  unfolding adjust_customer
  adjust_customer-Adjusted acc acc' c db db' own debtor stored h =
      let amount = adjustment_cents n percentage c.balance_cents in
      elim (Bool-cases (leb_ℤ amount (pos 0))) [
        | inr more ↦
            write_adjustment-Adjusted acc acc' c amount db db' own debtor more stored (rw more at h)
        | inl nothing ↦
            let same : db' ≡ db = ground arith in
            record {
              amount = pos 0;
              sum = ground (arith, +ℤ_zero acc.1);
              sound = λ s. rw same s;
              tills = rw same (refl, refl);
              apart = λ other ne d. rw same (record { customers = refl; transactions = refl });
              grown = λ d. rw same (omega int_laws);
              kept = λ r apart old. rw same old;
            }
      ]

  -- A debtor of the tenant, as the loop loads it.
  abbrev IsLoaded : List Customer → Customer → Type 0
  IsLoaded cs c = (c.tenant_id ≡ tenant) × (pos 0 ≤ℤ c.balance_cents) × IsStored cs c

  adjust_all-ok :
      (rest : List Customer) (acc acc' : ℕ × ℤ) (db db' : Db)
      → IsDistinct rest
      → All (IsLoaded db.customers) rest
      → IsSound db
      → adjust_all n req tenant user percentage acc rest db ≡ ok (acc', db')
      → IsSound db'
        × (total_balance db'.customers +ℤ acc.1 ≡ total_balance db.customers +ℤ acc'.1)
        × IsApart tenant db db'
        × SameTills db db'
  unfolding adjust_all
  adjust_all-ok [] acc acc' db db' d loaded s h =
      let same : db' ≡ db = ground arith in
      let done : acc' ≡ acc = ground arith in
      rw (same, done)
        (s, refl, λ other ne. record { customers = refl; transactions = refl }, (refl, refl))
  adjust_all-ok (c ∷ rest) acc acc' db db' d loaded s h =
      elim (Result-cases (adjust_customer n req tenant user percentage acc c db)) [
        | inr (e, failed) ↦ absurd (ground arith)
        | inl ((acc1, db1), first) ↦
            let one =
              adjust_customer-Adjusted acc acc1 c db db1 loaded.0.0 loaded.0.1 loaded.0.2 first in
            let later : All (IsLoaded db1.customers) rest =
              All-zip (λ r. (r.id == c.id) ≡ false) (IsLoaded db.customers) (IsLoaded db1.customers)
                rest (λ r apart load. (load.0, load.1, one.kept r apart load.2))
                (any_where-All (λ r. r.id == c.id) rest d.0) loaded.1 in
            let second : adjust_all n req tenant user percentage acc1 rest db1 ≡ ok (acc', db') =
              ground arith in
            let behind = adjust_all-ok rest acc1 acc' db1 db' d.1 later (one.sound s) second in
            (
              behind.0,
              sums_chain _ _ _ _ _ _ _ one.sum (one.grown s.distinct) behind.1,
              λ other ne.
                  IsKept-trans other db db1 db' (one.apart other ne s.distinct) (behind.2 other ne),
              (behind.3.0 ∙ one.tills.0, behind.3.1 ∙ one.tills.1),
            )
      ]

  pub new_batch-ok :
      (key : ℕ) (result : BatchResult) (db db' : Db)
      → IsSound db
      → new_batch n req tenant user percentage key db ≡ ok (result, db')
      → IsSound db'
        × (total_balance db'.customers
            ≡ total_balance db.customers +ℤ result.total_adjustment_cents)
        × IsApart tenant db db'
        × SameTills db db'
  unfolding new_batch lock_customers
  new_batch-ok key result db db' s h =
      let mine = select_where (λ c. c.tenant_id == tenant) db.customers in
      let debtors = select_where is_debtor mine in
      let loaded : All (IsLoaded db.customers) debtors =
        All-zip (λ c. (c.tenant_id == tenant) ≡ true)
          (λ c. (is_debtor c ≡ true) × IsStored db.customers c) (IsLoaded db.customers) debtors
          (λ c own owes. (ground arith, ground arith, owes.1))
          (select_where-All is_debtor (λ c. (c.tenant_id == tenant) ≡ true) mine
            (select_where-test (λ c. c.tenant_id == tenant) db.customers))
          (All-zip (λ c. is_debtor c ≡ true) (IsStored db.customers) _ debtors
            (λ c owes kept. (owes, kept)) (select_where-test is_debtor mine)
            (select_where-All is_debtor (IsStored db.customers) mine (
              select_where-All (λ c. c.tenant_id == tenant) (IsStored db.customers) db.customers
                (All-IsStored db.customers s.distinct)))) in
      elim (Result-cases (adjust_all n req tenant user percentage (0, pos 0) debtors db)) [
        | inr (e, failed) ↦ absurd (ground arith)
        | inl ((sums, db1), ran) ↦
            let all =
              adjust_all-ok debtors (0, pos 0) sums db db1
                (select_where-IsDistinct is_debtor mine
                  (select_where-IsDistinct (λ c. c.tenant_id == tenant) db.customers s.distinct))
                loaded s ran in
            let rows : db'.customers ≡ db1.customers = ground arith in
            let entries : db'.transactions ≡ db1.transactions = ground arith in
            let boards : db'.tenants ≡ db1.tenants = ground arith in
            let turns : db'.shifts ≡ db1.shifts = ground arith in
            let sum : result.total_adjustment_cents ≡ sums.1 = ground arith in
            (
              IsSound-same db1 db' rows entries all.0,
              rw (rows, sum) (sym (+ℤ_zero (total_balance db1.customers)) ∙ all.1),
              λ other ne. record {
                customers = rw rows (all.2 other ne).customers;
                transactions = rw entries (all.2 other ne).transactions;
              },
              (boards ∙ all.3.0, turns ∙ all.3.1),
            )
      ]

-- `applyInflationAdjustment` keeps the books sound, whatever the arithmetic of the percentage is.
pub apply_inflation_adjustment-IsSound :
    (n : Number) (req : Request) (tenant user : ℕ) (percentage : n.Double) (key : ℕ) (db : Db)
    → IsSound db
    → IsSound (apply_inflation_adjustment n req tenant user percentage key db).1
unfolding apply_inflation_adjustment
apply_inflation_adjustment-IsSound n req tenant user percentage key db s =
    run_tx_ind IsSound (batch_body n req tenant user percentage key) db s λ result db' e.
      elim (Option-cases (find_where (has_batch_key tenant key) db.batches)) [
        | inr (b, ran) ↦ let same : db' ≡ db = ground arith in rw same s
        | inl fresh ↦
            (new_batch-ok n req tenant user percentage key result db db' s (ground arith)).0
      ]

-- If the books are sound and the key was not processed before, the total that a successful
-- `applyInflationAdjustment` reports is exactly what the debts of all customers grew by together.
pub apply_inflation_adjustment_total :
    (n : Number) (req : Request) (tenant user : ℕ) (percentage : n.Double) (key : ℕ) (db : Db)
    (result : BatchResult)
    → IsSound db
    → find_where (has_batch_key tenant key) db.batches ≡ none
    → (apply_inflation_adjustment n req tenant user percentage key db).0 ≡ ok result
    → total_balance (apply_inflation_adjustment n req tenant user percentage key db).1.customers
      ≡ total_balance db.customers +ℤ result.total_adjustment_cents
unfolding apply_inflation_adjustment
apply_inflation_adjustment_total n req tenant user percentage key db result s fresh h =
    elim (Result-cases (new_batch n req tenant user percentage key db)) [
      | inr (e, failed) ↦ absurd (ground arith)
      | inl ((result', db'), ran) ↦
          let same : result ≡ result' = ground arith in
          let after : (apply_inflation_adjustment n req tenant user percentage key db).1 ≡ db' =
            ground arith in
          rw (after, same) (new_batch-ok n req tenant user percentage key result' db db' s ran).1
    ]
