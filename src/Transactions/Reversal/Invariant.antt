-- ===== src/Transactions/Reversal/Invariant.antt =====
-- The invariant of the books under `reverseTransaction`. The sum is kept where the subtraction does
-- not stop at zero and the original is no reversal itself; solvency and the keys always are.
use micro_erp_saas.Prelude.{
  if◌then◌else◌, ℕ, ◌≡◌, ◌≢◌, refl, ◌∙◌, subst, false, some, ◌∷◌, ◌==◌, arith, find_where,
  find_where-test, find_where-All, any_where-find_where, update_where-All,
}
use micro_erp_saas.Prelude.Int.{ℤ, pos, ◌+ℤ◌, ◌-ℤ◌, ◌≤ℤ◌, ltb_ℤ, int_laws, neg_ℤ}
use micro_erp_saas.Entities.{
  TransactionType, debt, payment, reversal, inflation_adjustment, forgiveness, Customer,
  Transaction,
}
use micro_erp_saas.Store.{Db, Request, clashes, is_customer, is_transaction}
use micro_erp_saas.Ledger.Account.{
  type_effect, owned_effect, ledger, ledger-cons, Agrees, IsDebtor, IsSolvent, IsKeyed,
  IsReconciled, IsSound,
}
use micro_erp_saas.Ledger.Table.{put_customer-IsDistinct}
use micro_erp_saas.Ledger.Marking.{SameKeys, put_transaction-IsKeyed, ledger-put}
use micro_erp_saas.Transactions.Dto.{ReverseTransactionDto}
use micro_erp_saas.Transactions.Sound.{unless_known_ind}
use micro_erp_saas.Transactions.Reversal.{reversed_balance, reverse_transaction}
use micro_erp_saas.Transactions.Reversal.Books.{marked, Reversing, new_reversal-Reversing}

reversed_balance_nonneg : (type : TransactionType) (a b : ℤ) → pos 0 ≤ℤ reversed_balance type a b
unfolding reversed_balance
reversed_balance_nonneg type a b = ground arith

kept_above_zero : (x y : ℤ) → x ≡ y → pos 0 ≤ℤ y → (if ltb_ℤ x (pos 0) then pos 0 else x) ≡ y
kept_above_zero x y e h = rw e (ground arith)

-- Above zero the balance loses exactly the effect of the original.
unclamped :
    (type : TransactionType) (a b : ℤ)
    → type ≢ reversal
    → type_effect type a ≤ℤ b
    → reversed_balance type a b ≡ b -ℤ type_effect type a
unfolding reversed_balance
unclamped debt a b ne le = kept_above_zero _ _ refl (omega int_laws)
unclamped inflation_adjustment a b ne le = kept_above_zero _ _ refl (omega int_laws)
unclamped payment a b ne le =
    kept_above_zero (b +ℤ a) (b -ℤ neg_ℤ a) (omega int_laws) (omega int_laws)
unclamped forgiveness a b ne le =
    kept_above_zero (b +ℤ a) (b -ℤ neg_ℤ a) (omega int_laws) (omega int_laws)
unclamped reversal a b ne le = absurd (ne refl)

module _ {tenant : ℕ} {o : Transaction} {db db' : Db} (r : Reversing tenant o db db') where
  pub marked-SameKeys : SameKeys o (marked o)
  marked-SameKeys = record { id = refl; tenant = refl; key = refl }

  -- The new row is not the original, so the original is found behind it.
  pub stored_behind : find_where (is_transaction tenant o.id) (r.row ∷ db.transactions) ≡ some o
  stored_behind =
      let apart =
        any_where-find_where (clashes r.row) (is_transaction tenant o.id) db.transactions o r.fresh
          r.stored in
      ground (arith, r.stored)

  Reversing-IsKeyed : IsKeyed db.transactions → IsKeyed db'.transactions
  Reversing-IsKeyed k = rw r.written (
      put_transaction-IsKeyed tenant o (marked o) marked-SameKeys (r.row ∷ db.transactions)
        (r.fresh, k) stored_behind)

  pub Reversing-IsSolvent : IsSolvent db → IsSolvent db'
  Reversing-IsSolvent h = rw r.saved (
      update_where-All (λ c. c.id == r.customer.id) IsDebtor IsDebtor _ db.customers
        (λ c t a. reversed_balance_nonneg o.type o.amount_cents r.customer.balance_cents)
        (λ c f a. a) h)

  -- The sum of a customer loses the effect of the original if it is on that customer.
  ledger-reversed :
      (j i : ℕ)
      → IsKeyed db.transactions
      → ledger j i db'.transactions +ℤ owned_effect j i o ≡ ledger j i db.transactions
  ledger-reversed j i k =
      let sum =
        ledger-put tenant o (marked o) marked-SameKeys j i (r.row ∷ db.transactions) (r.fresh, k)
          stored_behind in
      let none_of_marked : owned_effect j i (marked o) ≡ pos 0 = ground arith in
      let none_of_row : owned_effect j i r.row ≡ pos 0 = ground (arith, r.row_type) in
      rw r.written (sum ∙ rw (none_of_marked, ledger-cons, none_of_row) (omega int_laws))

  pub owner :
      (o.tenant_id ≡ tenant) × (r.customer.id ≡ o.customer_id) × (r.customer.tenant_id ≡ tenant)
  owner =
      let at = find_where-test (is_transaction tenant o.id) db.transactions o r.stored in
      let on = find_where-test (is_customer tenant o.customer_id) db.customers r.customer r.found in
      (ground arith, ground arith, ground arith)

  Reversing-IsReconciled :
      o.type ≢ reversal
      → type_effect o.type o.amount_cents ≤ℤ r.customer.balance_cents
      → IsKeyed db.transactions
      → IsReconciled db
      → IsReconciled db'
  Reversing-IsReconciled ne le k h = rw r.saved (
      update_where-All (λ c. c.id == r.customer.id) (Agrees db.transactions)
        (Agrees db'.transactions) _ db.customers (λ c t a. hit)
        (λ c f a. a ∙ miss c (ground (arith, owner.1))) h)
    where
      before : Agrees db.transactions r.customer
      before =
          find_where-All (is_customer tenant o.customer_id) (Agrees db.transactions) db.customers
            r.customer h r.found

      hit :
          reversed_balance o.type o.amount_cents r.customer.balance_cents
          ≡ ledger r.customer.tenant_id r.customer.id db'.transactions
      hit =
          let sum = ledger-reversed r.customer.tenant_id r.customer.id k in
          let own : owned_effect r.customer.tenant_id r.customer.id o
              ≡ type_effect o.type o.amount_cents =
            ground (arith, owner, r.unreversed) in
          unclamped o.type o.amount_cents r.customer.balance_cents ne le
          ∙ rw (before, ← sum, own) (omega int_laws)

      miss :
          (c : Customer)
          → (c.id == o.customer_id) ≡ false
          → ledger c.tenant_id c.id db.transactions ≡ ledger c.tenant_id c.id db'.transactions
      miss c f =
          let sum = ledger-reversed c.tenant_id c.id k in
          let other : owned_effect c.tenant_id c.id o ≡ pos 0 = ground arith in
          rw (← sum, other) (omega int_laws)

  Reversing-IsSound :
      (c : Customer)
      → find_where (is_customer tenant o.customer_id) db.customers ≡ some c
      → o.type ≢ reversal
      → type_effect o.type o.amount_cents ≤ℤ c.balance_cents
      → IsSound db
      → IsSound db'
  Reversing-IsSound c found ne le s =
      let payer : r.customer ≡ c = cc (r.found, found) in
      record {
        reconciled = Reversing-IsReconciled ne (rw payer le) s.keyed s.reconciled;
        solvent = Reversing-IsSolvent s.solvent;
        keyed = Reversing-IsKeyed s.keyed;
        distinct = rw r.saved (put_customer-IsDistinct _ db.customers s.distinct);
      }

module _ (req : Request) (tenant user : ℕ) (dto : ReverseTransactionDto) (id : ℕ) (db : Db) where
  -- Whatever is reversed, no balance becomes negative if none was.
  pub reverse_transaction-IsSolvent :
      IsSolvent db → IsSolvent (reverse_transaction req tenant user dto id db).1
  unfolding reverse_transaction
  reverse_transaction-IsSolvent s =
      unless_known_ind IsSolvent tenant _ _ _ db (λ t a db' e. ground arith) s
        λ t db' e.
          let (o, stored, r) = new_reversal-Reversing req tenant user dto db id t db' e in
          Reversing-IsSolvent r s

  -- Reversing a transaction keeps the books sound if the original that is found is no reversal and
  -- its effect is at most the balance of its customer, who is found.
  pub reverse_transaction-IsSound :
      (o : Transaction) (c : Customer)
      → find_where (is_transaction tenant id) db.transactions ≡ some o
      → find_where (is_customer tenant o.customer_id) db.customers ≡ some c
      → o.type ≢ reversal
      → type_effect o.type o.amount_cents ≤ℤ c.balance_cents
      → IsSound db
      → IsSound (reverse_transaction req tenant user dto id db).1
  unfolding reverse_transaction
  reverse_transaction-IsSound o c stored found ne le s =
      unless_known_ind IsSound tenant dto.idempotency_key _ _ db (λ t a db' e. ground arith) s
        λ t db' e.
          let reversing = new_reversal-Reversing req tenant user dto db id t db' e in
          let same : reversing.0 ≡ o = cc (reversing.1, stored) in
          Reversing-IsSound (subst (λ x. Reversing tenant x db db') same reversing.2) c found ne le
            s
