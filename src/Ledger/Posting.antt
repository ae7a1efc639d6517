-- ===== src/Ledger/Posting.antt =====
-- A posting: transactions for one customer are appended, and the customer's row is saved with the
-- balance that they make. Every successful charge is one, and a posting keeps the ledger's sum.
use micro_erp_saas.Prelude.{
  ℕ, ◌≡◌, refl, sym, ◌∙◌, false, List, [], ◌∷◌, ◌++◌, some, ◌==◌, All, arith, find_where,
  find_where-All, find_where-test, update_where-All,
}
use micro_erp_saas.Prelude.Int.{ℤ, pos, ◌+ℤ◌, ◌≤ℤ◌, +ℤ_right_cancel, int_laws}
use micro_erp_saas.Entities.{Customer, Transaction}
use micro_erp_saas.Store.{Db, is_customer, put_customer}
use micro_erp_saas.Ledger.Table.{put_customer-IsDistinct, total_balance, total_balance-put}
use micro_erp_saas.Ledger.Account.{
  effect, ledger, ledger-cons, Agrees, IsReconciled, IsDebtor, IsSolvent, IsKeyed, IsDistinct,
  IsSound, SameTills,
}

-- The sum of the effects, whoever they are on.
abbrev pub total_effect : List Transaction → ℤ
total_effect [] = pos 0
total_effect (t ∷ ts) = effect t +ℤ total_effect ts

abbrev pub IsOwned : ℕ → ℕ → Transaction → Type 0
IsOwned tenant customer t = (t.tenant_id ≡ tenant) × (t.customer_id ≡ customer)

pub record Posting (tenant : ℕ) (db db' : Db) : Type 0 where
  pub old : Customer
  pub balance : ℤ
  pub entries : List Transaction
  pub found : find_where (is_customer tenant old.id) db.customers ≡ some old
  pub saved : db'.customers ≡ put_customer (record old { balance_cents = balance }) db.customers
  pub appended : db'.transactions ≡ entries ++ db.transactions
  pub owned : All (IsOwned tenant old.id) entries
  pub moved : balance ≡ old.balance_cents +ℤ total_effect entries
  pub nonneg : pos 0 ≤ℤ balance
  pub keyed : IsKeyed db.transactions → IsKeyed db'.transactions
  pub tills : SameTills db db'

ledger-append_owned :
    (tenant customer : ℕ) (entries ts : List Transaction)
    → All (IsOwned tenant customer) entries
    → ledger tenant customer (entries ++ ts) ≡ total_effect entries +ℤ ledger tenant customer ts
ledger-append_owned tenant customer [] ts h = omega int_laws
ledger-append_owned tenant customer (e ∷ es) ts h =
    rw ledger-cons (grind (int_laws, ledger-append_owned tenant customer es ts h.1))

ledger-append_other :
    (tenant customer i : ℕ) (j : ℕ) (entries ts : List Transaction)
    → All (IsOwned tenant customer) entries
    → (customer == i) ≡ false
    → ledger j i (entries ++ ts) ≡ ledger j i ts
ledger-append_other tenant customer i j [] ts h ne = refl
ledger-append_other tenant customer i j (e ∷ es) ts h ne =
    rw ledger-cons (grind (int_laws, ledger-append_other tenant customer i j es ts h.1 ne))

module _ {tenant : ℕ} {db db' : Db} (p : Posting tenant db db') where
  pub posting_owner : (p.old.tenant_id ≡ tenant)
  posting_owner =
      let t = find_where-test (is_customer tenant p.old.id) db.customers p.old p.found in
      ground arith

  saved-Agrees :
      IsReconciled db
      → Agrees (p.entries ++ db.transactions) (record p.old { balance_cents = p.balance })
  saved-Agrees h =
      let before : Agrees db.transactions p.old =
        find_where-All (is_customer tenant p.old.id) (Agrees db.transactions) db.customers p.old h
          p.found in
      rw (posting_owner, ledger-append_owned tenant p.old.id p.entries db.transactions p.owned)
        (rw (p.moved, before, posting_owner) (omega int_laws))

  -- A posting keeps every balance equal to the sum of the transactions.
  pub Posting-IsReconciled : IsReconciled db → IsReconciled db'
  Posting-IsReconciled h =
      rw (p.saved, p.appended)
        (update_where-All (λ r. r.id == p.old.id) (Agrees db.transactions)
          (Agrees (p.entries ++ db.transactions)) (λ _. record p.old { balance_cents = p.balance })
          db.customers (λ c t a. saved-Agrees h)
          (λ c f a.
            a
            ∙ sym (
                ledger-append_other tenant p.old.id c.id c.tenant_id p.entries db.transactions
                  p.owned (ground arith)))
          h)

  -- A posting keeps every balance at zero or above.
  pub Posting-IsSolvent : IsSolvent db → IsSolvent db'
  Posting-IsSolvent h = rw p.saved (
      update_where-All (λ r. r.id == p.old.id) IsDebtor IsDebtor
        (λ _. record p.old { balance_cents = p.balance }) db.customers (λ c t a. p.nonneg)
        (λ c f a. a) h)

  pub Posting-IsSound : IsSound db → IsSound db'
  Posting-IsSound s = record {
    reconciled = Posting-IsReconciled s.reconciled;
    solvent = Posting-IsSolvent s.solvent;
    keyed = p.keyed s.keyed;
    distinct = rw p.saved (put_customer-IsDistinct _ db.customers s.distinct);
  }

  -- The total of all balances moves by the effects of the entries.
  pub Posting-total_balance :
      IsDistinct db.customers
      → total_balance db'.customers ≡ total_balance db.customers +ℤ total_effect p.entries
  Posting-total_balance d =
      let sum = total_balance-put tenant p.old p.balance db.customers d p.found in
      rw p.saved (cancel _ _ p.old.balance_cents _ (sum ∙ rw p.moved (omega int_laws)))
    where
      cancel : (a b c d : ℤ) → a +ℤ c ≡ b +ℤ d +ℤ c → a ≡ b +ℤ d
      cancel a b c d e = +ℤ_right_cancel c a (b +ℤ d) e
