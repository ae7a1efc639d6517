-- ===== src/Ledger/Table.antt =====
-- The customers' table as a keyed table: one row for an identifier, and what a save of a row keeps.
use micro_erp_saas.Prelude.{
  ℕ, ◌≡◌, refl, Bool, true, false, Bool-cases, inl, inr, some, List, [], ◌∷◌, ◌==◌, arith, All,
  All-zip, any_where, any_where-All, any_where-find_where, any_where-select_where, find_where,
  select_where,
}
use micro_erp_saas.Prelude.Int.{ℤ, pos, ◌+ℤ◌, +ℤ_swap, int_laws}
use micro_erp_saas.Entities.{Customer}
use micro_erp_saas.Store.{is_customer, put_customer}
use micro_erp_saas.Ledger.Account.{IsDistinct}

-- The row is the one that is stored under its identifiers.
abbrev pub IsStored : List Customer → Customer → Type 0
IsStored cs c = find_where (is_customer c.tenant_id c.id) cs ≡ some c

any_where-put_customer :
    (i : ℕ) (c : Customer) (cs : List Customer)
    → any_where (λ r. r.id == i) (put_customer c cs) ≡ any_where (λ r. r.id == i) cs
any_where-put_customer i c [] = refl
any_where-put_customer i c (r ∷ cs) = ground (arith, any_where-put_customer i c cs)

-- A save changes no identifier.
pub put_customer-IsDistinct :
    (c : Customer) (cs : List Customer) → IsDistinct cs → IsDistinct (put_customer c cs)
put_customer-IsDistinct c [] h = tt
put_customer-IsDistinct c (r ∷ cs) h = (
  elim (Bool-cases (r.id == c.id)) [
    | inl hit ↦
        ground (arith, hit, h.0, any_where-put_customer c.id c cs, any_where-put_customer r.id c cs)
    | inr miss ↦ ground (arith, miss, h.0, any_where-put_customer r.id c cs)
  ],
  put_customer-IsDistinct c cs h.1,
)

pub select_where-IsDistinct :
    (test : Customer → Bool) (cs : List Customer)
    → IsDistinct cs
    → IsDistinct (select_where test cs)
select_where-IsDistinct test [] h = tt
select_where-IsDistinct test (c ∷ cs) h = elim (Bool-cases (test c)) [
  | inl hit ↦
      rw hit (
        any_where-select_where (λ r. r.id == c.id) test cs h.0,
        select_where-IsDistinct test cs h.1,
      )
  | inr miss ↦ rw miss (select_where-IsDistinct test cs h.1)
]

-- Every row of the table is stored under its identifiers.
pub All-IsStored : (cs : List Customer) → IsDistinct cs → All (IsStored cs) cs
All-IsStored [] h = tt
All-IsStored (c ∷ cs) h = (
  ground arith,
  All-zip (λ r. (r.id == c.id) ≡ false) (IsStored cs) (IsStored (c ∷ cs)) cs
      (λ r apart stored. ground arith) (any_where-All (λ r. r.id == c.id) cs h.0)
      (All-IsStored cs h.1),
)

-- A save of one row leaves every other row stored.
pub put_customer-IsStored :
    (c r : Customer) (cs : List Customer)
    → (r.id == c.id) ≡ false
    → IsStored cs r
    → IsStored (put_customer c cs) r
put_customer-IsStored c r [] apart h = h
put_customer-IsStored c r (x ∷ cs) apart h = elim (Bool-cases (is_customer r.tenant_id r.id x)) [
  | inl hit ↦ ground arith
  | inr miss ↦ ground (arith, put_customer-IsStored c r cs apart)
]

-- What all customers owe.
abbrev pub total_balance : List Customer → ℤ
total_balance [] = pos 0
total_balance (c ∷ cs) = c.balance_cents +ℤ total_balance cs

module _ (tenant : ℕ) (o : Customer) where
  put-absent :
      (c : Customer) (cs : List Customer)
      → c.id ≡ o.id
      → any_where (λ r. r.id == o.id) cs ≡ false
      → put_customer c cs ≡ cs
  put-absent c [] e h = refl
  put-absent c (r ∷ cs) e h = ground (arith, put-absent c cs e)

  -- The row with the identifier of the one that was found is that row.
  pub distinct-head :
      (c : Customer) (cs : List Customer)
      → IsDistinct (c ∷ cs)
      → find_where (is_customer tenant o.id) (c ∷ cs) ≡ some o
      → (c.id == o.id) ≡ true
      → c ≡ o
  distinct-head c cs h found e = elim (Bool-cases (is_customer tenant o.id c)) [
    | inl hit ↦ ground arith
    | inr miss ↦
        let later : find_where (is_customer tenant o.id) cs ≡ some o = ground arith in
        let apart =
          any_where-find_where (λ r. r.id == c.id) (is_customer tenant o.id) cs o h.0 later in
        absurd (ground arith)
  ]

  -- A save of the row changes the total by the difference of the balances.
  pub total_balance-save :
      (new : Customer) (cs : List Customer)
      → new.id ≡ o.id
      → IsDistinct cs
      → find_where (is_customer tenant o.id) cs ≡ some o
      → total_balance (put_customer new cs) +ℤ o.balance_cents
        ≡ total_balance cs +ℤ new.balance_cents
  total_balance-save new [] same h found = absurd (ground arith)
  total_balance-save new (c ∷ cs) same h found = elim (Bool-cases (c.id == o.id)) [
    | inl hit ↦
        let head = distinct-head c cs h found hit in
        let rest = put-absent new cs same (ground (arith, head, h.0)) in
        rw (same, hit, rest, head) (omega int_laws)
    | inr miss ↦
        let later : find_where (is_customer tenant o.id) cs ≡ some o = ground arith in
        let apart : (c.id == new.id) ≡ false = ground arith in
        rw apart (+ℤ_swap _ _ _ _ _ (total_balance-save new cs same h.1 later))
  ]

  pub total_balance-put :
      (b : ℤ) (cs : List Customer)
      → IsDistinct cs
      → find_where (is_customer tenant o.id) cs ≡ some o
      → total_balance (put_customer (record o { balance_cents = b }) cs) +ℤ o.balance_cents
        ≡ total_balance cs +ℤ b
  total_balance-put b cs = total_balance-save (record o { balance_cents = b }) cs refl

-- A saved row does not hide a customer with another identifier.
pub find_where-apart :
    (tenant id : ℕ) (new : Customer) (cs : List Customer) (c : Customer)
    → (new.id == id) ≡ false
    → find_where (is_customer tenant id) cs ≡ some c
    → find_where (is_customer tenant id) (put_customer new cs) ≡ some c
find_where-apart tenant id new [] c apart h = h
find_where-apart tenant id new (x ∷ xs) c apart h =
    ground (arith, find_where-apart tenant id new xs c apart)
