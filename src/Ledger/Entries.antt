-- ===== src/Ledger/Entries.antt =====
-- Stored transactions and their idempotency keys: what every change of the table leaves of a row that
-- a key names.
use micro_erp_saas.Prelude.{
  ℕ, ◌≡◌, refl, ap, ◌∙◌, Bool, false, inl, inr, none, some, List, [], ◌∷◌, ◌++◌, ◌==◌, arith,
  Bool-cases, find_where, find_where-test, any_where-find_where, any_where-narrow, update_where,
  update_where-none,
}
use micro_erp_saas.Entities.{Transaction}
use micro_erp_saas.Store.{clashes, has_key, is_transaction, put_transaction}
use micro_erp_saas.Ledger.Account.{IsKeyed}
use micro_erp_saas.Ledger.Marking.{SameKeys, keyed-head}

-- A transaction without the columns that later requests write: the owner after a merge, the mark of a
-- reversal, and the turn of the till.
abbrev pub core : Transaction → Transaction
core t = record t { customer_id = 0; is_reversed = false; cash_register_log_id = none }

-- The row that the key of a tenant names is still there, and the same but for these columns.
abbrev pub Stays : ℕ → ℕ → List Transaction → List Transaction → Type 0
Stays tenant key ts ts' =
    (t : Transaction)
    → find_where (has_key tenant key) ts ≡ some t
    → (t' : Transaction) × (find_where (has_key tenant key) ts' ≡ some t') × (core t' ≡ core t)

module _ (tenant key : ℕ) where
  pub Stays-refl : (ts : List Transaction) → Stays tenant key ts ts
  Stays-refl ts t found = (t, found, refl)

  pub Stays-trans :
      (ts ts1 ts2 : List Transaction)
      → Stays tenant key ts ts1
      → Stays tenant key ts1 ts2
      → Stays tenant key ts ts2
  Stays-trans ts ts1 ts2 first second t found =
      let (t1, found1, same1) = first t found in
      let (t2, found2, same2) = second t1 found1 in (t2, found2, same2 ∙ same1)

  -- New rows have other keys.
  pub append-Stays :
      (entries ts : List Transaction)
      → IsKeyed (entries ++ ts)
      → Stays tenant key ts (entries ++ ts)
  append-Stays [] ts k t found = (t, found, refl)
  append-Stays (e ∷ es) ts k t found =
      let (t', later, same) = append-Stays es ts k.1 t found in
      let at = find_where-test (has_key tenant key) (es ++ ts) t' later in
      let apart = any_where-find_where _ (has_key tenant key) (es ++ ts) t' k.0 later in
      (t', ground (arith, apart, at, later), same)

  -- A column outside of the core is set on some rows.
  pub update_where-Stays :
      (test : Transaction → Bool) (change : Transaction → Transaction) (ts : List Transaction)
      → ((t : Transaction) → core (change t) ≡ core t)
      → Stays tenant key ts (update_where test change ts)
  update_where-Stays test change [] same t found = absurd (ground arith)
  update_where-Stays test change (x ∷ xs) same t found =
      let own : (change x).tenant_id ≡ x.tenant_id = ap (λ r. r.tenant_id) (same x) in
      let named : (change x).idempotency_key ≡ x.idempotency_key =
        ap (λ r. r.idempotency_key) (same x) in
      elim (Bool-cases (has_key tenant key x)) [
        | inl hit ↦
            let head : x ≡ t = ground arith in
            elim (Bool-cases (test x)) [
              | inl changed ↦ rw (changed, ← head) (change x, ground (arith, own, named), same x)
              | inr kept ↦ rw kept (t, ground arith, refl)
            ]
        | inr miss ↦
            let (t', later, core_same) = update_where-Stays test change xs same t (ground arith) in
            elim (Bool-cases (test x)) [
              | inl changed ↦ (t', ground (arith, changed, own, named, later), core_same)
              | inr kept ↦ (t', ground (arith, kept, later), core_same)
            ]
      ]

  -- A row is replaced by one with the same core.
  pub put_transaction-Stays :
      (owner : ℕ) (o o' : Transaction) (ts : List Transaction)
      → core o' ≡ core o
      → IsKeyed ts
      → find_where (is_transaction owner o.id) ts ≡ some o
      → Stays tenant key ts (put_transaction o' ts)
  put_transaction-Stays owner o o' [] same k stored t found = absurd (ground arith)
  put_transaction-Stays owner o o' (x ∷ xs) same k stored t found =
      let keys : SameKeys o o' = record {
        id = ap (λ r. r.id) same;
        tenant = ap (λ r. r.tenant_id) same;
        key = ap (λ r. r.idempotency_key) same;
      } in
      let id = keys.id in
      elim (Bool-cases (x.id == o.id)) [
        | inl hit ↦
            let head = keyed-head owner o o' keys x xs k stored hit in
            let alone =
              any_where-narrow (λ r. r.id == o'.id) (clashes x) xs (λ r e. ground (arith, head, id))
                k.0 in
            let rest : put_transaction o' xs ≡ xs =
              update_where-none (λ r. r.id == o'.id) (λ _. o') xs alone in
            elim (Bool-cases (has_key tenant key x)) [
              | inl named ↦
                  let own : o ≡ t = ground (arith, head) in
                  (o', ground (arith, id, hit, head, keys.tenant, keys.key), rw (← own) same)
              | inr other ↦ (t, ground (arith, id, hit, head, keys.tenant, keys.key, rest), refl)
            ]
        | inr miss ↦
            let behind : find_where (is_transaction owner o.id) xs ≡ some o = ground arith in
            elim (Bool-cases (has_key tenant key x)) [
              | inl named ↦ (t, ground (arith, id, miss), refl)
              | inr other ↦
                  let (t', later, core_same) =
                    put_transaction-Stays owner o o' xs same k.1 behind t (ground arith) in
                  (t', ground (arith, id, miss, later), core_same)
            ]
      ]
