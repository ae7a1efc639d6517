-- ===== src/Ledger/Marking.antt =====
-- Saving one stored transaction again, with other marks: what that does to the keys and to the sum.
use micro_erp_saas.Prelude.{
  ℕ, ◌≡◌, refl, true, false, Bool-cases, inl, inr, some, List, [], ◌∷◌, ◌==◌, arith, any_where,
  find_where, any_where-find_where, ◌∙◌,
}
use micro_erp_saas.Prelude.Int.{◌+ℤ◌, +ℤ_swap, int_laws}
use micro_erp_saas.Entities.{Transaction}
use micro_erp_saas.Store.{clashes, is_transaction, put_transaction}
use micro_erp_saas.Ledger.Account.{owned_effect, ledger, ledger-cons, IsKeyed}

-- The key columns, which no update writes.
pub record SameKeys (o o' : Transaction) : Type 0 where
  pub id : o'.id ≡ o.id
  pub tenant : o'.tenant_id ≡ o.tenant_id
  pub key : o'.idempotency_key ≡ o.idempotency_key

module _ (tenant : ℕ) (o o' : Transaction) (same : SameKeys o o') where
  put-absent :
      (ts : List Transaction) → any_where (clashes o) ts ≡ false → put_transaction o' ts ≡ ts
  put-absent [] h = refl
  put-absent (y ∷ ys) h = ground (arith, put-absent ys)

  -- The row with the id of the one that was found is that row.
  pub keyed-head :
      (y : Transaction) (ys : List Transaction)
      → IsKeyed (y ∷ ys)
      → find_where (is_transaction tenant o.id) (y ∷ ys) ≡ some o
      → (y.id == o.id) ≡ true
      → y ≡ o
  keyed-head y ys k found e = elim (Bool-cases (is_transaction tenant o.id y)) [
    | inl hit ↦ ground arith
    | inr miss ↦ absurd (
        ground (
          arith,
          any_where-find_where (clashes y) (is_transaction tenant o.id) ys o k.0 (ground arith),
        ))
  ]

  keyed-tail :
      (y : Transaction) (ys : List Transaction)
      → find_where (is_transaction tenant o.id) (y ∷ ys) ≡ some o
      → (y.id == o.id) ≡ false
      → find_where (is_transaction tenant o.id) ys ≡ some o
  keyed-tail y ys found e = ground arith

  clashes-same : (x : Transaction) → clashes x o' ≡ clashes x o
  clashes-same x = ground (arith, same.id, same.tenant, same.key)

  any_where-put :
      (x : Transaction) (ts : List Transaction)
      → IsKeyed ts
      → find_where (is_transaction tenant o.id) ts ≡ some o
      → any_where (clashes x) (put_transaction o' ts) ≡ any_where (clashes x) ts
  any_where-put x [] k found = refl
  any_where-put x (y ∷ ys) k found = elim (Bool-cases (y.id == o.id)) [
    | inl hit ↦
        let head = keyed-head y ys k found hit in
        ground (arith, hit, head, clashes-same x, put-absent ys, k.0, same.id)
    | inr miss ↦ ground (arith, miss, same.id, any_where-put x ys k.1 (keyed-tail y ys found miss))
  ]

  -- The keys of a keyed table stay distinct.
  pub put_transaction-IsKeyed :
      (ts : List Transaction)
      → IsKeyed ts
      → find_where (is_transaction tenant o.id) ts ≡ some o
      → IsKeyed (put_transaction o' ts)
  put_transaction-IsKeyed [] k found = tt
  put_transaction-IsKeyed (y ∷ ys) k found = elim (Bool-cases (y.id == o.id)) [
    | inl hit ↦
        let head = keyed-head y ys k found hit in
        let rest : put_transaction o' ys ≡ ys = put-absent ys (ground (arith, head, k.0)) in
        let test : (y.id == o'.id) ≡ true = ground (arith, hit, same.id) in
        rw (test, rest) (clash_free ys (ground (arith, head, k.0)), k.1)
    | inr miss ↦
        let test : (y.id == o'.id) ≡ false = ground (arith, miss, same.id) in
        let later = keyed-tail y ys found miss in
        rw test (any_where-put y ys k.1 later ∙ k.0, put_transaction-IsKeyed ys k.1 later)
  ]
    where
      clash_free :
          (ts : List Transaction)
          → any_where (clashes o) ts ≡ false
          → any_where (clashes o') ts ≡ false
      clash_free [] h = refl
      clash_free (x ∷ xs) h = ground (arith, same.id, same.tenant, same.key, clash_free xs)

  -- The sum changes by the effects of the one row.
  pub ledger-put :
      (j i : ℕ) (ts : List Transaction)
      → IsKeyed ts
      → find_where (is_transaction tenant o.id) ts ≡ some o
      → ledger j i (put_transaction o' ts) +ℤ owned_effect j i o
        ≡ ledger j i ts +ℤ owned_effect j i o'
  ledger-put j i [] k found = absurd (ground arith)
  ledger-put j i (y ∷ ys) k found = elim (Bool-cases (y.id == o.id)) [
    | inl hit ↦
        let head = keyed-head y ys k found hit in
        let rest : put_transaction o' ys ≡ ys = put-absent ys (ground (arith, head, k.0)) in
        let test : (y.id == o'.id) ≡ true = ground (arith, hit, same.id) in
        rw (test, rest, ledger-cons, ledger-cons, head) (omega int_laws)
    | inr miss ↦
        let test : (y.id == o'.id) ≡ false = ground (arith, miss, same.id) in
        let rest = ledger-put j i ys k.1 (keyed-tail y ys found miss) in
        rw (test, ledger-cons, ledger-cons) (+ℤ_swap _ _ _ _ _ rest)
  ]
