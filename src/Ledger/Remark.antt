-- ===== src/Ledger/Remark.antt =====
-- Updates of marks that do not touch what a transaction is worth, whom it is on, or its keys.
use micro_erp_saas.Prelude.{
  ℕ, ◌≡◌, refl, ◌∙◌, Bool, Bool-cases, inl, inr, List, [], ◌∷◌, any_where, update_where,
}
use micro_erp_saas.Entities.{Transaction}
use micro_erp_saas.Store.{clashes}
use micro_erp_saas.Ledger.Account.{owned_effect, ledger, ledger-cons, IsKeyed}

module _ (test : Transaction → Bool) (change : Transaction → Transaction) where
  pub ledger-update :
      (j i : ℕ) (ts : List Transaction)
      → ((t : Transaction) → owned_effect j i (change t) ≡ owned_effect j i t)
      → ledger j i (update_where test change ts) ≡ ledger j i ts
  ledger-update j i [] same = refl
  ledger-update j i (t ∷ ts) same = elim (Bool-cases (test t)) [
    | inl hit ↦ rw (hit, ledger-cons, ledger-cons, same t, ledger-update j i ts same)
    | inr miss ↦ rw (miss, ledger-cons, ledger-cons, ledger-update j i ts same)
  ]

  any_where-update :
      (x : Transaction) (ts : List Transaction)
      → ((t : Transaction) → clashes x (change t) ≡ clashes x t)
      → any_where (clashes x) (update_where test change ts) ≡ any_where (clashes x) ts
  any_where-update x [] same = refl
  any_where-update x (t ∷ ts) same = elim (Bool-cases (test t)) [
    | inl hit ↦ rw (hit, same t, any_where-update x ts same)
    | inr miss ↦ rw (miss, any_where-update x ts same)
  ]

  pub update-IsKeyed :
      (ts : List Transaction)
      → ((x t : Transaction) → clashes x (change t) ≡ clashes x t)
      → ((x t : Transaction) → clashes (change x) t ≡ clashes x t)
      → IsKeyed ts
      → IsKeyed (update_where test change ts)
  update-IsKeyed [] right left k = tt
  update-IsKeyed (t ∷ ts) right left k = (
    elim (Bool-cases (test t)) [
      | inl hit ↦
          rw hit (any_where-update (change t) ts (right (change t)) ∙ changed t ts left ∙ k.0)
      | inr miss ↦ rw miss (any_where-update t ts (right t) ∙ k.0)
    ],
    update-IsKeyed ts right left k.1,
  )
    where
      changed :
          (x : Transaction) (ys : List Transaction)
          → ((y z : Transaction) → clashes (change y) z ≡ clashes y z)
          → any_where (clashes (change x)) ys ≡ any_where (clashes x) ys
      changed x [] same = refl
      changed x (y ∷ ys) same = rw (same x y, changed x ys same)
