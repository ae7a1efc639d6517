-- ===== src/Customers/Moved.antt =====
-- The sums of the customers when the transactions of one are moved to another.
use micro_erp_saas.Prelude.{ℕ, ◌≡◌, refl, false, List, [], ◌∷◌, ◌==◌, if◌then◌else◌, arith}
use micro_erp_saas.Prelude.Int.{pos, ◌+ℤ◌, +ℤ_zero, zero-+ℤ, int_laws}
use micro_erp_saas.Entities.{Transaction}
use micro_erp_saas.Ledger.Account.{effect, owned_effect, is_owned, ledger, ledger-nil, ledger-cons}
use micro_erp_saas.Customers.Merge.{move_transactions}

module _ (tenant p s : ℕ) (apart : (p == s) ≡ false) where
  abbrev moved : Transaction → Transaction
  moved t = if is_owned tenant s t then record t { customer_id = p } else t

  effect_secondary : (t : Transaction) → owned_effect tenant s (moved t) ≡ pos 0
  effect_secondary t = ground (arith, apart)

  effect_primary :
      (t : Transaction)
      → owned_effect tenant p (moved t) ≡ owned_effect tenant p t +ℤ owned_effect tenant s t
  effect_primary t = ground (arith, apart, +ℤ_zero (effect t), zero-+ℤ (effect t), +ℤ_zero (pos 0))

  effect_other :
      (j i : ℕ) (t : Transaction)
      → (i == p) ≡ false
      → (i == s) ≡ false
      → owned_effect j i (moved t) ≡ owned_effect j i t
  effect_other j i t np ns = ground arith

  -- Nothing stays on the secondary.
  pub ledger-moved_secondary :
      (ts : List Transaction) → ledger tenant s (move_transactions tenant s p ts) ≡ pos 0
  ledger-moved_secondary [] = ledger-nil tenant s
  ledger-moved_secondary (t ∷ ts) =
      rw (ledger-cons, effect_secondary t, ledger-moved_secondary ts) (omega int_laws)

  -- The primary has both sums.
  pub ledger-moved_primary :
      (ts : List Transaction)
      → ledger tenant p (move_transactions tenant s p ts) ≡ ledger tenant p ts +ℤ ledger tenant s ts
  ledger-moved_primary [] = rw (ledger-nil tenant p, ledger-nil tenant s) (omega int_laws)
  ledger-moved_primary (t ∷ ts) =
      rw
        (
          ledger-cons tenant p (moved t) (move_transactions tenant s p ts),
          ledger-cons tenant p t ts,
          ledger-cons tenant s t ts,
          effect_primary t,
          ledger-moved_primary ts,
        )
        (omega int_laws)

  pub ledger-moved_other :
      (j i : ℕ) (ts : List Transaction)
      → (i == p) ≡ false
      → (i == s) ≡ false
      → ledger j i (move_transactions tenant s p ts) ≡ ledger j i ts
  ledger-moved_other j i [] np ns = refl
  ledger-moved_other j i (t ∷ ts) np ns = rw (
    ledger-cons j i (moved t) (move_transactions tenant s p ts),
    ledger-cons j i t ts,
    effect_other j i t np ns,
    ledger-moved_other j i ts np ns,
  )
