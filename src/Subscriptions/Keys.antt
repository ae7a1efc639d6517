-- ===== src/Subscriptions/Keys.antt =====
-- The tenants' table under its primary key, and what a save of a row does to it.
use micro_erp_saas.Prelude.{
  ℕ, ◌≡◌, refl, Bool, false, inl, inr, some, List, [], ◌∷◌, ◌==◌, if◌then◌else◌, arith, Bool-cases,
  find_where, any_where, any_where-find_where, update_where,
}
use micro_erp_saas.Entities.{Tenant}

abbrev pub has_id : ℕ → Tenant → Bool
has_id id t = t.id == id

abbrev pub IsTenantKeyed : List Tenant → Type 0
IsTenantKeyed [] = Unit
IsTenantKeyed (t ∷ ts) = (any_where (has_id t.id) ts ≡ false) × IsTenantKeyed ts

abbrev pub put_tenant : Tenant → List Tenant → List Tenant
put_tenant t = update_where (λ r. r.id == t.id) (λ _. t)

-- A row that a query finds is the row with its identifier.
pub find_where-has_id :
    (test : Tenant → Bool) (ts : List Tenant) (t : Tenant)
    → IsTenantKeyed ts
    → find_where test ts ≡ some t
    → find_where (has_id t.id) ts ≡ some t
find_where-has_id test [] t k h = absurd (ground arith)
find_where-has_id test (x ∷ xs) t k h = elim (Bool-cases (test x)) [
  | inl hit ↦ ground arith
  | inr miss ↦
      let later : find_where test xs ≡ some t = ground arith in
      let apart = any_where-find_where (has_id x.id) test xs t k.0 later in
      ground (arith, find_where-has_id test xs t k.1 later)
]

find_where-put_apart :
    (id : ℕ) (new : Tenant) (ts : List Tenant)
    → (id == new.id) ≡ false
    → find_where (has_id id) (put_tenant new ts) ≡ find_where (has_id id) ts
find_where-put_apart id new [] apart = refl
find_where-put_apart id new (t ∷ ts) apart = ground (arith, find_where-put_apart id new ts apart)

-- A save of a row that is there is what a query for its identifier finds; any other row is as before.
pub find_where-put_tenant :
    (id : ℕ) (old new : Tenant) (ts : List Tenant)
    → new.id ≡ old.id
    → find_where (has_id old.id) ts ≡ some old
    → find_where (has_id id) (put_tenant new ts)
      ≡ (if id == old.id then some new else find_where (has_id id) ts)
find_where-put_tenant id old new [] same h = absurd (ground arith)
find_where-put_tenant id old new (x ∷ xs) same h = elim (Bool-cases (x.id == old.id)) [
  | inl hit ↦ elim (Bool-cases (id == old.id)) [
    | inl mine ↦ ground arith
    | inr other ↦ let rest = find_where-put_apart id new xs (ground arith) in ground (arith, rest)
  ]
  | inr miss ↦
      let later : find_where (has_id old.id) xs ≡ some old = ground arith in
      ground (arith, find_where-put_tenant id old new xs same later)
]

any_where-put_tenant :
    (id : ℕ) (t : Tenant) (ts : List Tenant)
    → any_where (has_id id) (put_tenant t ts) ≡ any_where (has_id id) ts
any_where-put_tenant id t [] = refl
any_where-put_tenant id t (x ∷ xs) = ground (arith, any_where-put_tenant id t xs)

-- A save keeps the identifiers distinct.
pub put_tenant-IsTenantKeyed :
    (t : Tenant) (ts : List Tenant) → IsTenantKeyed ts → IsTenantKeyed (put_tenant t ts)
put_tenant-IsTenantKeyed t [] k = tt
put_tenant-IsTenantKeyed t (x ∷ xs) k = (
  ground (arith, k.0, any_where-put_tenant x.id t xs, any_where-put_tenant t.id t xs),
  put_tenant-IsTenantKeyed t xs k.1,
)
