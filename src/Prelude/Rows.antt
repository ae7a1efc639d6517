-- ===== src/Prelude/Rows.antt =====
-- Tables as lists of rows: a query is the Boolean test of its WHERE clause, an update maps the rows
-- that pass the test. With them the predicate `All` and its laws.
use Prim.Native.Nat.{ℕ, zero, suc, ◌+◌, ◌≤◌}
use mathlib.Core.Path.{◌≡◌, refl, ap, ◌∙◌, subst}
use mathlib.Core.Logic.{◌⊎◌, inl, inr}
use mathlib.Core.Bool.{Bool, true, false, ◌||◌}
use mathlib.Core.Option.{Option, none, some}
use mathlib.Core.List.{List, [], ◌∷◌, ◌++◌, Perm}
use mathlib.Core.List.Perm
use native.Mathlib.Omega.{arith}
use micro_erp_saas.Prelude.Tests.{if◌then◌else◌, Bool-cases}

module _ {ℓ} {A : Type ℓ} where
  abbrev pub length : List A → ℕ
  length [] = 0
  length (x ∷ xs) = suc (length xs)

  -- SELECT … WHERE test LIMIT 1
  abbrev pub find_where : (A → Bool) → List A → Option A
  find_where test [] = none
  find_where test (x ∷ xs) = if test x then some x else find_where test xs

  -- SELECT … WHERE test
  abbrev pub select_where : (A → Bool) → List A → List A
  select_where test [] = []
  select_where test (x ∷ xs) = let rest = select_where test xs in if test x then x ∷ rest else rest

  -- UPDATE … SET change WHERE test
  abbrev pub update_where : (A → Bool) → (A → A) → List A → List A
  update_where test change [] = []
  update_where test change (x ∷ xs) = (if test x then change x else x) ∷ update_where test change xs

  abbrev pub any_where : (A → Bool) → List A → Bool
  any_where test [] = false
  any_where test (x ∷ xs) = test x || any_where test xs

  -- ORDER BY: a row goes before the rows that are up to it.
  abbrev pub insert_by : (A → A → Bool) → A → List A → List A
  insert_by up_to x [] = x ∷ []
  insert_by up_to x (y ∷ ys) =
      let rest = insert_by up_to x ys in if up_to y x then x ∷ y ∷ ys else y ∷ rest

  abbrev pub order_by : (A → A → Bool) → List A → List A
  order_by up_to [] = []
  order_by up_to (x ∷ xs) = insert_by up_to x (order_by up_to xs)

  -- LIMIT
  abbrev pub take : ℕ → List A → List A
  take zero xs = []
  take (suc n) [] = []
  take (suc n) (x ∷ xs) = x ∷ take n xs

  -- OFFSET
  abbrev pub skip : ℕ → List A → List A
  skip zero xs = xs
  skip (suc n) [] = []
  skip (suc n) (x ∷ xs) = skip n xs

  abbrev pub All {κ} : (A → Type κ) → List A → Type κ
  All P [] = Unit
  All P (x ∷ xs) = P x × All P xs

module _ {ℓ} {A : Type ℓ} (test : A → Bool) where
  find_where-cons :
      (y : A) (ys : List A) (x : A)
      → find_where test (y ∷ ys) ≡ some x
      → ((test y ≡ true) × (y ≡ x)) ⊎ (find_where test ys ≡ some x)
  find_where-cons y ys x e = ground arith

  -- What is found is a row that passes the test.
  pub find_where-test : (xs : List A) (x : A) → find_where test xs ≡ some x → test x ≡ true
  find_where-test [] x e = cc
  find_where-test (y ∷ ys) x e = ground (arith, find_where-test ys x)

  -- If no row passes a test, the row that another query finds does not pass it.
  pub any_where-find_where :
      (other : A → Bool) (xs : List A) (x : A)
      → any_where test xs ≡ false
      → find_where other xs ≡ some x
      → test x ≡ false
  any_where-find_where other [] x h e = cc
  any_where-find_where other (y ∷ ys) x h e = ground (arith, any_where-find_where other ys x)

  -- No row passes a test if none did before the rows were narrowed down.
  pub any_where-select_where :
      (other : A → Bool) (xs : List A)
      → any_where test xs ≡ false
      → any_where test (select_where other xs) ≡ false
  any_where-select_where other [] h = refl
  any_where-select_where other (x ∷ xs) h = ground (arith, any_where-select_where other xs)

  pub any_where-All : (xs : List A) → any_where test xs ≡ false → All (λ x. test x ≡ false) xs
  any_where-All [] h = tt
  any_where-All (x ∷ xs) h = (ground arith, any_where-All xs (ground arith))

  -- Every selected row passes the test.
  pub select_where-test : (xs : List A) → All (λ x. test x ≡ true) (select_where test xs)
  select_where-test [] = tt
  select_where-test (x ∷ xs) = elim (Bool-cases (test x)) [
    | inl hit ↦ rw hit (hit, select_where-test xs)
    | inr miss ↦ rw miss (select_where-test xs)
  ]

  pub select_where-All {κ} :
      (P : A → Type κ) (xs : List A) → All P xs → All P (select_where test xs)
  select_where-All P [] h = tt
  select_where-All P (x ∷ xs) h = elim (Bool-cases (test x)) [
    | inl hit ↦ rw hit (h.0, select_where-All P xs h.1)
    | inr miss ↦ rw miss (select_where-All P xs h.1)
  ]

  -- A property of every row holds of the row that is found.
  pub find_where-All {κ} :
      (P : A → Type κ) (xs : List A) (x : A) → All P xs → find_where test xs ≡ some x → P x
  find_where-All P [] x h e = cc
  find_where-All P (y ∷ ys) x h e = elim (find_where-cons y ys x e) [
    | inl (t, same) ↦ subst P same h.0
    | inr found ↦ find_where-All P ys x h.1 found
  ]

  -- An update keeps a property that its change establishes.
  pub update_where-All {κ} :
      (P Q : A → Type κ) (change : A → A) (xs : List A)
      → ((x : A) → test x ≡ true → P x → Q (change x))
      → ((x : A) → test x ≡ false → P x → Q x)
      → All P xs
      → All Q (update_where test change xs)
  update_where-All P Q change [] hit miss h = tt
  update_where-All P Q change (x ∷ xs) hit miss h = (
    elim (Bool-cases (test x)) [ inl t ↦ rw t (hit x t h.0) | inr f ↦ rw f (miss x f h.0) ],
    update_where-All P Q change xs hit miss h.1,
  )

  -- Rows that the change keeps away from the query are found as before.
  pub select_where-update_where :
      (other : A → Bool) (change : A → A) (xs : List A)
      → ((x : A) → test x ≡ true → (other x ≡ false) × (other (change x) ≡ false))
      → select_where other (update_where test change xs) ≡ select_where other xs
  select_where-update_where other change [] apart = refl
  select_where-update_where other change (x ∷ xs) apart = elim (Bool-cases (test x)) [
    | inl t ↦ ground (arith, apart x, select_where-update_where other change xs apart)
    | inr f ↦ rw f (ground (arith, select_where-update_where other change xs apart))
  ]

-- A narrower query finds the same row, if that row passes it.
pub find_where-narrow {ℓ} :
    {A : Type ℓ} (wide narrow : A → Bool) (xs : List A) (x : A)
    → ((y : A) → narrow y ≡ true → wide y ≡ true)
    → find_where wide xs ≡ some x
    → narrow x ≡ true
    → find_where narrow xs ≡ some x
find_where-narrow wide narrow [] x sub found hit = cc
find_where-narrow wide narrow (y ∷ ys) x sub found hit = elim (Bool-cases (wide y)) [
  | inl w ↦ ground (arith, w, hit, found)
  | inr f ↦ ground (arith, f, sub y, find_where-narrow wide narrow ys x sub)
]

-- If a query finds nothing, a narrower one does not either.
pub find_where-none {ℓ} :
    {A : Type ℓ} (wide narrow : A → Bool) (xs : List A)
    → ((y : A) → narrow y ≡ true → wide y ≡ true)
    → find_where wide xs ≡ none
    → find_where narrow xs ≡ none
find_where-none wide narrow [] sub h = refl
find_where-none wide narrow (y ∷ ys) sub h = elim (Bool-cases (wide y)) [
  | inl w ↦ absurd (ground arith)
  | inr f ↦ ground (arith, f, sub y, find_where-none wide narrow ys sub)
]

-- A property is kept by every map that keeps it.
pub All-map {ℓ κ} :
    {A : Type ℓ} (P Q : A → Type κ) (xs : List A) → ((x : A) → P x → Q x) → All P xs → All Q xs
All-map P Q [] f h = tt
All-map P Q (x ∷ xs) f h = (f x h.0, All-map P Q xs f h.1)

pub All-zip {ℓ κ} :
    {A : Type ℓ} (P Q R : A → Type κ) (xs : List A)
    → ((x : A) → P x → Q x → R x)
    → All P xs
    → All Q xs
    → All R xs
All-zip P Q R [] f h k = tt
All-zip P Q R (x ∷ xs) f h k = (f x h.0 k.0, All-zip P Q R xs f h.1 k.1)

-- A test that passes fewer rows passes none where the wider one passes none.
pub any_where-narrow {ℓ} :
    {A : Type ℓ} (narrow wide : A → Bool) (xs : List A)
    → ((x : A) → narrow x ≡ true → wide x ≡ true)
    → any_where wide xs ≡ false
    → any_where narrow xs ≡ false
any_where-narrow narrow wide [] into h = refl
any_where-narrow narrow wide (x ∷ xs) into h =
    ground (arith, into x, any_where-narrow narrow wide xs into)

-- An update that no row passes changes nothing.
pub update_where-none {ℓ} :
    {A : Type ℓ} (test : A → Bool) (change : A → A) (xs : List A)
    → any_where test xs ≡ false
    → update_where test change xs ≡ xs
update_where-none test change [] h = refl
update_where-none test change (x ∷ xs) h = ground (arith, update_where-none test change xs)

-- A property of every row holds of the first rows in an order.
pub insert_by-All {ℓ κ} :
    {A : Type ℓ} (up_to : A → A → Bool) (P : A → Type κ) (x : A) (ys : List A)
    → P x
    → All P ys
    → All P (insert_by up_to x ys)
insert_by-All up_to P x [] p h = (p, tt)
insert_by-All up_to P x (y ∷ ys) p h = elim (Bool-cases (up_to y x)) [
  | inl here ↦ rw here (p, h)
  | inr later ↦ rw later (h.0, insert_by-All up_to P x ys p h.1)
]

pub order_by-All {ℓ κ} :
    {A : Type ℓ} (up_to : A → A → Bool) (P : A → Type κ) (xs : List A)
    → All P xs
    → All P (order_by up_to xs)
order_by-All up_to P [] h = tt
order_by-All up_to P (x ∷ xs) h =
    insert_by-All up_to P x (order_by up_to xs) h.0 (order_by-All up_to P xs h.1)

pub take-All {ℓ κ} :
    {A : Type ℓ} (P : A → Type κ) (n : ℕ) (xs : List A) → All P xs → All P (take n xs)
take-All P zero xs h = tt
take-All P (suc n) [] h = tt
take-All P (suc n) (x ∷ xs) h = (h.0, take-All P n xs h.1)

pub length-take {ℓ} : {A : Type ℓ} (n : ℕ) (xs : List A) → length (take n xs) ≤ n
length-take zero xs = omega arith
length-take (suc n) [] = omega arith
length-take (suc n) (x ∷ xs) = omega (arith, length-take n xs)

-- An order is a permutation.
pub insert_by-Perm {ℓ} :
    {A : Type ℓ} (up_to : A → A → Bool) (x : A) (ys : List A) → Perm (x ∷ ys) (insert_by up_to x ys)
insert_by-Perm up_to x [] = Perm.refl (x ∷ [])
insert_by-Perm up_to x (y ∷ ys) = elim (Bool-cases (up_to y x)) [
  | inl here ↦ rw here (Perm.refl (x ∷ y ∷ ys))
  | inr later ↦ rw later (Perm.trans (Perm.swap y x ys) (Perm.cons y (insert_by-Perm up_to x ys)))
]

pub order_by-Perm {ℓ} :
    {A : Type ℓ} (up_to : A → A → Bool) (xs : List A) → Perm xs (order_by up_to xs)
order_by-Perm up_to [] = Perm.refl []
order_by-Perm up_to (x ∷ xs) =
    Perm.trans (Perm.cons x (order_by-Perm up_to xs)) (insert_by-Perm up_to x (order_by up_to xs))

-- A page and what comes after it.
pub take-skip {ℓ} : {A : Type ℓ} (n : ℕ) (xs : List A) → take n xs ++ skip n xs ≡ xs
take-skip zero xs = refl
take-skip (suc n) [] = refl
take-skip (suc n) (x ∷ xs) = ap (λ r. x ∷ r) (take-skip n xs)

pub skip-skip {ℓ} : {A : Type ℓ} (m n : ℕ) (xs : List A) → skip m (skip n xs) ≡ skip (n + m) xs
skip-skip m zero xs = let e : m ≡ 0 + m = omega arith in ap (λ i. skip i xs) e
skip-skip zero (suc n) [] = let e : suc n ≡ suc n + 0 = omega arith in ap (λ i. skip i []) e
skip-skip (suc m) (suc n) [] =
    let e : suc (n + suc m) ≡ suc n + suc m = omega arith in ap (λ i. skip i []) e
skip-skip m (suc n) (x ∷ xs) =
    let e : suc (n + m) ≡ suc n + m = omega arith in skip-skip m n xs ∙ ap (λ i. skip i (x ∷ xs)) e

pub skip-length {ℓ} : {A : Type ℓ} (n : ℕ) (xs : List A) → length xs ≤ n → skip n xs ≡ []
skip-length zero [] h = refl
skip-length zero (x ∷ xs) h = absurd (omega (arith, h))
skip-length (suc n) [] h = refl
skip-length (suc n) (x ∷ xs) h = skip-length n xs (omega (arith, h))

length-insert_by {ℓ} :
    {A : Type ℓ} (up_to : A → A → Bool) (x : A) (ys : List A)
    → length (insert_by up_to x ys) ≡ suc (length ys)
length-insert_by up_to x [] = refl
length-insert_by up_to x (y ∷ ys) = elim (Bool-cases (up_to y x)) [
  | inl here ↦ rw here refl
  | inr later ↦ rw later (ap suc (length-insert_by up_to x ys))
]

pub length-order_by {ℓ} :
    {A : Type ℓ} (up_to : A → A → Bool) (xs : List A) → length (order_by up_to xs) ≡ length xs
length-order_by up_to [] = refl
length-order_by up_to (x ∷ xs) =
    length-insert_by up_to x (order_by up_to xs) ∙ ap suc (length-order_by up_to xs)
