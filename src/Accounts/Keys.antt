-- ===== src/Accounts/Keys.antt =====
-- The keys of the users' table: identifiers and emails are distinct.
use micro_erp_saas.Prelude.{
  ℕ, ◌≡◌, Bool, refl, ◌∙◌, true, false, inl, inr, some, List, [], ◌∷◌, ◌==◌, arith, Bool-cases,
  find_where, find_where-test, any_where, any_where-narrow, any_where-find_where, update_where-none,
}
use micro_erp_saas.Entities.{User}
use micro_erp_saas.Accounts.Users.{is_user, clashes_user, put_user}

abbrev pub is_id : ℕ → User → Bool
is_id id u = u.id == id

-- No row clashes with one stored before it.
abbrev pub IsUserKeyed : List User → Type 0
IsUserKeyed [] = Unit
IsUserKeyed (u ∷ us) = (any_where (clashes_user u) us ≡ false) × IsUserKeyed us

-- A user of the tenant is the user with the identifier.
pub find_where-is_id :
    (tenant id : ℕ) (us : List User) (u : User)
    → IsUserKeyed us
    → find_where (is_user tenant id) us ≡ some u
    → find_where (is_id id) us ≡ some u
find_where-is_id tenant id [] u k h = absurd (ground arith)
find_where-is_id tenant id (x ∷ xs) u k h = elim (Bool-cases (is_user tenant id x)) [
  | inl hit ↦ ground arith
  | inr miss ↦
      let later : find_where (is_user tenant id) xs ≡ some u = ground arith in
      let at = find_where-test (is_user tenant id) xs u later in
      let apart = any_where-find_where (clashes_user x) (is_user tenant id) xs u k.0 later in
      ground (arith, find_where-is_id tenant id xs u k.1 later)
]

module _ (old new : User) (same_id : new.id ≡ old.id) (same_email : new.email ≡ old.email) where
  -- The row with the identifier of the one that was found is that row.
  user-head :
      (u : User) (us : List User)
      → find_where (is_id old.id) (u ∷ us) ≡ some old
      → (u.id == old.id) ≡ true
      → u ≡ old
  user-head u us found e = ground arith

  put_user-absent :
      (us : List User) → any_where (clashes_user old) us ≡ false → put_user new us ≡ us
  put_user-absent us h =
      update_where-none (λ r. r.id == new.id) (λ _. new) us
        (any_where-narrow (λ r. r.id == new.id) (clashes_user old) us (λ r e. ground arith) h)

  clashes-put_user :
      (x : User) (us : List User)
      → IsUserKeyed us
      → find_where (is_id old.id) us ≡ some old
      → any_where (clashes_user x) (put_user new us) ≡ any_where (clashes_user x) us
  clashes-put_user x [] k found = refl
  clashes-put_user x (u ∷ us) k found = elim (Bool-cases (u.id == old.id)) [
    | inl hit ↦
        let head = user-head u us found hit in
        let rest = put_user-absent us (ground (arith, k.0, head)) in
        rw (same_id, hit, rest, head, same_email) refl
    | inr miss ↦
        let later : find_where (is_id old.id) us ≡ some old = ground arith in
        rw (same_id, miss) (ground (arith, clashes-put_user x us k.1 later))
  ]

  -- A save of a row under its keys keeps the keys distinct.
  pub put_user-IsUserKeyed :
      (us : List User)
      → IsUserKeyed us
      → find_where (is_id old.id) us ≡ some old
      → IsUserKeyed (put_user new us)
  put_user-IsUserKeyed [] k found = tt
  put_user-IsUserKeyed (u ∷ us) k found = elim (Bool-cases (u.id == old.id)) [
    | inl hit ↦
        let head = user-head u us found hit in
        let rest = put_user-absent us (ground (arith, k.0, head)) in
        let test : (u.id == new.id) ≡ true = ground arith in
        let free =
          any_where-narrow (clashes_user new) (clashes_user old) us
            (λ r e. rw (← same_id, ← same_email) e) (ground (arith, k.0, head)) in
        rw (test, rest) (free, k.1)
    | inr miss ↦
        let later : find_where (is_id old.id) us ≡ some old = ground arith in
        let test : (u.id == new.id) ≡ false = ground arith in
        rw test (clashes-put_user u us k.1 later ∙ k.0, put_user-IsUserKeyed us k.1 later)
  ]
