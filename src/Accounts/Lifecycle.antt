-- ===== src/Accounts/Lifecycle.antt =====
-- The requests that write users, as steps, and what they write.
use micro_erp_saas.Prelude.{
  ℕ, ◌+◌, ◌≤◌, ◌≡◌, refl, subst, String, Bool, true, false, inl, inr, some, ◌∷◌, arith,
  Option-cases, Bool-cases, find_where, find_where-test,
}
use text.Mathlib.Text.{◌==◌ as str_eq}
use micro_erp_saas.Entities.{User, cashier, admin}
use micro_erp_saas.Store.{Db, Request, run_tx}
use micro_erp_saas.Store.Commit.{run_tx_ind}
use micro_erp_saas.Accounts.Crypto.{Crypto, ResetTokenPayload}
use micro_erp_saas.Accounts.Users.{
  CreateUserDto, is_user, new_user, with_password, put_user, create_user, create_user_body,
  deactivate, deactivate_body, activate, activate_body, reset_password, reset_password_body,
}
use micro_erp_saas.Accounts.Auth.{
  RegisterTenantDto, first_user, register, register_body, execute_password_reset, reset_body,
}
use micro_erp_saas.Accounts.Keys.{is_id, IsUserKeyed, find_where-is_id}
use micro_erp_saas.Accounts.Revocation.{
  IsPast, Writing, Writing-IsUserKeyed, same_users, user_added, user_saved, Writing-IsPast,
}

-- A request on users, and the database it leaves.
pub data AccountStep (k : Crypto) (db : Db) : Db → Type 0 where
  tenant_registered :
      (req : Request) (dto : RegisterTenantDto) → AccountStep k db (register k req dto db).1
  user_created :
      (req : Request) (tenant : ℕ) (dto : CreateUserDto)
      → AccountStep k db (create_user k req tenant dto db).1
  user_deactivated :
      (req : Request) (tenant id : ℕ) → AccountStep k db (deactivate k req tenant id db).1
  user_activated :
      (req : Request) (tenant id : ℕ) → AccountStep k db (activate k req tenant id db).1
  password_reset :
      (req : Request) (tenant id : ℕ) (new_password : String)
      → AccountStep k db (reset_password k req tenant id new_password db).1
  credentials_reset :
      (req : Request) (duplicate : Bool) (token : k.Token) (new_password : String)
      → AccountStep k db (execute_password_reset k req duplicate token new_password db).1

pub data AccountsReach (k : Crypto) (db : Db) : Db → Type 0 where
  start : AccountsReach k db db
  step : {db1 db2 : Db} → AccountsReach k db db1 → AccountStep k db1 db2 → AccountsReach k db db2

-- What a commit wrote to the users.
abbrev Wrote : Db → Db → Type 0
Wrote db db' = Writing db.users db'.users

module _ (k : Crypto) (req : Request) (db : Db) (keyed : IsUserKeyed db.users) where
  register-Writing : (dto : RegisterTenantDto) → Wrote db (register k req dto db).1
  unfolding register
  register-Writing dto = run_tx_ind (Wrote db) (register_body k req dto) db same_users λ u db' ran.
      let row = new_user k req (req.uuid 2) (req.uuid 1) (req.uuid 0) admin (first_user dto) in
      let rows : db'.users ≡ row ∷ db.users = ground arith in
      rw rows (user_added row (ground arith))

  create_user-Writing :
      (tenant : ℕ) (dto : CreateUserDto) → Wrote db (create_user k req tenant dto db).1
  unfolding create_user
  create_user-Writing tenant dto =
      run_tx_ind (Wrote db) (create_user_body k req tenant dto) db same_users λ u db' ran.
        let row = new_user k req (req.uuid 1) (req.uuid 0) tenant cashier dto in
        let rows : db'.users ≡ row ∷ db.users = ground arith in
        rw rows (user_added row (ground arith))

  -- A user of the tenant is saved with its keys.
  saved_user-Writing :
      (tenant id : ℕ) (change : User → User) (db' : Db)
      → ((u : User) → (change u).id ≡ u.id)
      → ((u : User) → (change u).email ≡ u.email)
      → ((u : User) → u.token_version ≤ (change u).token_version)
      → (u : User) → find_where (is_user tenant id) db.users ≡ some u
      → db'.users ≡ put_user (change u) db.users
      → Wrote db db'
  saved_user-Writing tenant id change db' same mail grown u found rows =
      let at = find_where-test (is_user tenant id) db.users u found in
      let own = find_where-is_id tenant id db.users u keyed found in
      let here : id ≡ u.id = ground arith in
      rw rows (
        user_saved u (change u) (subst (λ x. find_where (is_id x) db.users ≡ some u) here own)
          (same u) (mail u) (grown u))

  deactivate-Writing : (tenant id : ℕ) → Wrote db (deactivate k req tenant id db).1
  unfolding deactivate
  deactivate-Writing tenant id =
      run_tx_ind (Wrote db) (deactivate_body k req tenant id) db same_users λ t db' ran.
        elim (Option-cases (find_where (is_user tenant id) db.users)) [
          | inl absent ↦ absurd (ground arith)
          | inr (u, found) ↦
              saved_user-Writing tenant id
                (λ u. record u { is_active = false; token_version = u.token_version + 1 }) db'
                (λ u. refl) (λ u. refl) (λ u. omega arith) u found (ground arith)
        ]

  activate-Writing : (tenant id : ℕ) → Wrote db (activate k req tenant id db).1
  unfolding activate
  activate-Writing tenant id =
      run_tx_ind (Wrote db) (activate_body k req tenant id) db same_users λ t db' ran.
        elim (Option-cases (find_where (is_user tenant id) db.users)) [
          | inl absent ↦ absurd (ground arith)
          | inr (u, found) ↦
              saved_user-Writing tenant id (λ u. record u { is_active = true }) db' (λ u. refl)
                (λ u. refl) (λ u. omega arith) u found (ground arith)
        ]

  reset_password-Writing :
      (tenant id : ℕ) (new_password : String)
      → Wrote db (reset_password k req tenant id new_password db).1
  unfolding reset_password
  reset_password-Writing tenant id new_password =
      run_tx_ind (Wrote db) (reset_password_body k req tenant id new_password) db same_users
        λ t db' ran. elim (Option-cases (find_where (is_user tenant id) db.users)) [
          | inl absent ↦ absurd (ground arith)
          | inr (u, found) ↦
              saved_user-Writing tenant id
                (with_password (k.hash new_password (req.uuid 0)) req.now) db' (λ u. refl)
                (λ u. refl) (λ u. omega arith) u found (ground arith)
        ]

  reset_body-Writing :
      (payload : ResetTokenPayload) (new_password : String)
      → Wrote db (run_tx (reset_body k req payload new_password) db).1
  reset_body-Writing payload new_password =
      run_tx_ind (Wrote db) (reset_body k req payload new_password) db same_users λ t db' ran.
        absurd (elim (Option-cases (find_where (is_id payload.sub) db.users)) [
          | inl absent ↦ ground arith
          | inr (u, found) ↦ ground arith
        ])

  execute_password_reset-Writing :
      (duplicate : Bool) (token : k.Token) (new_password : String)
      → Wrote db (execute_password_reset k req duplicate token new_password db).1
  unfolding execute_password_reset
  execute_password_reset-Writing true token new_password = same_users
  execute_password_reset-Writing false token new_password =
      elim (Option-cases (k.verify_reset token req.now)) [
        | inl forged ↦ rw forged same_users
        | inr (payload, verified) ↦ elim (Bool-cases (str_eq payload.purpose "pwd_reset")) [
          | inl meant ↦ rw (verified, meant) (reset_body-Writing payload new_password)
          | inr misused ↦ rw (verified, misused) same_users
        ]
      ]

AccountStep-Writing :
    (k : Crypto) (db db' : Db) → IsUserKeyed db.users → AccountStep k db db' → Wrote db db'
AccountStep-Writing k db _ keyed (tenant_registered req dto) = register-Writing k req db keyed dto
AccountStep-Writing k db _ keyed (user_created req tenant dto) =
    create_user-Writing k req db keyed tenant dto
AccountStep-Writing k db _ keyed (user_deactivated req tenant id) =
    deactivate-Writing k req db keyed tenant id
AccountStep-Writing k db _ keyed (user_activated req tenant id) =
    activate-Writing k req db keyed tenant id
AccountStep-Writing k db _ keyed (password_reset req tenant id new_password) =
    reset_password-Writing k req db keyed tenant id new_password
AccountStep-Writing k db _ keyed (credentials_reset req duplicate token new_password) =
    execute_password_reset-Writing k req db keyed duplicate token new_password

-- If identifiers and emails of users are distinct in a database, they are distinct in every
-- database that a sequence of requests on users leads to.
pub AccountsReach-IsUserKeyed :
    (k : Crypto) (db db' : Db)
    → AccountsReach k db db'
    → IsUserKeyed db.users
    → IsUserKeyed db'.users
AccountsReach-IsUserKeyed k db _ start keyed = keyed
AccountsReach-IsUserKeyed k db _ (step {db1} {db2} before last) keyed =
    let keyed1 = AccountsReach-IsUserKeyed k db db1 before keyed in
    Writing-IsUserKeyed (AccountStep-Writing k db1 db2 keyed1 last) keyed1

pub AccountsReach-IsPast :
    (k : Crypto) (id bound : ℕ) (db db' : Db)
    → AccountsReach k db db'
    → IsUserKeyed db.users
    → IsPast id bound db
    → IsPast id bound db'
AccountsReach-IsPast k id bound db _ start keyed past = past
AccountsReach-IsPast k id bound db _ (step {db1} {db2} before last) keyed past =
    let keyed1 = AccountsReach-IsUserKeyed k db db1 before keyed in
    Writing-IsPast (AccountStep-Writing k db1 db2 keyed1 last)
      (AccountsReach-IsPast k id bound db db1 before keyed past)
