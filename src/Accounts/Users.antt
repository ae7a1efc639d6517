-- ===== src/Accounts/Users.antt =====
-- backend/src/modules/users/users.service.ts: the employees of a tenant. The write of a user under
-- the primary key and the unique email is shared with the registration of a tenant.
use micro_erp_saas.Prelude.{
  ℕ, ◌+◌, String, Bool, true, false, ◌&&◌, ◌||◌, Option, some, none, List, ◌∷◌, ◌==◌, ltb, not,
  find_where, update_where, any_where,
}
use text.Mathlib.Text.{◌==◌ as str_eq}
use micro_erp_saas.Entities.{User, UserRole, cashier}
use micro_erp_saas.Store.{
  has_tenant, Db, Request, Result, Tx, ◌>>=◌, ◌>>◌, pure, gets, or_throw, throw_if, throw_where,
  modify, run_tx, query_failed, email_taken, user_not_found,
}
use micro_erp_saas.Accounts.Crypto.{Crypto}

pub record CreateUserDto : Type 0 where
  pub email : String
  pub password : String
  pub name : String
  pub phone : Option String

-- WHERE email = :email
abbrev pub has_email : String → User → Bool
has_email email u = str_eq u.email email

-- WHERE id = :id AND tenant_id = :tenant
abbrev pub is_user : ℕ → ℕ → User → Bool
is_user tenant id u = u.id == id && u.tenant_id == tenant

-- INSERT under the primary key, the foreign key of the tenant and the unique email.
abbrev pub clashes_user : User → User → Bool
clashes_user u r = r.id == u.id || has_email u.email r

abbrev pub insert_user : User → Tx Unit
insert_user u = do
  throw_where (λ db. not (has_tenant u.tenant_id db)) query_failed
  throw_where (λ db. any_where (clashes_user u) db.users) query_failed
  modify (λ db. record db { users = u ∷ db.users })

abbrev pub put_user : User → List User → List User
put_user u = update_where (λ r. r.id == u.id) (λ _. u)

-- UPDATE of the row that was loaded; the version is a column of type `int`.
abbrev pub save_user : User → Tx Unit
save_user u = do
  throw_if (not (ltb u.token_version 2147483648)) query_failed
  modify (λ db. record db { users = put_user u db.users })

-- `findUserOrFail`
abbrev pub find_user_or_fail : ℕ → ℕ → Tx User
find_user_or_fail tenant id = do
  or_throw (← gets (λ db. find_where (is_user tenant id) db.users)) user_not_found

-- A new row, with the defaults of the entity.
abbrev pub new_user : Crypto → Request → ℕ → ℕ → ℕ → UserRole → CreateUserDto → User
new_user k req id salt tenant role dto = record {
  id = id;
  tenant_id = tenant;
  email = dto.email;
  password_hash = k.hash dto.password salt;
  name = dto.name;
  phone = dto.phone;
  role = role;
  is_active = true;
  token_version = 0;
  password_changed_at = none;
  created_at = req.now;
}

-- Rows after a new password was set at a time.
abbrev pub with_password : String → ℕ → User → User
with_password password_hash now u = record u {
  password_hash = password_hash;
  password_changed_at = some now;
  token_version = u.token_version + 1;
}

module _ (k : Crypto) (req : Request) (tenant : ℕ) where
  -- The first draw of the request is the salt, the second the identifier.
  abbrev pub create_user_body : CreateUserDto → Tx User
  create_user_body dto = do
    throw_where (λ db. any_where (has_email dto.email) db.users) email_taken
    let user = new_user k req (req.uuid 1) (req.uuid 0) tenant cashier dto
    insert_user user
    pure user

  unfoldable pub create_user : CreateUserDto → Db → Result User × Db
  create_user dto = run_tx (create_user_body dto)

  abbrev pub deactivate_body : ℕ → Tx Unit
  deactivate_body id = do
    user ← find_user_or_fail tenant id
    save_user (record user { is_active = false; token_version = user.token_version + 1 })

  unfoldable pub deactivate : ℕ → Db → Result Unit × Db
  deactivate id = run_tx (deactivate_body id)

  abbrev pub activate_body : ℕ → Tx Unit
  activate_body id = do
    user ← find_user_or_fail tenant id
    save_user (record user { is_active = true })

  unfoldable pub activate : ℕ → Db → Result Unit × Db
  activate id = run_tx (activate_body id)

  abbrev pub reset_password_body : ℕ → String → Tx Unit
  reset_password_body id new_password = do
    user ← find_user_or_fail tenant id
    save_user (with_password (k.hash new_password (req.uuid 0)) req.now user)

  unfoldable pub reset_password : ℕ → String → Db → Result Unit × Db
  reset_password id new_password = run_tx (reset_password_body id new_password)
