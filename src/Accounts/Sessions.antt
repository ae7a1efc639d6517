-- ===== src/Accounts/Sessions.antt =====
-- Tokens that were signed before a deactivation or a new password.
use micro_erp_saas.Prelude.{
  ℕ, ◌+◌, ◌≤◌, ◌<◌, ◌≡◌, refl, sym, subst, String, false, some, arith, find_where, find_where-test,
}
use micro_erp_saas.Entities.{User}
use micro_erp_saas.Store.{Db, Request, ok, err, session_revoked}
use micro_erp_saas.Store.Commit.{run_tx_ok_ind}
use micro_erp_saas.Accounts.Crypto.{Crypto, JwtPayload}
use micro_erp_saas.Accounts.Users.{
  is_user, put_user, with_password, deactivate, deactivate_body, reset_password,
  reset_password_body,
}
use micro_erp_saas.Accounts.Strategy.{validate}
use micro_erp_saas.Accounts.Keys.{is_id, IsUserKeyed, find_where-is_id}
use micro_erp_saas.Accounts.Revocation.{IsPast, IsPast-refused, find_where-put_self}
use micro_erp_saas.Accounts.Lifecycle.{
  AccountsReach, start, step, user_deactivated, password_reset, AccountsReach-IsPast,
  AccountsReach-IsUserKeyed,
}

-- A save that raises the version of the row puts it past what it was.
saved-IsPast :
    (id bound : ℕ) (u new : User) (db db' : Db)
    → find_where (is_id id) db.users ≡ some u
    → new.id ≡ u.id
    → bound < new.token_version
    → db'.users ≡ put_user new db.users
    → IsPast id bound db'
saved-IsPast id bound u new db db' found same grown rows =
    let at = find_where-test (is_id id) db.users u found in
    let here : u.id ≡ id = ground arith in
    record {
      user = new;
      found = rw rows (
          subst (λ x. find_where (is_id x) (put_user new db.users) ≡ some new) here
            (find_where-put_self u new db.users same
              (subst (λ x. find_where (is_id x) db.users ≡ some u) (sym here) found)));
      past = grown;
    }

module _ (k : Crypto) (req : Request) (tenant : ℕ) (p : JwtPayload) (u : User) (db db' : Db)
    (keyed : IsUserKeyed db.users) (found : find_where (is_user tenant p.sub) db.users ≡ some u)
    (signed : p.token_version ≤ u.token_version) where
  deactivate-IsPast :
      (deactivate k req tenant p.sub db).0 ≡ ok tt
      → IsPast p.sub p.token_version (deactivate k req tenant p.sub db).1
  unfolding deactivate
  deactivate-IsPast done =
      run_tx_ok_ind (IsPast p.sub p.token_version) (deactivate_body k req tenant p.sub) db tt
        (λ db1 ran.
          saved-IsPast p.sub p.token_version u
            (record u { is_active = false; token_version = u.token_version + 1 }) db db1
            (find_where-is_id tenant p.sub db.users u keyed found) refl (omega arith)
            (ground arith))
        done

  reset_password-IsPast :
      (new_password : String)
      → (reset_password k req tenant p.sub new_password db).0 ≡ ok tt
      → IsPast p.sub p.token_version (reset_password k req tenant p.sub new_password db).1
  unfolding reset_password
  reset_password-IsPast new_password done =
      run_tx_ok_ind (IsPast p.sub p.token_version)
        (reset_password_body k req tenant p.sub new_password) db tt
        (λ db1 ran.
          saved-IsPast p.sub p.token_version u
            (with_password (k.hash new_password (req.uuid 0)) req.now u) db db1
            (find_where-is_id tenant p.sub db.users u keyed found) refl (omega arith)
            (ground arith))
        done

  -- After `deactivate` has succeeded on a user of the tenant, a token of that user whose version is
  -- at most the one before is refused as revoked, and it stays refused in every database that any
  -- sequence of requests on users leads to, a reactivation among them, if identifiers and emails of
  -- users are distinct before it.
  pub validate-deactivate :
      (deactivate k req tenant p.sub db).0 ≡ ok tt
      → AccountsReach k (deactivate k req tenant p.sub db).1 db'
      → validate p db' ≡ err session_revoked
  validate-deactivate done later =
      let at =
        AccountsReach-IsUserKeyed k db _ (step start (user_deactivated req tenant p.sub)) keyed in
      IsPast-refused p db'
        (AccountsReach-IsPast k p.sub p.token_version _ db' later at (deactivate-IsPast done))

  -- The same for a new password that an administrator sets.
  pub validate-reset_password :
      (new_password : String)
      → (reset_password k req tenant p.sub new_password db).0 ≡ ok tt
      → AccountsReach k (reset_password k req tenant p.sub new_password db).1 db'
      → validate p db' ≡ err session_revoked
  validate-reset_password new_password done later =
      let at =
        AccountsReach-IsUserKeyed k db _ (step start (password_reset req tenant p.sub new_password))
          keyed in
      IsPast-refused p db' (
        AccountsReach-IsPast k p.sub p.token_version _ db' later at
          (reset_password-IsPast new_password done))
