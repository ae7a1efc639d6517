-- ===== src/Accounts/Revocation.antt =====
-- Revoked sessions: the version of a user, and tokens of a version that is past.
use micro_erp_saas.Prelude.{
  ℕ, ◌≤◌, ◌<◌, ◌≡◌, refl, ◌∙◌, subst, false, inl, inr, some, List, [], ◌∷◌, ◌==◌, arith, Bool-cases,
  find_where, find_where-test, any_where, any_where-find_where,
}
use micro_erp_saas.Entities.{User}
use micro_erp_saas.Store.{Db, err, session_revoked}
use micro_erp_saas.Accounts.Crypto.{JwtPayload}
use micro_erp_saas.Accounts.Users.{clashes_user, put_user}
use micro_erp_saas.Accounts.Strategy.{validate}
use micro_erp_saas.Accounts.Keys.{is_id, IsUserKeyed, put_user-IsUserKeyed}

-- The user's version is past a bound.
pub record IsPast (id bound : ℕ) (db : Db) : Type 0 where
  pub user : User
  pub found : find_where (is_id id) db.users ≡ some user
  pub past : bound < user.token_version

-- What a write does to the users: a row under a new identifier, or a row with its version kept or
-- raised.
pub data Writing (us : List User) : List User → Type 0 where
  same_users : Writing us us
  user_added : (u : User) → any_where (clashes_user u) us ≡ false → Writing us (u ∷ us)
  user_saved :
      (old new : User)
      → find_where (is_id old.id) us ≡ some old
      → new.id ≡ old.id
      → new.email ≡ old.email
      → old.token_version ≤ new.token_version
      → Writing us (put_user new us)

pub find_where-put_self :
    (old new : User) (us : List User)
    → new.id ≡ old.id
    → find_where (is_id old.id) us ≡ some old
    → find_where (is_id old.id) (put_user new us) ≡ some new
find_where-put_self old new [] same h = absurd (ground arith)
find_where-put_self old new (u ∷ us) same h =
    ground (arith, same, find_where-put_self old new us same)

find_where-put_other :
    (id : ℕ) (new : User) (us : List User)
    → (new.id == id) ≡ false
    → find_where (is_id id) (put_user new us) ≡ find_where (is_id id) us
find_where-put_other id new [] apart = refl
find_where-put_other id new (u ∷ us) apart = ground (arith, find_where-put_other id new us apart)

pub Writing-IsPast :
    {id bound : ℕ} {db db' : Db}
    → Writing db.users db'.users
    → IsPast id bound db
    → IsPast id bound db'
Writing-IsPast {id} {bound} {db} {db'} w p = go db'.users refl w
  where
    go : (us : List User) → db'.users ≡ us → Writing db.users us → IsPast id bound db'
    go _ e same_users = record { user = p.user; found = rw e p.found; past = p.past }
    go _ e (user_added u fresh) =
        let apart =
          any_where-find_where (clashes_user u) (is_id id) db.users p.user fresh p.found in
        let at = find_where-test (is_id id) db.users p.user p.found in
        record { user = p.user; found = rw e (ground (arith, p.found)); past = p.past }
    go _ e (user_saved old new found same mail grown) = elim (Bool-cases (new.id == id)) [
      | inl mine ↦
          let here : old.id ≡ id = ground arith in
          let owner : p.user ≡ old =
            cc (p.found, subst (λ x. find_where (is_id x) db.users ≡ some old) here found) in
          record {
            user = new;
            found = rw e (
                subst (λ x. find_where (is_id x) (put_user new db.users) ≡ some new) here
                  (find_where-put_self old new db.users same found));
            past = ground (arith, grown, p.past, owner);
          }
      | inr other ↦ record {
        user = p.user;
        found = rw e (find_where-put_other id new db.users other ∙ p.found);
        past = p.past;
      }
    ]

-- Every write keeps the identifiers and the emails distinct.
pub Writing-IsUserKeyed : {us us' : List User} → Writing us us' → IsUserKeyed us → IsUserKeyed us'
Writing-IsUserKeyed same_users k = k
Writing-IsUserKeyed (user_added u fresh) k = (fresh, k)
Writing-IsUserKeyed {us} (user_saved old new found same mail grown) k =
    put_user-IsUserKeyed old new same mail us k found

-- A token of a past version is refused.
pub IsPast-refused :
    (p : JwtPayload) (db : Db)
    → IsPast p.sub p.token_version db
    → validate p db ≡ err session_revoked
unfolding validate
IsPast-refused p db past = ground (arith, past.found, past.past)
