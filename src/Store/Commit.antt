-- ===== src/Store/Commit.antt =====
-- What a transaction block does to a property of the database: it has to hold after a commit only.
use micro_erp_saas.Prelude.{◌≡◌, refl, ◌⊎◌, inl, inr, arith}
use micro_erp_saas.Store.State.{Db, Error, Result, ok, err, Tx, run_tx}

pub Result-cases :
    {A : Type 0} (r : Result A) → ((a : A) × (r ≡ ok a)) ⊎ ((e : Error) × (r ≡ err e))
Result-cases (ok a) = inl (a, refl)
Result-cases (err e) = inr (e, refl)

-- A failed block leaves the database alone, and what commits has the property.
pub run_tx_ind :
    {A : Type 0} (P : Db → Type 0) (m : Tx A) (db : Db)
    → P db
    → ((a : A) (db' : Db) → m db ≡ ok (a, db') → P db')
    → P (run_tx m db).1
run_tx_ind P m db start commits = elim (Result-cases (m db)) [
  | inl ((a, db'), e) ↦ rw (e, run_tx) (commits a db' e)
  | inr (e, failed) ↦ rw (failed, run_tx) start
]

-- A successful block has committed what its body computed.
pub run_tx_ok_ind :
    {A : Type 0} (P : Db → Type 0) (m : Tx A) (db : Db) (a : A)
    → ((db' : Db) → m db ≡ ok (a, db') → P db')
    → (run_tx m db).0 ≡ ok a
    → P (run_tx m db).1
run_tx_ok_ind P m db a commits h = elim (Result-cases (m db)) [
  | inl ((a', db'), e) ↦
      let same : a' ≡ a = ground arith in rw (e, run_tx) (commits db' (rw same at e))
  | inr (e, failed) ↦ absurd (ground arith)
]
