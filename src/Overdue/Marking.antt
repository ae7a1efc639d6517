-- ===== src/Overdue/Marking.antt =====
-- The customers before and after the job, row by row.
use micro_erp_saas.Prelude.{
  ℕ, ◌+◌, ◌-◌, ◌*◌, subst, ◌≡◌, refl, sym, ap, ◌∙◌, String, Bool, true, false, not, inl, inr,
  Option, List, [], ◌∷◌, ◌==◌, arith, Bool-cases, All, select_where, update_where, any_where,
  or_else, is_some,
}
use micro_erp_saas.Entities.{Customer, Tenant, AuditLog}
use micro_erp_saas.Store.{Db, Request}
use micro_erp_saas.Store.Commit.{run_tx_ind}
use micro_erp_saas.Ledger.Account.{IsSound, Agrees, IsDebtor, IsDistinct}
use micro_erp_saas.Subscriptions.{day_ms}
use micro_erp_saas.Audit.{log, log_or_skip}
use micro_erp_saas.Overdue.{
  process_overdue_customers, process_candidates, is_candidate, mark_overdue, mark_ids, ids_of,
  midnight, overdue_log, insert_audit_logs, block, block_long_overdue, is_long_overdue,
  auto_block_days, update_customers, process_auto_blocks, is_over_limit,
  process_auto_block_on_limit,
}

-- A row after the job: the mark is not lost, the block is not lifted, and all else is the same.
pub record Touched (c c' : Customer) : Type 0 where
  pub row : c' ≡ record c { is_overdue = c'.is_overdue; is_active = c'.is_active }
  pub marked : c.is_overdue ≡ true → c'.is_overdue ≡ true
  pub blocked : c.is_active ≡ false → c'.is_active ≡ false

pub Touched-trans : (a b c : Customer) → Touched a b → Touched b c → Touched a c
Touched-trans a b c x y = record {
  row =
      y.row
      ∙ ap {A = Customer} (λ r. record r { is_overdue = c.is_overdue; is_active = c.is_active })
          x.row;
  marked = λ h. y.marked (x.marked h);
  blocked = λ h. y.blocked (x.blocked h);
}

-- The rows correspond one to one, in the same order.
pub data Rows : List Customer → List Customer → Type 0 where
  no_rows : Rows [] []
  next_row :
      {c c' : Customer} {cs cs' : List Customer}
      → Touched c c'
      → Rows cs cs'
      → Rows (c ∷ cs) (c' ∷ cs')

Touched-refl : (c : Customer) → Touched c c
Touched-refl c = record { row = refl; marked = λ h. h; blocked = λ h. h }

pub Rows-refl : (cs : List Customer) → Rows cs cs
Rows-refl [] = no_rows
Rows-refl (c ∷ cs) = next_row (Touched-refl c) (Rows-refl cs)

Rows-trans : {xs ys zs : List Customer} → Rows xs ys → Rows ys zs → Rows xs zs
Rows-trans no_rows no_rows = no_rows
Rows-trans (next_row x rest) (next_row y more) =
    next_row (Touched-trans _ _ _ x y) (Rows-trans rest more)

pub update_where-Rows :
    (test : Customer → Bool) (change : Customer → Customer) (cs : List Customer)
    → ((c : Customer) → Touched c (change c))
    → Rows cs (update_where test change cs)
update_where-Rows test change [] t = no_rows
update_where-Rows test change (c ∷ cs) t =
    next_row
      (elim (Bool-cases (test c)) [ inl hit ↦ rw hit (t c) | inr miss ↦ rw miss (Touched-refl c) ])
      (update_where-Rows test change cs t)

mark_overdue-Touched : (c : Customer) → Touched c (mark_overdue c)
mark_overdue-Touched c = record { row = refl; marked = λ h. refl; blocked = λ h. h }

pub block-Touched : (c : Customer) → Touched c (block c)
block-Touched c = record { row = refl; marked = λ h. h; blocked = λ h. refl }

-- What the job does to the database.
pub record Jobbed (db db' : Db) : Type 0 where
  pub rows : Rows db.customers db'.customers
  pub same_transactions : db'.transactions ≡ db.transactions
  pub same_tenants : db'.tenants ≡ db.tenants

pub Jobbed-refl : (db : Db) → Jobbed db db
Jobbed-refl db = record {
  rows = Rows-refl db.customers;
  same_transactions = refl;
  same_tenants = refl;
}

pub Jobbed-trans : (a b c : Db) → Jobbed a b → Jobbed b c → Jobbed a c
Jobbed-trans a b c x y = record {
  rows = Rows-trans x.rows y.rows;
  same_transactions = y.same_transactions ∙ x.same_transactions;
  same_tenants = y.same_tenants ∙ x.same_tenants;
}

-- An audit row leaves the customers alone.
log_or_skip-same :
    (e : AuditLog) (db : Db)
    → (log_or_skip e db) ≡ record db { audit_logs = (log_or_skip e db).audit_logs }
log_or_skip-same e db =
    run_tx_ind (λ d. d ≡ record db { audit_logs = d.audit_logs }) (log e) db refl
      λ u db' ran. ground arith

pub insert_audit_logs-same :
    (req : Request) (n : ℕ) (cs : List Customer) (db : Db)
    → insert_audit_logs req n cs db
      ≡ record db { audit_logs = (insert_audit_logs req n cs db).audit_logs }
insert_audit_logs-same req n [] db = refl
insert_audit_logs-same req n (c ∷ cs) db =
    let db1 = log_or_skip (overdue_log req n c) db in
    let rest = insert_audit_logs-same req (n + 1) cs db1 in
    rest
    ∙ ap {A = Db} (λ d. record d { audit_logs = (insert_audit_logs req n (c ∷ cs) db).audit_logs })
        (log_or_skip-same (overdue_log req n c) db)

pub block_long_overdue-Jobbed :
    (to_int : String → Option ℕ) (now : ℕ) (ts : List Tenant) (db : Db)
    → Jobbed db (block_long_overdue to_int now ts db)
block_long_overdue-Jobbed to_int now [] db = Jobbed-refl db
block_long_overdue-Jobbed to_int now (t ∷ ts) db =
    let days = or_else (auto_block_days to_int t) 0 in
    let test = is_long_overdue t.id (midnight (now - days * day_ms)) in
    elim (Bool-cases (days == 0)) [
      | inl off ↦ rw off (block_long_overdue-Jobbed to_int now ts db)
      | inr on ↦
          let db1 = update_customers test block db in
          let first : Jobbed db db1 = record {
            rows = update_where-Rows test block db.customers block-Touched;
            same_transactions = refl;
            same_tenants = refl;
          } in
          rw on (Jobbed-trans db db1 _ first (block_long_overdue-Jobbed to_int now ts db1))
    ]

pub process_auto_blocks-Jobbed :
    (to_int : String → Option ℕ) (now : ℕ) (db : Db) → Jobbed db (process_auto_blocks to_int now db)
process_auto_blocks-Jobbed to_int now db =
    elim (Bool-cases (any_where (λ t. not (is_some (auto_block_days to_int t))) db.tenants)) [
      | inl bad ↦ rw bad (Jobbed-refl db)
      | inr fine ↦ rw fine (block_long_overdue-Jobbed to_int now db.tenants db)
    ]

-- The rows that are marked, before the rest of the job.
abbrev pub marked_rows : Request → List Customer → Db → Db
marked_rows req found db =
    insert_audit_logs req 0 found (record db { customers = mark_ids (ids_of found) db.customers })

pub marked_rows-Jobbed :
    (req : Request) (found : List Customer) (db : Db) → Jobbed db (marked_rows req found db)
marked_rows-Jobbed req found db =
    let ids = ids_of found in
    rw (insert_audit_logs-same req 0 found (record db { customers = mark_ids ids db.customers }))
      (record {
        rows =
            update_where-Rows (λ c. any_where (λ id. id == c.id) ids) mark_overdue db.customers
              mark_overdue-Touched;
        same_transactions = refl;
        same_tenants = refl;
      })

-- The part of the job after the marking.
pub blocks-Jobbed :
    (to_int : String → Option ℕ) (now : ℕ) (db : Db)
    → Jobbed db (process_auto_block_on_limit (process_auto_blocks to_int now db))
blocks-Jobbed to_int now db =
    let db1 = process_auto_blocks to_int now db in
    Jobbed-trans db db1 (process_auto_block_on_limit db1) (process_auto_blocks-Jobbed to_int now db)
      (record {
        rows = update_where-Rows is_over_limit block db1.customers block-Touched;
        same_transactions = refl;
        same_tenants = refl;
      })

-- The job leaves transactions and tenants alone.
pub process_overdue_customers-Jobbed :
    (to_int : String → Option ℕ) (req : Request) (db : Db)
    → Jobbed db (process_overdue_customers to_int req db).1
unfolding process_overdue_customers
process_overdue_customers-Jobbed to_int req db =
    go (select_where (is_candidate (midnight req.now)) db.customers)
  where
    go : (cs : List Customer) → Jobbed db (process_candidates to_int req cs db).1
    go [] = Jobbed-refl db
    go (c ∷ cs) =
        let db1 = marked_rows req (c ∷ cs) db in
        Jobbed-trans db db1 _ (marked_rows-Jobbed req (c ∷ cs) db)
          (blocks-Jobbed to_int req.now db1)

-- What holds of every row by its identity, its balance and its tenant holds of the rows after the job.
Rows-All {κ} :
    (P : Customer → Type κ) {cs cs' : List Customer}
    → ((c : Customer) (o a : Bool) → P c → P (record c { is_overdue = o; is_active = a }))
    → Rows cs cs'
    → All P cs
    → All P cs'
Rows-All P keep no_rows h = tt
Rows-All P keep (next_row {c} {c'} t rest) h =
    (subst P (sym t.row) (keep c c'.is_overdue c'.is_active h.0), Rows-All P keep rest h.1)

Rows-any_where :
    (id : ℕ) {cs cs' : List Customer}
    → Rows cs cs'
    → any_where (λ r. r.id == id) cs' ≡ any_where (λ r. r.id == id) cs
Rows-any_where id no_rows = refl
Rows-any_where id (next_row {c} {c'} t rest) =
    let same : c'.id ≡ c.id = ap (λ r. r.id) t.row in ground (arith, same, Rows-any_where id rest)

pub Rows-IsDistinct : {cs cs' : List Customer} → Rows cs cs' → IsDistinct cs → IsDistinct cs'
Rows-IsDistinct no_rows h = tt
Rows-IsDistinct (next_row {c} {c'} t rest) h =
    let same : c'.id ≡ c.id = ap (λ r. r.id) t.row in
    (rw same (Rows-any_where c.id rest ∙ h.0), Rows-IsDistinct rest h.1)

-- Only the mark and the block of a customer change, so the books stay sound.
pub Jobbed-IsSound : (db db' : Db) → Jobbed db db' → IsSound db → IsSound db'
Jobbed-IsSound db db' j s = record {
  reconciled =
      rw j.same_transactions (Rows-All (Agrees db.transactions) (λ c o a h. h) j.rows s.reconciled);
  solvent = Rows-All IsDebtor (λ c o a h. h) j.rows s.solvent;
  keyed = rw j.same_transactions s.keyed;
  distinct = Rows-IsDistinct j.rows s.distinct;
}

-- The job for overdue customers keeps the books sound.
pub process_overdue_customers-IsSound :
    (to_int : String → Option ℕ) (req : Request) (db : Db)
    → IsSound db
    → IsSound (process_overdue_customers to_int req db).1
process_overdue_customers-IsSound to_int req db =
    Jobbed-IsSound db (process_overdue_customers to_int req db).1
      (process_overdue_customers-Jobbed to_int req db)
