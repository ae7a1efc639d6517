-- ===== src/Overdue/Blocking.antt =====
-- The blocks of the job, and debts after it.
use micro_erp_saas.Prelude.{
  ℕ, ◌-◌, ◌*◌, ◌≤◌, ◌<◌, ◌≡◌, refl, sym, ap, subst, String, Bool, true, false, not, ◌&&◌, inl, inr,
  Option, some, none, List, [], ◌∷◌, ◌==◌, if◌then◌else◌, arith, Bool-cases, find_where,
  select_where, any_where, is_some,
}
use micro_erp_saas.Prelude.Int.{pos, leb_ℤ}
use micro_erp_saas.Entities.{Customer, Tenant}
use micro_erp_saas.Store.{Db, Request, err, is_customer, has_key, customer_blocked, limit_exceeded}
use micro_erp_saas.Transactions.Dto.{CreateTransactionDto}
use micro_erp_saas.Transactions.Charges.{register_debt}
use micro_erp_saas.Transactions.Outcome.{register_debt-refused}
use micro_erp_saas.Subscriptions.{day_ms, is_before}
use micro_erp_saas.Subscriptions.Keys.{has_id}
use micro_erp_saas.Overdue.{
  process_overdue_customers, process_candidates, is_candidate, owes, mark_overdue, mark_ids, ids_of,
  midnight, block, auto_block_days, process_auto_blocks, is_over_limit, process_auto_block_on_limit,
}
use micro_erp_saas.Overdue.Marking.{
  marked_rows, marked_rows-Jobbed, insert_audit_logs-same, process_auto_blocks-Jobbed,
  process_overdue_customers-Jobbed, process_overdue_customers-Jobbed, block-Touched,
  update_where-Rows,
}
use micro_erp_saas.Overdue.Blocked.{
  Rows-find_where, find_where-update, Blocked, Jobbed-Blocked, update_customers-Blocked,
  block_long_overdue-Blocked,
}

-- By the limit: the customer opted in, and the balance has reached a limit that is not 0.
abbrev pub has_reached_limit : Customer → Bool
has_reached_limit c =
    c.auto_block_on_limit
    && (not (leb_ℤ c.credit_limit_cents (pos 0)) && leb_ℤ c.credit_limit_cents c.balance_cents)

-- By the days: the tenant has set a number of days, and the promise is older.
pub record IsLongOverdue (to_int : String → Option ℕ) (now : ℕ) (db : Db) (c : Customer)
    : Type 0 where
  pub owner : Tenant
  pub days : ℕ
  pub found : find_where (has_id c.tenant_id) db.tenants ≡ some owner
  pub set : auto_block_days to_int owner ≡ some days
  pub some_days : 0 < days
  pub readable : any_where (λ t. not (is_some (auto_block_days to_int t))) db.tenants ≡ false
  pub in_debt : owes c ≡ true
  pub late : is_before (midnight (now - days * day_ms)) c.next_payment_promise ≡ true

-- Whether a row is due for a block depends on what the job does not touch.
pub data IsDue (to_int : String → Option ℕ) (now : ℕ) (db : Db) (c : Customer) : Type 0 where
  by_limit : has_reached_limit c ≡ true → IsDue to_int now db c
  by_days : IsLongOverdue to_int now db c → IsDue to_int now db c

-- A candidate, or a customer that is marked already, is marked once the rows are.
mark_ids-overdue :
    (tenant id today : ℕ) (cs : List Customer) (c : Customer)
    → find_where (is_customer tenant id) cs ≡ some c
    → is_candidate today c ≡ true
    → any_where (λ i. i == c.id) (ids_of (select_where (is_candidate today) cs)) ≡ true
mark_ids-overdue tenant id today [] c found hit = absurd (ground arith)
mark_ids-overdue tenant id today (x ∷ xs) c found hit =
    elim (Bool-cases (is_customer tenant id x)) [
      | inl own ↦
          let head : x ≡ c = ground arith in
          let test : is_candidate today x ≡ true = rw head hit in rw test (ground (arith, head))
      | inr other ↦
          let rest = mark_ids-overdue tenant id today xs c (ground arith) hit in
          elim (Bool-cases (is_candidate today x)) [
            | inl t ↦ rw t (ground (arith, rest))
            | inr f ↦ rw f rest
          ]
    ]

-- The customers that the marking leaves.
pub marked_rows-customers :
    (req : Request) (cs : List Customer) (db : Db)
    → (marked_rows req cs db).customers ≡ mark_ids (ids_of cs) db.customers
marked_rows-customers req cs db =
    ap (λ d. d.customers)
      (insert_audit_logs-same req 0 cs
        (record db { customers = mark_ids (ids_of cs) db.customers }))

midnight_mono : (a b : ℕ) → a ≤ b → midnight a ≤ midnight b
midnight_mono a b h = omega (arith, h)

pub is_before_mono : (a b : ℕ) (d : Option ℕ) → a ≤ b → is_before a d ≡ true → is_before b d ≡ true
is_before_mono a b none le h = absurd (ground arith)
is_before_mono a b (some d) le h = ground arith

-- The state of a due customer between the marking and the blocks.
module _ (to_int : String → Option ℕ) (now id : ℕ) (db : Db) (c : Customer)
    (found : find_where (is_customer c.tenant_id id) db.customers ≡ some c) where
  limit_blocks :
      has_reached_limit c ≡ true
      → Blocked c.tenant_id id (process_auto_block_on_limit (process_auto_blocks to_int now db))
  limit_blocks reached =
      let db1 = process_auto_blocks to_int now db in
      let next =
        Rows-find_where c.tenant_id id c (process_auto_blocks-Jobbed to_int now db).rows found in
      let same : has_reached_limit next.0 ≡ true = rw next.2.row reached in
      update_customers-Blocked c.tenant_id id is_over_limit db1 next.0 next.1 (λ on. ground arith)

  days_block :
      IsLongOverdue to_int now db c
      → c.is_overdue ≡ true
      → Blocked c.tenant_id id (process_auto_block_on_limit (process_auto_blocks to_int now db))
  days_block l overdue =
      let db1 = process_auto_blocks to_int now db in
      let loop =
        block_long_overdue-Blocked to_int now id l.days l.owner db.tenants db c l.found l.set
          l.some_days found l.in_debt overdue l.late in
      let all : Blocked c.tenant_id id db1 = rw l.readable loop in
      Jobbed-Blocked c.tenant_id id db1 (process_auto_block_on_limit db1)
        (record {
          rows = update_where-Rows is_over_limit block db1.customers block-Touched;
          same_transactions = refl;
          same_tenants = refl;
        })
        all

-- A query that some row passes selects one.
select_where-some :
    (test : Customer → Bool) (cs : List Customer)
    → any_where test cs ≡ true
    → (c : Customer) × (rest : List Customer) × (select_where test cs ≡ c ∷ rest)
select_where-some test [] h = absurd (ground arith)
select_where-some test (x ∷ xs) h = elim (Bool-cases (test x)) [
  | inl t ↦ (x, select_where test xs, ground arith)
  | inr f ↦
      let later = select_where-some test xs (ground arith) in
      (later.0, later.1, ground (arith, later.2))
]

-- With a candidate, the job goes on to the blocks.
pub process_overdue_customers-runs :
    (to_int : String → Option ℕ) (req : Request) (db : Db)
    → any_where (is_candidate (midnight req.now)) db.customers ≡ true
    → (process_overdue_customers to_int req db).1
      ≡ process_auto_block_on_limit (
          process_auto_blocks to_int req.now
            (marked_rows req (select_where (is_candidate (midnight req.now)) db.customers) db))
unfolding process_overdue_customers
process_overdue_customers-runs to_int req db work =
    let cons = select_where-some (is_candidate (midnight req.now)) db.customers work in
    subst
      (λ cs.
        (process_candidates to_int req cs db).1
        ≡ process_auto_block_on_limit (process_auto_blocks to_int req.now (marked_rows req cs db)))
      (sym cons.2) refl

-- The row of a customer after the marking.
pub record MarkedRow (today id : ℕ) (c : Customer) (db1 : Db) : Type 0 where
  pub mark : Bool
  pub found :
      find_where (is_customer c.tenant_id id) db1.customers ≡ some (record c { is_overdue = mark })
  pub kept : c.is_overdue ≡ true → mark ≡ true
  pub marked : is_candidate today c ≡ true → mark ≡ true

marked_rows-MarkedRow :
    (today : ℕ) (req : Request) (db : Db) (c : Customer) (id : ℕ)
    → find_where (is_customer c.tenant_id id) db.customers ≡ some c
    → MarkedRow today id c (marked_rows req (select_where (is_candidate today) db.customers) db)
marked_rows-MarkedRow today req db c id found =
    let cs = select_where (is_candidate today) db.customers in
    let test : Customer → Bool = λ r. any_where (λ i. i == r.id) (ids_of cs) in
    let put =
      find_where-update c.tenant_id id test mark_overdue db.customers c (λ r. refl) (λ r. refl)
        found in
    let rows = marked_rows-customers req cs db in
    elim (Bool-cases (test c)) [
      | inl hit ↦ record {
        mark = true;
        found = rw rows (rw hit at put);
        kept = λ h. refl;
        marked = λ h. refl;
      }
      | inr miss ↦ record {
        mark = c.is_overdue;
        found = rw rows (rw miss at put);
        kept = λ h. h;
        marked = λ h.
            absurd
              (ground (arith, miss, mark_ids-overdue c.tenant_id id today db.customers c found h));
      }
    ]

-- If there is a candidate, a customer that is due is blocked after the job.
pub process_overdue_customers-Blocked :
    (to_int : String → Option ℕ) (req : Request) (db : Db) (c : Customer) (id : ℕ)
    → any_where (is_candidate (midnight req.now)) db.customers ≡ true
    → find_where (is_customer c.tenant_id id) db.customers ≡ some c
    → IsDue to_int req.now db c
    → Blocked c.tenant_id id (process_overdue_customers to_int req db).1
process_overdue_customers-Blocked to_int req db c id work found due =
    rw (process_overdue_customers-runs to_int req db work) (go due)
  where
    cs : List Customer
    cs = select_where (is_candidate (midnight req.now)) db.customers

    db1 : Db
    db1 = marked_rows req cs db

    m : MarkedRow (midnight req.now) id c db1
    m = marked_rows-MarkedRow (midnight req.now) req db c id found

    c1 : Customer
    c1 = record c { is_overdue = m.mark }

    go :
        IsDue to_int req.now db c
        → Blocked c.tenant_id id
            (process_auto_block_on_limit (process_auto_blocks to_int req.now db1))
    go (by_limit reached) = limit_blocks to_int req.now id db1 c1 m.found reached
    go (by_days l) =
        let same = (marked_rows-Jobbed req cs db).same_tenants in
        let today =
          is_before_mono (midnight (req.now - l.days * day_ms)) (midnight req.now)
            c.next_payment_promise (midnight_mono (req.now - l.days * day_ms) req.now (omega arith))
            l.late in
        let long : IsLongOverdue to_int req.now db1 c1 = record {
          owner = l.owner;
          days = l.days;
          found = rw same l.found;
          set = l.set;
          some_days = l.some_days;
          readable = rw same l.readable;
          in_debt = l.in_debt;
          late = l.late;
        } in
        days_block to_int req.now id db1 c1 m.found long (elim (Bool-cases c.is_overdue) [
          | inl on ↦ m.kept on
          | inr off ↦ m.marked (rw (today, l.in_debt, off) refl)
        ])

-- If the job finds a candidate, then after it a new debt of a customer who has reached the own
-- limit with automatic blocking, or who owes and whose promise is older than the days that the
-- tenant has set, where no tenant's setting fails its cast, is refused as blocked and changes
-- nothing, for a key that is new and a lock that is granted.
pub register_debt-process_overdue_customers :
    (to_int : String → Option ℕ) (cron req : Request) (user : ℕ) (db : Db) (c : Customer)
    (dto : CreateTransactionDto)
    → any_where (is_candidate (midnight cron.now)) db.customers ≡ true
    → find_where (is_customer c.tenant_id dto.customer_id) db.customers ≡ some c
    → IsDue to_int cron.now db c
    → find_where (has_key c.tenant_id dto.idempotency_key) db.transactions ≡ none
    → req.lock_granted ≡ true
    → register_debt req c.tenant_id user dto (process_overdue_customers to_int cron db).1
      ≡ (err customer_blocked, (process_overdue_customers to_int cron db).1)
register_debt-process_overdue_customers to_int cron req user db c dto work found due fresh granted =
    let db1 = (process_overdue_customers to_int cron db).1 in
    let b = process_overdue_customers-Blocked to_int cron db c dto.customer_id work found due in
    let kept = (process_overdue_customers-Jobbed to_int cron db).same_transactions in
    let refused =
      register_debt-refused req c.tenant_id user dto db1 b.customer
        (subst (λ ts. find_where (has_key c.tenant_id dto.idempotency_key) ts ≡ none) (sym kept)
          fresh)
        granted b.found (rw b.inactive refl) in
    subst
      (λ a.
        register_debt req c.tenant_id user dto db1
        ≡ (err (if a then limit_exceeded else customer_blocked), db1))
      b.inactive refused
