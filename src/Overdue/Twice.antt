-- ===== src/Overdue/Twice.antt =====
-- The batch update by identifiers, and a second run of the job.
use micro_erp_saas.Prelude.{
  ℕ, ◌≤◌, ◌≡◌, refl, sym, ap, ◌∙◌, subst, String, Bool, true, false, inl, inr, Option, List, [],
  ◌∷◌, ◌==◌, if◌then◌else◌, arith, Bool-cases, All, select_where, update_where, any_where,
  any_where-narrow,
}
use micro_erp_saas.Entities.{Customer}
use micro_erp_saas.Store.{Db, Request}
use micro_erp_saas.Ledger.Account.{IsDistinct}
use micro_erp_saas.Subscriptions.{is_before}
use micro_erp_saas.Overdue.{
  process_overdue_customers, process_candidates, is_candidate, mark_overdue, mark_ids, ids_of,
  midnight,
}
use micro_erp_saas.Overdue.Marking.{Rows, no_rows, next_row, marked_rows, blocks-Jobbed}
use micro_erp_saas.Overdue.Blocking.{
  process_overdue_customers-runs, marked_rows-customers, is_before_mono,
}

-- The identifiers of the selected rows.
abbrev selected : (Customer → Bool) → List Customer → List ℕ
selected test cs = ids_of (select_where test cs)

selected-absent :
    (test : Customer → Bool) (id : ℕ) (cs : List Customer)
    → any_where (λ r. r.id == id) cs ≡ false
    → any_where (λ i. i == id) (selected test cs) ≡ false
selected-absent test id [] h = refl
selected-absent test id (c ∷ cs) h = elim (Bool-cases (test c)) [
  | inl hit ↦ rw hit (ground (arith, selected-absent test id cs))
  | inr miss ↦ rw miss (ground (arith, selected-absent test id cs))
]

mark_ids-absent :
    (id : ℕ) (ids : List ℕ) (cs : List Customer)
    → any_where (λ r. r.id == id) cs ≡ false
    → mark_ids (id ∷ ids) cs ≡ mark_ids ids cs
mark_ids-absent id ids [] h = refl
mark_ids-absent id ids (c ∷ cs) h =
    let apart : (id == c.id) ≡ false = ground arith in
    rw apart (
      ap (λ r. (if any_where (λ i. i == c.id) ids then mark_overdue c else c) ∷ r)
        (mark_ids-absent id ids cs (ground arith)))

-- Marking the rows of the candidates' identifiers marks the candidates, if identifiers are distinct.
pub mark_ids-update_where :
    (test : Customer → Bool) (cs : List Customer)
    → IsDistinct cs
    → mark_ids (ids_of (select_where test cs)) cs ≡ update_where test mark_overdue cs
mark_ids-update_where test [] k = refl
mark_ids-update_where test (c ∷ cs) k =
    let rest = mark_ids-update_where test cs k.1 in
    elim (Bool-cases (test c)) [
      | inl hit ↦
          let self : (c.id == c.id) ≡ true = ground arith in
          let ids : selected test (c ∷ cs) ≡ c.id ∷ selected test cs = rw hit refl in
          let marks = mark_ids-absent c.id (selected test cs) cs k.0 ∙ rest in
          subst (λ is. mark_ids is (c ∷ cs) ≡ update_where test mark_overdue (c ∷ cs)) (sym ids)
            (rw (hit, self) (ap (λ r. mark_overdue c ∷ r) marks))
      | inr miss ↦
          let ids : selected test (c ∷ cs) ≡ selected test cs = rw miss refl in
          subst (λ is. mark_ids is (c ∷ cs) ≡ update_where test mark_overdue (c ∷ cs)) (sym ids)
            (rw (selected-absent test c.id cs k.0, miss) (ap (λ r. c ∷ r) rest))
    ]

-- After the marking no row is a candidate of the day, whatever becomes of the marks and blocks.
abbrev Settled : ℕ → Customer → Type 0
Settled today c = is_candidate today c ≡ false

update_where-Settled :
    (today today' : ℕ) (cs : List Customer)
    → today' ≤ today
    → All (Settled today') (update_where (is_candidate today) mark_overdue cs)
update_where-Settled today today' [] le = tt
update_where-Settled today today' (c ∷ cs) le = (
  elim (Bool-cases (is_candidate today c)) [
    | inl hit ↦ rw hit (ground arith)
    | inr miss ↦ rw miss (elim (Bool-cases (is_before today' c.next_payment_promise)) [
      | inl late ↦
          let later = is_before_mono today' today c.next_payment_promise le late in
          ground (arith, miss, later)
      | inr on_time ↦ rw on_time refl
    ])
  ],
  update_where-Settled today today' cs le,
)

Rows-Settled :
    (today : ℕ) {cs cs' : List Customer}
    → Rows cs cs'
    → All (Settled today) cs
    → All (Settled today) cs'
Rows-Settled today no_rows h = tt
Rows-Settled today (next_row {c} {c'} t rest) h = (settled, Rows-Settled today rest h.1)
  where
    settled : Settled today c'
    settled = elim (Bool-cases c.is_overdue) [
      | inl on ↦ let mark = t.marked on in ground (arith, mark)
      | inr off ↦
          let date : c'.next_payment_promise ≡ c.next_payment_promise =
            ap (λ r. r.next_payment_promise) t.row in
          let debt : c'.balance_cents ≡ c.balance_cents = ap (λ r. r.balance_cents) t.row in
          ground (arith, date, debt, off, h.0)
    ]

Settled-none :
    (today : ℕ) (cs : List Customer)
    → All (Settled today) cs
    → select_where (is_candidate today) cs ≡ []
Settled-none today [] h = refl
Settled-none today (c ∷ cs) h = rw h.0 (Settled-none today cs h.1)

none-selected :
    (today : ℕ) (cs : List Customer)
    → any_where (is_candidate today) cs ≡ false
    → select_where (is_candidate today) cs ≡ []
none-selected today [] h = refl
none-selected today (c ∷ cs) h =
    let miss : is_candidate today c ≡ false = ground arith in
    rw miss (none-selected today cs (ground arith))

-- Without candidates the job ends at once.
process_overdue_customers-idle :
    (to_int : String → Option ℕ) (req : Request) (db : Db)
    → select_where (is_candidate (midnight req.now)) db.customers ≡ []
    → process_overdue_customers to_int req db ≡ (0, db)
unfolding process_overdue_customers
process_overdue_customers-idle to_int req db h = ap (λ cs. process_candidates to_int req cs db) h

-- A second run of the job for overdue customers, at any later time of the same day or for an
-- earlier day, processes none and changes nothing, if identifiers of customers are distinct.
pub process_overdue_customers-again :
    (to_int : String → Option ℕ) (req req' : Request) (db : Db)
    → IsDistinct db.customers
    → midnight req'.now ≤ midnight req.now
    → process_overdue_customers to_int req' (process_overdue_customers to_int req db).1
      ≡ (0, (process_overdue_customers to_int req db).1)
process_overdue_customers-again to_int req req' db distinct day =
    elim (Bool-cases (any_where (is_candidate today) db.customers)) [
      | inl work ↦
          let runs = process_overdue_customers-runs to_int req db work in
          let rows =
            marked_rows-customers req cs db
            ∙ mark_ids-update_where (is_candidate today) db.customers distinct in
          let marks : All (Settled today') db1.customers =
            rw rows (update_where-Settled today today' db.customers day) in
          let kept = (blocks-Jobbed to_int req.now db1).rows in
          rw runs (
            process_overdue_customers-idle to_int req' _
              (Settled-none today' _ (Rows-Settled today' kept marks)))
      | inr idle ↦
          let same =
            process_overdue_customers-idle to_int req db (none-selected today db.customers idle) in
          let narrow =
            any_where-narrow (is_candidate today') (is_candidate today) db.customers
              (λ c e. earlier c e) idle in
          rw same (
            process_overdue_customers-idle to_int req' db
              (none-selected today' db.customers narrow))
    ]
  where
    today : ℕ
    today = midnight req.now

    today' : ℕ
    today' = midnight req'.now

    cs : List Customer
    cs = select_where (is_candidate today) db.customers

    db1 : Db
    db1 = marked_rows req cs db

    earlier : (c : Customer) → is_candidate today' c ≡ true → is_candidate today c ≡ true
    earlier c e =
        let late : is_before today' c.next_payment_promise ≡ true = ground arith in
        let later = is_before_mono today' today c.next_payment_promise day late in
        ground (arith, later)
