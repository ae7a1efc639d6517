-- ===== src/CashRegister/Summary.antt =====
-- The summary of the running turn against what closing it records, and the turn as a lock on opening.
use micro_erp_saas.Prelude.{
  ℕ, ◌≡◌, Bool, true, ◌&&◌, inl, inr, some, ◌==◌, arith, Option-cases, find_where, find_where-test,
  find_where-All, find_where-narrow, find_where-none,
}
use micro_erp_saas.Entities.{CashRegisterLog, is_open}
use micro_erp_saas.Store.{Db, Request, ok, err, turn_already_open}
use micro_erp_saas.Store.Commit.{run_tx_ok_ind}
use micro_erp_saas.CashRegister.{
  OpenTurnDto, CloseTurnDto, CashSummary, open_turn, close_body, close_turn, is_active_shift,
  get_active_summary,
}
use micro_erp_saas.CashRegister.Closing.{Closing, close_body-Closing}
use micro_erp_saas.CashRegister.Turn.{active_of, IsNamed, HasOneTurn}

-- The open turn of a tenant, as the summary looks it up.
abbrev pub is_running : ℕ → CashRegisterLog → Bool
is_running tenant s = s.tenant_id == tenant && is_open s.status

-- What the tenant's row names is the open turn that is found.
running_named :
    (tenant : ℕ) (db : Db) (s : CashRegisterLog)
    → HasOneTurn db
    → find_where (is_running tenant) db.shifts ≡ some s
    → active_of tenant db.tenants ≡ some s.id
running_named tenant db s one found =
    let test = find_where-test (is_running tenant) db.shifts s found in
    let named = find_where-All (is_running tenant) (IsNamed db.tenants) db.shifts s one found in
    ground (arith, test, named (ground arith))

-- If every open turn is the one that its tenant names and the tenant has an open turn, `openTurn`
-- with a granted lock is refused and leaves the database as it is.
pub open_turn_blocked :
    (req : Request) (tenant user : ℕ) (dto : OpenTurnDto) (db : Db) (s : CashRegisterLog)
    → HasOneTurn db
    → find_where (is_running tenant) db.shifts ≡ some s
    → req.lock_granted ≡ true
    → open_turn req tenant user dto db ≡ (err turn_already_open, db)
unfolding open_turn
open_turn_blocked req tenant user dto db s one found granted =
    let named = running_named tenant db s one found in
    elim (Option-cases (find_where (λ t. t.id == tenant) db.tenants)) [
      | inl absent ↦ absurd (ground arith)
      | inr (row, locked) ↦ ground arith
    ]

Closing-summary :
    (req : Request) (tenant : ℕ) (dto : CloseTurnDto) (db db' : Db) (closed : CashRegisterLog)
    (summary : CashSummary)
    → HasOneTurn db
    → Closing req tenant dto closed db db'
    → get_active_summary tenant db ≡ some summary
    → (summary.shift_id ≡ some closed.id)
      × (closed.expected_cash_cents ≡ some summary.expected_cash_cents)
unfolding get_active_summary
Closing-summary req tenant dto db db' closed summary one c h =
    elim (Option-cases (find_where (is_running tenant) db.shifts)) [
      | inl idle ↦
          let nothing =
            find_where-none (is_running tenant) (is_active_shift tenant c.shift.id) db.shifts
              (λ y hit. ground arith) idle in
          absurd (ground (arith, nothing, c.found))
      | inr (s, found) ↦
          let named = running_named tenant db s one found in
          let held : active_of tenant db.tenants ≡ some c.shift.id =
            ground (arith, c.locked, c.active) in
          let test = find_where-test (is_running tenant) db.shifts s found in
          let narrow =
            find_where-narrow (is_running tenant) (is_active_shift tenant c.shift.id) db.shifts s
              (λ y hit. ground arith) found (ground (arith, named, held, test)) in
          let same : s ≡ c.shift = cc (narrow, c.found) in
          (ground (arith, c.figures, same), ground (arith, c.figures, same))
    ]

-- If every open turn is the one that its tenant names, the summary of the running turn names the
-- turn that `closeTurn` closes, and the expected cash of the summary is what closing records.
pub close_turn-summary :
    (req : Request) (tenant user : ℕ) (dto : CloseTurnDto) (db : Db) (closed : CashRegisterLog)
    (summary : CashSummary)
    → HasOneTurn db
    → get_active_summary tenant db ≡ some summary
    → (close_turn req tenant user dto db).0 ≡ ok closed
    → (summary.shift_id ≡ some closed.id)
      × (closed.expected_cash_cents ≡ some summary.expected_cash_cents)
unfolding close_turn
close_turn-summary req tenant user dto db closed summary one looked h =
    run_tx_ok_ind
      (λ _.
        (summary.shift_id ≡ some closed.id)
        × (closed.expected_cash_cents ≡ some summary.expected_cash_cents))
      (close_body req tenant user dto) db closed
      (λ db' ran.
        Closing-summary req tenant dto db db' closed summary one
          (close_body-Closing req tenant user dto db closed db' ran) looked)
      h
