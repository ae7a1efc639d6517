-- ===== src/CashRegister/Closing.antt =====
-- What a turn that closes does: the figures it records are those of the payments it freezes.
use micro_erp_saas.Prelude.{
  ℕ, ◌≡◌, ◌≢◌, refl, ap, Bool, true, false, ◌&&◌, ◌||◌, Bool-cases, inl, inr, some, none, List, [],
  ◌∷◌, ◌==◌, same_id, ==_refl, ◌↔◌, arith, Option-cases, find_where, find_where-test, select_where,
  update_where, any_where,
}
use micro_erp_saas.Prelude.Int.{ℤ, pos, ◌+ℤ◌, ◌-ℤ◌, eqb_ℤ, -ℤ_parts, eq_of_parts}
use micro_erp_saas.Entities.{Transaction, CashRegisterLog, Tenant, closed_ok}
use micro_erp_saas.Store.{Db, Request, ok}
use micro_erp_saas.Store.Commit.{run_tx_ok_ind}
use micro_erp_saas.CashRegister.{
  CloseTurnDto, is_active_shift, is_turn_payment, is_cash, sum_amounts, cash_payments, has_note,
  closed_shift, freeze, close_body, close_turn, put_shift,
}

pub record Closing (req : Request) (tenant : ℕ) (dto : CloseTurnDto) (closed : CashRegisterLog)
    (db db' : Db) : Type 0 where
  pub row : Tenant
  pub shift : CashRegisterLog
  pub locked : find_where (λ t. t.id == tenant) db.tenants ≡ some row
  pub active : row.active_cash_shift_id ≡ some shift.id
  pub found : find_where (is_active_shift tenant shift.id) db.shifts ≡ some shift
  pub figures :
      closed
      ≡ closed_shift req dto shift
          (sum_amounts (cash_payments tenant shift.opened_at db.transactions))
  pub noted :
      (eqb_ℤ
          (dto.actual_cash_cents
            -ℤ (shift.opening_cash_cents
                +ℤ sum_amounts (cash_payments tenant shift.opened_at db.transactions)))
          (pos 0)
        || has_note dto.note)
      ≡ true
  pub frozen : db'.transactions ≡ freeze tenant shift db.transactions
  pub saved : db'.shifts ≡ put_shift closed db.shifts
  pub customers : db'.customers ≡ db.customers
  pub tenants :
      db'.tenants
      ≡ update_where
          (λ t. t.id == row.id)
          (λ _. record row { active_cash_shift_id = none })
          db.tenants

module _ (req : Request) (tenant user : ℕ) (dto : CloseTurnDto) (db : Db) where
  pub close_body-Closing :
      (closed : CashRegisterLog) (db' : Db)
      → close_body req tenant user dto db ≡ ok (closed, db')
      → Closing req tenant dto closed db db'
  close_body-Closing closed db' h =
      elim (Option-cases (find_where (λ t. t.id == tenant) db.tenants)) [
        | inl absent ↦ absurd (ground arith)
        | inr (row, locked) ↦ elim (Option-cases row.active_cash_shift_id) [
          | inl idle ↦ absurd (ground arith)
          | inr (active, busy) ↦
              elim (Option-cases (find_where (is_active_shift tenant active) db.shifts)) [
                | inl gone ↦ absurd (ground arith)
                | inr (shift, found) ↦
                    let test =
                      find_where-test (is_active_shift tenant active) db.shifts shift found in
                    record {
                      row = row;
                      shift = shift;
                      locked = locked;
                      active = ground arith;
                      found = ground arith;
                      figures = ground arith;
                      noted = ground arith;
                      frozen = ground arith;
                      saved = ground arith;
                      customers = ground arith;
                      tenants = ground arith;
                    }
              ]
        ]
      ]

-- The rows that a turn has frozen.
abbrev pub is_frozen_by : ℕ → Transaction → Bool
is_frozen_by i t = same_id t.cash_register_log_id (some i)

module _ (tenant : ℕ) (shift : CashRegisterLog) where
  freeze-sum :
      (ts : List Transaction)
      → any_where (is_frozen_by shift.id) ts ≡ false
      → sum_amounts
          (select_where (λ t. is_frozen_by shift.id t && is_cash t) (freeze tenant shift ts))
        ≡ sum_amounts (cash_payments tenant shift.opened_at ts)
  freeze-sum [] h = refl
  freeze-sum (t ∷ ts) h = elim (Bool-cases (is_turn_payment tenant shift.opened_at t)) [
    | inl paid ↦ rw paid (ground (arith, ==_refl shift.id, freeze-sum ts))
    | inr other ↦ rw other (ground (arith, freeze-sum ts))
  ]

  freeze_complete :
      (ts : List Transaction)
      → any_where (is_turn_payment tenant shift.opened_at) (freeze tenant shift ts) ≡ false
  freeze_complete [] = refl
  freeze_complete (t ∷ ts) = elim (Bool-cases (is_turn_payment tenant shift.opened_at t)) [
    | inl paid ↦ rw paid (ground (arith, freeze_complete ts))
    | inr other ↦ rw (other, other) (ground (arith, freeze_complete ts))
  ]

-- The cash that should be in the till: the opening fund and the cash payments frozen by the turn.
abbrev pub till_cash : CashRegisterLog → Db → ℤ
till_cash closed db =
    closed.opening_cash_cents
    +ℤ sum_amounts (select_where (λ t. is_frozen_by closed.id t && is_cash t) db.transactions)

-- The record of a closed turn agrees with the payments in the database after it.
pub record IsBalanced (tenant : ℕ) (dto : CloseTurnDto) (closed : CashRegisterLog) (db' : Db)
    : Type 0 where
  pub expected : closed.expected_cash_cents ≡ some (till_cash closed db')
  pub discrepancy : closed.discrepancy_cents ≡ some (dto.actual_cash_cents -ℤ till_cash closed db')
  pub status : (closed.status ≡ closed_ok) ↔ (dto.actual_cash_cents ≡ till_cash closed db')
  pub noted : dto.actual_cash_cents ≢ till_cash closed db' → has_note dto.note ≡ true
  pub complete : any_where (is_turn_payment tenant closed.opened_at) db'.transactions ≡ false

difference_zero : (a b : ℤ) → (eqb_ℤ (a -ℤ b) (pos 0) ≡ true) ↔ (a ≡ b)
difference_zero a b = (
  λ h. eq_of_parts a b (ground (arith, -ℤ_parts a b, h)),
  λ e. rw e (ground (arith, -ℤ_parts b b)),
)

module _ (req : Request) (tenant user : ℕ) (dto : CloseTurnDto) (db : Db)
    (closed : CashRegisterLog) where
  Closing-IsBalanced :
      (db' : Db)
      → any_where (is_frozen_by closed.id) db.transactions ≡ false
      → Closing req tenant dto closed db db'
      → IsBalanced tenant dto closed db'
  Closing-IsBalanced db' unused c =
      let id : closed.id ≡ c.shift.id = ground (arith, c.figures) in
      let opened : closed.opened_at ≡ c.shift.opened_at = ground (arith, c.figures) in
      let fund : closed.opening_cash_cents ≡ c.shift.opening_cash_cents =
        ground (arith, c.figures) in
      let frozen = freeze-sum tenant c.shift db.transactions (rw id at unused) in
      let cash = sum_amounts (cash_payments tenant c.shift.opened_at db.transactions) in
      let total : till_cash closed db' ≡ c.shift.opening_cash_cents +ℤ cash =
        rw (c.frozen, id, fund) (ap (λ z. c.shift.opening_cash_cents +ℤ z) frozen) in
      let zero_iff = difference_zero dto.actual_cash_cents (c.shift.opening_cash_cents +ℤ cash) in
      record {
        expected = rw total (ground (arith, c.figures));
        discrepancy = rw total (ground (arith, c.figures));
        status = rw total (
          λ ok_status. zero_iff.0 (ground (arith, c.figures, ok_status)),
          λ e. ground (arith, c.figures, zero_iff.1 e),
        );
        noted = rw total (λ ne. ground (arith, c.noted, zero_iff, ne));
        complete = rw (c.frozen, opened) (freeze_complete tenant c.shift db.transactions);
      }

  -- When `closeTurn` succeeds and no transaction was marked with the turn before, the record of
  -- the turn agrees with the database after it: the expected cash is the opening fund and the cash
  -- payments that are marked with the turn, the discrepancy is the counted cash less that, the
  -- status is CLOSED_OK exactly if there is none, a note is given if there is one, and no payment
  -- of the turn is left unmarked.
  pub close_turn-IsBalanced :
      any_where (is_frozen_by closed.id) db.transactions ≡ false
      → (close_turn req tenant user dto db).0 ≡ ok closed
      → IsBalanced tenant dto closed (close_turn req tenant user dto db).1
  unfolding close_turn
  close_turn-IsBalanced unused h =
      run_tx_ok_ind (IsBalanced tenant dto closed) (close_body req tenant user dto) db closed
        (λ db' ran.
          Closing-IsBalanced db' unused (close_body-Closing req tenant user dto db closed db' ran))
        h
