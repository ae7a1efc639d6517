-- ===== src/CashRegister.antt =====
-- backend/src/modules/cash-register/cash-register.service.ts: turns of the till. A tenant's row holds
-- the turn that is open; closing one compares the counted cash with the payments of the turn and
-- freezes those payments.
pub mod Closing
pub mod Turn
pub mod Summary
pub mod Books
use micro_erp_saas.Prelude.{
  ℕ, ◌+◌, ◌*◌, String, Bool, true, false, not, ◌&&◌, ◌||◌, Option, none, some, List, [], ◌∷◌, ltb,
  ◌==◌, if◌then◌else◌, or_else, is_some, length, find_where, select_where, update_where, any_where,
}
use micro_erp_saas.Prelude.Int.{ℤ, pos, ◌+ℤ◌, ◌-ℤ◌, eqb_ℤ}
use micro_erp_saas.Entities.{
  PaymentMethod, cash, transfer, CashRegisterStatus, open_shift, closed_ok, closed_with_discrepancy,
  Transaction, payment, CashRegisterLog, Tenant, is_type, is_method, is_open,
}
use micro_erp_saas.Store.{
  has_tenant, has_user, Db, Request, Result, err, Tx, lock_tenant, save_tenant, ◌>>=◌, ◌>>◌, pure,
  gets, or_throw, throw_if, throw_where, modify, run_tx, fits_int4, lock_timeout, query_failed,
  tenant_not_found, shift_not_found, turn_already_open, no_open_turn, note_required,
}

pub record OpenTurnDto : Type 0 where
  pub opening_cash_cents : Option ℤ

pub record CloseTurnDto : Type 0 where
  pub actual_cash_cents : ℤ
  pub note : Option String

pub record CashSummary : Type 0 where
  pub shift_id : Option ℕ
  pub expected_cash_cents : ℤ
  pub opening_cash_cents : ℤ
  pub opened_at : Option ℕ
  pub payment_count : ℕ
  pub transfer_total_cents : ℤ

abbrev pub fits_nullable : Option ℤ → Bool
fits_nullable none = true
fits_nullable (some a) = fits_int4 a

-- The `int` columns of a turn are in range.
abbrev pub fits_shift : CashRegisterLog → Bool
fits_shift s =
    fits_int4 s.opening_cash_cents
    && (fits_nullable s.expected_cash_cents
        && (fits_nullable s.actual_cash_cents && fits_nullable s.discrepancy_cents))

abbrev pub insert_shift : CashRegisterLog → Tx Unit
insert_shift s = do
  throw_where (λ db. not (has_tenant s.tenant_id db && has_user s.user_id db)) query_failed
  throw_where (λ db. any_where (λ r. r.id == s.id) db.shifts) query_failed
  throw_if (not (fits_shift s)) query_failed
  modify (λ db. record db { shifts = s ∷ db.shifts })

abbrev pub put_shift : CashRegisterLog → List CashRegisterLog → List CashRegisterLog
put_shift s = update_where (λ r. r.id == s.id) (λ _. s)

abbrev pub save_shift : CashRegisterLog → Tx Unit
save_shift s = do
  throw_if (not (fits_shift s)) query_failed
  modify (λ db. record db { shifts = put_shift s db.shifts })

-- WHERE of the turn's payments: of the tenant, since the opening, neither reversed nor frozen.
abbrev pub is_turn_payment : ℕ → ℕ → Transaction → Bool
is_turn_payment tenant opened_at t =
    t.tenant_id == tenant
    && (is_type t.type payment
        && (ltb opened_at t.created_at
            && (not t.is_reversed && not (is_some t.cash_register_log_id))))

-- `payment_method = 'CASH' OR payment_method IS NULL`
abbrev pub is_cash : Transaction → Bool
is_cash t = elim t.payment_method [ none ↦ true | some m ↦ is_method m cash ]

abbrev pub is_transfer : Transaction → Bool
is_transfer t = elim t.payment_method [ none ↦ false | some m ↦ is_method m transfer ]

-- COALESCE(SUM(amount_cents), 0)
abbrev pub sum_amounts : List Transaction → ℤ
sum_amounts [] = pos 0
sum_amounts (t ∷ ts) = t.amount_cents +ℤ sum_amounts ts

abbrev pub cash_payments : ℕ → ℕ → List Transaction → List Transaction
cash_payments tenant opened_at = select_where (λ t. is_turn_payment tenant opened_at t && is_cash t)

-- … ::int, which fails out of range
abbrev pub sum_cash : ℕ → ℕ → Tx ℤ
sum_cash tenant opened_at = do
  throw_where (λ db. not (fits_int4 (sum_amounts (cash_payments tenant opened_at db.transactions))))
      query_failed
  gets (λ db. sum_amounts (cash_payments tenant opened_at db.transactions))

-- A note that is missing or empty does not count.
abbrev pub has_note : Option String → Bool
has_note none = false
has_note (some String.[]) = false
has_note (some _) = true

-- The turn with the figures of the count.
abbrev pub closed_shift : Request → CloseTurnDto → CashRegisterLog → ℤ → CashRegisterLog
closed_shift req dto shift cash_collected =
    let total_expected = shift.opening_cash_cents +ℤ cash_collected in
    let discrepancy = dto.actual_cash_cents -ℤ total_expected in
    record shift {
      closed_at = some req.now;
      expected_cash_cents = some total_expected;
      actual_cash_cents = some dto.actual_cash_cents;
      discrepancy_cents = some discrepancy;
      note = dto.note;
      status = if eqb_ℤ discrepancy (pos 0) then closed_ok else closed_with_discrepancy;
    }

-- UPDATE … SET cash_register_log_id, of the payments of the turn in cash or not
abbrev pub freeze : ℕ → CashRegisterLog → List Transaction → List Transaction
freeze tenant shift =
    update_where (is_turn_payment tenant shift.opened_at)
      (λ t. record t { cash_register_log_id = some shift.id })

-- The turn that the tenant's row names, of the tenant and open.
abbrev pub is_active_shift : ℕ → ℕ → CashRegisterLog → Bool
is_active_shift tenant active s = s.id == active && (s.tenant_id == tenant && is_open s.status)

module _ (req : Request) (tenant user : ℕ) where
  abbrev pub opened_shift : OpenTurnDto → CashRegisterLog
  opened_shift dto = record {
    id = req.uuid 0;
    tenant_id = tenant;
    user_id = user;
    opened_at = req.now;
    closed_at = none;
    opening_cash_cents = or_else dto.opening_cash_cents (pos 0);
    expected_cash_cents = none;
    actual_cash_cents = none;
    discrepancy_cents = none;
    note = none;
    status = open_shift;
  }

  abbrev pub open_body : OpenTurnDto → Tx CashRegisterLog
  open_body dto = do
    row ← lock_tenant req tenant
    throw_if (is_some row.active_cash_shift_id) turn_already_open
    insert_shift (opened_shift dto)
    save_tenant (record row { active_cash_shift_id = some (req.uuid 0) })
    pure (opened_shift dto)

  unfoldable pub open_turn : OpenTurnDto → Db → Result CashRegisterLog × Db
  open_turn dto = run_tx (open_body dto)

  abbrev pub close_body : CloseTurnDto → Tx CashRegisterLog
  close_body dto = do
    row ← lock_tenant req tenant
    active ← or_throw row.active_cash_shift_id no_open_turn
    shift ←
        or_throw (← gets (λ db. find_where (is_active_shift tenant active) db.shifts))
          shift_not_found
    cash_collected ← sum_cash tenant shift.opened_at
    let closed = closed_shift req dto shift cash_collected
    let discrepancy = dto.actual_cash_cents -ℤ (shift.opening_cash_cents +ℤ cash_collected)
    throw_if (not (eqb_ℤ discrepancy (pos 0)) && not (has_note dto.note)) note_required
    save_shift closed
    modify (λ db. record db { transactions = freeze tenant shift db.transactions })
    save_tenant (record row { active_cash_shift_id = none })
    pure closed

  unfoldable pub close_turn : CloseTurnDto → Db → Result CashRegisterLog × Db
  close_turn dto = run_tx (close_body dto)

-- `getActiveSummary` looks the turn up by its status; `none` is the failed cast of a sum.
unfoldable pub get_active_summary : ℕ → Db → Option CashSummary
get_active_summary tenant db =
    elim (find_where (λ s. s.tenant_id == tenant && is_open s.status) db.shifts) [
      | none ↦ some (record {
        shift_id = none;
        expected_cash_cents = pos 0;
        opening_cash_cents = pos 0;
        opened_at = none;
        payment_count = 0;
        transfer_total_cents = pos 0;
      })
      | some shift ↦
          let paid = cash_payments tenant shift.opened_at db.transactions in
          let transfers =
            select_where (λ t. is_turn_payment tenant shift.opened_at t && is_transfer t)
              db.transactions in
          if fits_int4 (sum_amounts paid) && fits_int4 (sum_amounts transfers)
          then some (record {
            shift_id = some shift.id;
            expected_cash_cents = shift.opening_cash_cents +ℤ sum_amounts paid;
            opening_cash_cents = shift.opening_cash_cents;
            opened_at = some shift.opened_at;
            payment_count = length paid;
            transfer_total_cents = sum_amounts transfers;
          })
          else none
    ]
