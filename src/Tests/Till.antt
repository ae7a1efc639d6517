-- ===== src/Tests/Till.antt =====
-- Turns of the till in the shop of the tests.
use micro_erp_saas.Prelude.{◌≡◌, refl, none, some}
use micro_erp_saas.Prelude.Int.{pos, ◌+ℤ◌, ◌-ℤ◌}
use micro_erp_saas.Entities.{closed_ok, CashRegisterLog}
use micro_erp_saas.Store.{ok, err, turn_already_open}
use micro_erp_saas.CashRegister.{
  OpenTurnDto, CloseTurnDto, CashSummary, open_turn, close_turn, get_active_summary,
}
use micro_erp_saas.CashRegister.Closing.{IsBalanced, close_turn-IsBalanced}
use micro_erp_saas.CashRegister.Summary.{open_turn_blocked, close_turn-summary}
use micro_erp_saas.Tests.Shop.{request, turn, shop, shop-HasOneTurn}

abbrev opening : OpenTurnDto
opening = record { opening_cash_cents = some (pos 1000) }

-- The fund of 1000 and the payment of 1000.
abbrev closing : CloseTurnDto
closing = record { actual_cash_cents = pos 2000; note = none }

abbrev closed : CashRegisterLog
closed = record turn {
  closed_at = some 200;
  expected_cash_cents = some (pos 2000);
  actual_cash_cents = some (pos 2000);
  discrepancy_cents = some (pos 0);
  status = closed_ok;
}

closing_run : (close_turn (request 200 900) 1 7 closing shop).0 ≡ ok closed
unfolding close_turn ◌+ℤ◌ ◌-ℤ◌
closing_run = refl

abbrev summary : CashSummary
summary = record {
  shift_id = some 300;
  expected_cash_cents = pos 2000;
  opening_cash_cents = pos 1000;
  opened_at = some 90;
  payment_count = 1;
  transfer_total_cents = pos 0;
}

summary_run : get_active_summary 1 shop ≡ some summary
unfolding get_active_summary ◌+ℤ◌
summary_run = refl

close_turn-IsBalanced_example :
    IsBalanced 1 closing closed (close_turn (request 200 900) 1 7 closing shop).1
close_turn-IsBalanced_example =
    close_turn-IsBalanced (request 200 900) 1 7 closing shop closed refl closing_run

close_turn-summary_example :
    (summary.shift_id ≡ some closed.id)
    × (closed.expected_cash_cents ≡ some summary.expected_cash_cents)
close_turn-summary_example =
    close_turn-summary (request 200 900) 1 7 closing shop closed summary shop-HasOneTurn summary_run
      closing_run

open_turn_blocked_example :
    open_turn (request 200 900) 1 7 opening shop ≡ (err turn_already_open, shop)
open_turn_blocked_example =
    open_turn_blocked (request 200 900) 1 7 opening shop turn shop-HasOneTurn refl refl
