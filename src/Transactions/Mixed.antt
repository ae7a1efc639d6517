-- ===== src/Transactions/Mixed.antt =====
-- `registerMixedPayment`: a cash row and a transfer row under one group.
pub mod Split
use micro_erp_saas.Prelude.{
  ℕ, String, Bool, false, none, some, List, [], ◌∷◌, if◌then◌else◌, or_else, find_where,
  select_where, same_id,
}
use micro_erp_saas.Prelude.Int.{ℤ, pos, ◌+ℤ◌, ◌-ℤ◌, ltb_ℤ, leb_ℤ, eqb_ℤ, min_ℤ}
use micro_erp_saas.Entities.{PaymentMethod, cash, transfer, Transaction, payment, is_method}
use micro_erp_saas.Number.{Number}
use micro_erp_saas.Store.{
  Db, Request, Result, err, Tx, ◌>>=◌, ◌>>◌, pure, gets, throw_if, run_tx, sum_mismatch,
  no_pending_debt, lock_customer, save_customer, insert_transaction,
}
use micro_erp_saas.Transactions.Dto.{CreateMixedPaymentDto}
use micro_erp_saas.Transactions.Entry.{new_transaction, unless_known}

abbrev pub paid_by : PaymentMethod → Transaction → Bool
paid_by m t = elim t.payment_method [ some p ↦ is_method p m | none ↦ false ]

-- The rows of the group of a stored transaction, or the transaction alone if it has none.
unfoldable pub group_of : Transaction → Db → List Transaction
group_of existing db = elim existing.reference_group_id [
  | some g ↦ select_where (λ t. same_id t.reference_group_id (some g)) db.transactions
  | none ↦ existing ∷ []
]

-- The answer to a repeated request: the two rows of the group.
unfoldable pub mixed_receipt : Transaction → Db → Transaction × Transaction
mixed_receipt existing db = (
  or_else (find_where (paid_by cash) (group_of existing db)) existing,
  or_else (find_where (paid_by transfer) (group_of existing db)) existing,
)

module _ (n : Number) where
  open n use {from_ℤ, mul, div, round}

  -- `Math.round(amount * (totalEffective / total))`
  unfoldable pub prorate : ℤ → ℤ → ℤ → ℤ
  prorate amount total_effective total =
      round (mul (from_ℤ amount) (div (from_ℤ total_effective) (from_ℤ total)))

  -- The cash and the transfer part of what is taken off the balance.
  unfoldable pub split_payment : CreateMixedPaymentDto → ℤ → ℤ × ℤ
  split_payment dto balance =
      let total_effective = min_ℤ dto.total_amount_cents balance in
      let cash_effective = prorate dto.cash_amount_cents total_effective dto.total_amount_cents in
      if ltb_ℤ total_effective dto.total_amount_cents
      then (cash_effective, total_effective -ℤ cash_effective)
      else (dto.cash_amount_cents, dto.transfer_amount_cents)

  module _ (req : Request) (tenant user : ℕ) where
    -- The row of one half of the payment: its UUID, its amount, the default text and the key.
    abbrev pub mixed_entry :
        CreateMixedPaymentDto → ℕ → ℤ → String → ℕ → PaymentMethod → Transaction
    mixed_entry dto draw amount text key method =
        let entry =
          new_transaction req draw tenant user dto.customer_id payment amount
            (some (or_else dto.description text)) key in
        record entry { payment_method = some method; reference_group_id = some (req.uuid 0) }

    unfoldable pub new_mixed_payment : CreateMixedPaymentDto → Tx (Transaction × Transaction)
    new_mixed_payment dto = do
      customer ← lock_customer req tenant dto.customer_id
      throw_if (leb_ℤ customer.balance_cents (pos 0)) no_pending_debt
      let parts = split_payment dto customer.balance_cents
      let cash_tx = mixed_entry dto 1 parts.0 "Pago mixto — efectivo" dto.idempotency_key cash
      insert_transaction cash_tx
      let transfer_tx = mixed_entry dto 3 parts.1 "Pago mixto — transferencia" (req.uuid 2) transfer
      insert_transaction transfer_tx
      let balance = customer.balance_cents -ℤ (parts.0 +ℤ parts.1)
      save_customer
          (record customer { balance_cents = if ltb_ℤ balance (pos 0) then pos 0 else balance })
      pure (cash_tx, transfer_tx)

    unfoldable pub register_mixed_payment :
        CreateMixedPaymentDto → Db → Result (Transaction × Transaction) × Db
    register_mixed_payment dto db =
        if eqb_ℤ (dto.cash_amount_cents +ℤ dto.transfer_amount_cents) dto.total_amount_cents
        then run_tx
            (unless_known tenant dto.idempotency_key (λ t. gets (mixed_receipt t))
              (new_mixed_payment dto))
            db
        else (err sum_mismatch, db)
