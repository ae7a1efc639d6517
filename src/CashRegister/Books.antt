-- ===== src/CashRegister/Books.antt =====
-- The till and the books: a turn that opens or closes changes no balance and no sum.
use micro_erp_saas.Prelude.{ℕ, refl, sym, ◌∙◌, arith, All-map}
use micro_erp_saas.Store.{Db, Request}
use micro_erp_saas.Store.Commit.{run_tx_ind}
use micro_erp_saas.Ledger.Account.{Agrees, IsSound, IsSound-same}
use micro_erp_saas.Ledger.Remark.{ledger-update, update-IsKeyed}
use micro_erp_saas.CashRegister.{
  OpenTurnDto, CloseTurnDto, is_turn_payment, open_body, open_turn, close_body, close_turn,
}
use micro_erp_saas.CashRegister.Closing.{close_body-Closing}

module _ (req : Request) (tenant user : ℕ) (db : Db) (s : IsSound db) where
  pub open_turn-IsSound : (dto : OpenTurnDto) → IsSound (open_turn req tenant user dto db).1
  unfolding open_turn
  open_turn-IsSound dto =
      run_tx_ind IsSound (open_body req tenant user dto) db s
        λ shift db' ran. IsSound-same db db' (ground arith) (ground arith) s

  -- `closeTurn`, which marks the payments of the turn, keeps the books sound.
  pub close_turn-IsSound : (dto : CloseTurnDto) → IsSound (close_turn req tenant user dto db).1
  unfolding close_turn
  close_turn-IsSound dto =
      run_tx_ind IsSound (close_body req tenant user dto) db s λ closed db' ran.
        let c = close_body-Closing req tenant user dto db closed db' ran in
        let test = is_turn_payment tenant c.shift.opened_at in
        record {
          reconciled =
              rw (c.customers, c.frozen)
                (All-map (Agrees db.transactions) _ db.customers
                  (λ x a.
                    a ∙ sym (ledger-update test _ x.tenant_id x.id db.transactions (λ t. refl)))
                  s.reconciled);
          solvent = rw c.customers s.solvent;
          keyed =
              rw c.frozen
                (update-IsKeyed test _ db.transactions (λ x t. refl) (λ x t. refl) s.keyed);
          distinct = rw c.customers s.distinct;
        }
