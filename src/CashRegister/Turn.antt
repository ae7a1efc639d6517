-- ===== src/CashRegister/Turn.antt =====
-- One turn at a time: every open turn is the one that its tenant's row names, so a tenant has at most
-- one. Opening and closing keep this, and the summary of the turn is what closing it will record.
use micro_erp_saas.Prelude.{
  ℕ, ◌≡◌, refl, sym, subst, ◌∙◌, true, false, Bool-cases, inl, inr, Option, some, none, List, [],
  ◌∷◌, ◌==◌, ==_refl, arith, All, Option-cases, find_where, find_where-test, update_where,
  update_where-All, All-map,
}
use micro_erp_saas.Entities.{CashRegisterLog, Tenant, is_open}
use micro_erp_saas.Store.{Db, Request}
use micro_erp_saas.Store.Commit.{run_tx_ind}
use micro_erp_saas.CashRegister.{
  OpenTurnDto, CloseTurnDto, open_body, open_turn, opened_shift, close_body, close_turn,
}
use micro_erp_saas.CashRegister.Closing.{close_body-Closing}

-- The turn that the row of a tenant names.
abbrev pub active_of : ℕ → List Tenant → Option ℕ
active_of tenant ts = elim (find_where (λ t. t.id == tenant) ts) [
  | none ↦ none
  | some t ↦ t.active_cash_shift_id
]

-- An open turn is the one that its tenant names.
abbrev pub IsNamed : List Tenant → CashRegisterLog → Type 0
IsNamed ts s = is_open s.status ≡ true → active_of s.tenant_id ts ≡ some s.id

abbrev pub HasOneTurn : Db → Type 0
HasOneTurn db = All (IsNamed db.tenants) db.shifts

-- The tenant's row with another turn, or none.
abbrev set_active : Tenant → Option ℕ → List Tenant → List Tenant
set_active row active =
    update_where (λ t. t.id == row.id) (λ _. record row { active_cash_shift_id = active })

active_of-set_self :
    (row : Tenant) (active : Option ℕ) (ts : List Tenant)
    → find_where (λ t. t.id == row.id) ts ≡ some row
    → active_of row.id (set_active row active ts) ≡ active
active_of-set_self row active [] found = absurd (ground arith)
active_of-set_self row active (t ∷ ts) found = elim (Bool-cases (t.id == row.id)) [
  | inl hit ↦ ground (arith, hit, ==_refl row.id)
  | inr miss ↦ ground (arith, miss, active_of-set_self row active ts)
]

active_of-set_ne :
    (row : Tenant) (active : Option ℕ) (tenant : ℕ) (ts : List Tenant)
    → (row.id == tenant) ≡ false
    → active_of tenant (set_active row active ts) ≡ active_of tenant ts
active_of-set_ne row active tenant [] ne = refl
active_of-set_ne row active tenant (t ∷ ts) ne =
    ground (arith, active_of-set_ne row active tenant ts ne)

module _ (req : Request) (tenant user : ℕ) (db : Db) (one : HasOneTurn db) where
  -- `openTurn` keeps it true that every open turn is the one that its tenant's row names, so that
  -- a tenant has at most one.
  pub open_turn-HasOneTurn : (dto : OpenTurnDto) → HasOneTurn (open_turn req tenant user dto db).1
  unfolding open_turn
  open_turn-HasOneTurn dto =
      run_tx_ind HasOneTurn (open_body req tenant user dto) db one λ s db' ran.
        elim (Option-cases (find_where (λ t. t.id == tenant) db.tenants)) [
          | inl absent ↦ absurd (ground arith)
          | inr (row, locked) ↦
              let own = find_where-test (λ t. t.id == tenant) db.tenants row locked in
              let same : row.id ≡ tenant = ground arith in
              let idle : row.active_cash_shift_id ≡ none = ground arith in
              let tenants : db'.tenants ≡ set_active row (some (req.uuid 0)) db.tenants =
                ground arith in
              let shifts : db'.shifts ≡ opened_shift req tenant user dto ∷ db.shifts =
                ground arith in
              let at : find_where (λ t. t.id == row.id) db.tenants ≡ some row =
                subst (λ x. find_where (λ t. t.id == x) db.tenants ≡ some row) (sym same) locked in
              rw (tenants, shifts)
                (
                  λ _.
                      subst
                        (λ x.
                          active_of x (set_active row (some (req.uuid 0)) db.tenants)
                          ≡ some (req.uuid 0))
                        same (active_of-set_self row (some (req.uuid 0)) db.tenants at),
                  All-map (IsNamed db.tenants)
                      (IsNamed (set_active row (some (req.uuid 0)) db.tenants)) db.shifts
                      (λ x named running. elim (Bool-cases (row.id == x.tenant_id)) [
                        | inl mine ↦
                            let before : active_of x.tenant_id db.tenants ≡ none = ground arith in
                            absurd (ground (arith, named running))
                        | inr other ↦
                            active_of-set_ne row (some (req.uuid 0)) x.tenant_id db.tenants other
                            ∙ named running
                      ])
                      one,
                )
        ]

  -- `closeTurn` keeps it true that every open turn is the one that its tenant's row names.
  pub close_turn-HasOneTurn :
      (dto : CloseTurnDto) → HasOneTurn (close_turn req tenant user dto db).1
  unfolding close_turn
  close_turn-HasOneTurn dto =
      run_tx_ind HasOneTurn (close_body req tenant user dto) db one λ closed db' ran.
        let c = close_body-Closing req tenant user dto db closed db' ran in
        let own = find_where-test (λ t. t.id == tenant) db.tenants c.row c.locked in
        let same : c.row.id ≡ tenant = ground arith in
        let id : closed.id ≡ c.shift.id = ground (arith, c.figures) in
        let done : is_open closed.status ≡ false = ground (arith, c.figures) in
        let held : active_of tenant db.tenants ≡ some c.shift.id =
          ground (arith, c.locked, c.active) in
        rw (c.tenants, c.saved)
          (update_where-All (λ s. s.id == closed.id) (IsNamed db.tenants)
            (IsNamed (set_active c.row none db.tenants)) (λ _. closed) db.shifts
            (λ s hit named running. absurd (ground (arith, done, running)))
            (λ s miss named running. elim (Bool-cases (c.row.id == s.tenant_id)) [
              | inl mine ↦
                  let before : active_of s.tenant_id db.tenants ≡ some c.shift.id =
                    subst (λ x. active_of x db.tenants ≡ some c.shift.id)
                      (ground (arith, same, mine)) held in
                  absurd (ground (arith, named running, before, miss, id))
              | inr other ↦ active_of-set_ne c.row none s.tenant_id db.tenants other ∙ named running
            ])
            one)
