-- ===== src/Dashboard/Export/Restored.antt =====
-- What a spreadsheet finds in the table of the debtors: the rows, their order and their amounts.
use micro_erp_saas.Prelude.{ℕ, ◌≡◌, List, [], ◌∷◌, ◌++◌, map, select_where}
use mathlib.Core.List.{Perm}
use mathlib.Core.List.Perm
use micro_erp_saas.Prelude.Int.{ℤ, pos, negsuc, ◌≤ℤ◌}
use micro_erp_saas.Entities.{Customer}
use micro_erp_saas.Store.{Db}
use micro_erp_saas.Dashboard.{owes_tenant}
use micro_erp_saas.Dashboard.Top.{Ranked}
use micro_erp_saas.Dashboard.Export.{Text, codes, or_empty, state_text, promise_text}
use micro_erp_saas.Dashboard.Export.Reading.{titles}
use micro_erp_saas.Dashboard.Export.Amounts.{read_amount}

-- A row of the table, with its amounts in cents.
pub record Debtor : Type 0 where
  pub name : Text
  pub phone : Text
  pub dni : Text
  pub balance : ℕ
  pub limit : ℕ
  pub state : Text
  pub promise : Text

-- The row of a record of seven columns.
abbrev pub debtor_of_columns : List Text → List Debtor
debtor_of_columns (name ∷ phone ∷ dni ∷ balance ∷ limit ∷ state ∷ promise ∷ []) =
    record {
      name = name;
      phone = phone;
      dni = dni;
      balance = read_amount balance;
      limit = read_amount limit;
      state = state;
      promise = promise;
    }
    ∷ []
debtor_of_columns _ = []

abbrev pub debtors_of_records : List (List Text) → List Debtor
debtors_of_records [] = []
debtors_of_records (r ∷ rs) = debtor_of_columns r ++ debtors_of_records rs

abbrev pub cents : ℤ → ℕ
cents (pos n) = n
cents (negsuc n) = 0

module _ (iso_date : ℕ → Text) where
  abbrev pub debtor : Customer → Debtor
  debtor c = record {
    name = codes c.full_name;
    phone = or_empty c.phone;
    dni = or_empty c.dni;
    balance = cents c.balance_cents;
    limit = cents c.credit_limit_cents;
    state = state_text c.is_active;
    promise = promise_text iso_date c.next_payment_promise;
  }

  abbrev HasAmounts : Customer → Type 0
  HasAmounts c = (pos 0 ≤ℤ c.balance_cents) × (pos 0 ≤ℤ c.credit_limit_cents)

  -- What a reader of the table finds: below the titles the debtors of the tenant, by their balance.
  pub record Restored (tenant : ℕ) (db : Db) (table : List (List Text)) : Type 0 where
    pub rows : List Customer
    pub records : List (List Text)
    pub chosen : Perm (select_where (owes_tenant tenant) db.customers) rows
    pub ranked : Ranked rows
    pub below_titles : table ≡ titles ∷ records
    pub debtors : debtors_of_records records ≡ map debtor rows
