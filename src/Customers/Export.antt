-- ===== src/Customers/Export.antt =====
-- `exportCsv`: the list of a tenant's customers as CSV, with quotation marks around the name and the
-- address and no escape. The texts of an amount and of a date are parameters.
use micro_erp_saas.Prelude.{
  ℕ, String, Bool, true, false, Option, none, some, List, [], ◌∷◌, ◌++◌, ◌==◌, order_by,
  select_where,
}
use micro_erp_saas.Prelude.Int.{ℤ}
use micro_erp_saas.Entities.{Customer}
use micro_erp_saas.Store.{Db}
use micro_erp_saas.Dashboard.Export.{Text, codes, or_empty, state_text, join_fields}

-- `(cents / 100).toFixed(2)`, `toLocaleDateString`, and the order of the names in the database.
pub record Format : Type 0 where
  pub fixed : ℤ → Text
  pub local_date : ℕ → Text
  pub up_to_name : String → String → Bool

-- A text between quotation marks.
abbrev pub between_quotes : Text → Text
between_quotes value = 34 ∷ (value ++ (34 ∷ []))

abbrev pub yes_no : Bool → Text
yes_no true = codes "Sí"
yes_no false = codes "No"

abbrev pub date_or_empty : Format → Option ℕ → Text
date_or_empty format none = []
date_or_empty format (some at) = format.local_date at

abbrev pub export_header : List Text
export_header =
    codes "Nombre"
    ∷ codes "Teléfono"
    ∷ codes "DNI"
    ∷ codes "Email"
    ∷ codes "Dirección"
    ∷ codes "Deuda ($)"
    ∷ codes "Límite ($)"
    ∷ codes "Estado"
    ∷ codes "En Mora"
    ∷ codes "Promesa de Pago"
    ∷ codes "Creado"
    ∷ []

module _ (format : Format) where
  -- The fields of a customer, of which two are written between quotation marks.
  abbrev pub export_fields : Customer → List Text
  export_fields c =
      between_quotes (codes c.full_name)
      ∷ or_empty c.phone
      ∷ or_empty c.dni
      ∷ or_empty c.email
      ∷ between_quotes (or_empty c.address)
      ∷ format.fixed c.balance_cents
      ∷ format.fixed c.credit_limit_cents
      ∷ state_text c.is_active
      ∷ yes_no c.is_overdue
      ∷ date_or_empty format c.next_payment_promise
      ∷ format.local_date c.created_at
      ∷ []

  -- `[header, ...rows].join('\n')`, behind the header.
  abbrev pub export_rows : List Customer → Text
  export_rows [] = []
  export_rows (c ∷ cs) = 10 ∷ (join_fields (export_fields c) ++ export_rows cs)

  abbrev pub up_to_full_name : Customer → Customer → Bool
  up_to_full_name a b = format.up_to_name b.full_name a.full_name

  abbrev pub listed : ℕ → Db → List Customer
  listed tenant db =
      order_by up_to_full_name (select_where (λ c. c.tenant_id == tenant) db.customers)

  unfoldable pub export_csv : ℕ → Db → Text
  export_csv tenant db = join_fields export_header ++ export_rows (listed tenant db)
