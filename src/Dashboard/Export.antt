-- ===== src/Dashboard/Export.antt =====
-- backend/src/modules/dashboard/export.service.ts: the table of the debtors as CSV. A text is the list
-- of its characters' codes; the text of a date is a parameter.
pub mod Reading
pub mod Amounts
pub mod Restored
use Prim.Native.Char.{code}
use micro_erp_saas.Prelude.{
  ℕ, zero, suc, ◌+◌, ◌/◌, ◌%◌, String, Bool, true, false, ◌||◌, Option, none, some, List, [], ◌∷◌,
  ◌++◌, ◌==◌, ltb, if◌then◌else◌, map, any_where, select_where, order_by,
}
use micro_erp_saas.Prelude.Int.{ℤ, pos, negsuc}
use micro_erp_saas.Entities.{Customer}
use micro_erp_saas.Store.{Db}
use micro_erp_saas.Overdue.{owes}
use micro_erp_saas.Dashboard.{of_tenant, up_to_balance}

abbrev pub Text : Type 0
Text = List ℕ

abbrev pub codes : String → Text
codes String.[] = []
codes (String.◌∷◌ c s) = code c ∷ codes s

-- A comma, a quotation mark or a line feed.
abbrev pub is_special : ℕ → Bool
is_special c = c == 44 || (c == 34 || c == 10)

-- `value.replace(/"/g, '""')`
abbrev pub double_quotes : Text → Text
double_quotes [] = []
double_quotes (c ∷ s) = let rest = double_quotes s in if c == 34 then 34 ∷ 34 ∷ rest else c ∷ rest

-- `escapeCsv`
unfoldable pub escape_csv : Text → Text
escape_csv value =
    if any_where is_special value then 34 ∷ (double_quotes value ++ (34 ∷ [])) else value

-- `n.toString()`, for fuel that is not below n.
abbrev pub decimal_with : ℕ → ℕ → Text
decimal_with zero n = (48 + n % 10) ∷ []
decimal_with (suc fuel) n =
    let rest = decimal_with fuel (n / 10) in
    if ltb n 10 then (48 + n % 10) ∷ [] else rest ++ ((48 + n % 10) ∷ [])

abbrev pub decimal : ℤ → Text
decimal (pos n) = decimal_with n n
decimal (negsuc n) = 45 ∷ decimal_with (suc n) (suc n)

-- `Math.floor(cents / 100)`
abbrev pub floor_hundredth : ℤ → ℤ
floor_hundredth (pos n) = pos (n / 100)
floor_hundredth (negsuc n) = negsuc (n / 100)

abbrev pub negated : ℕ → ℤ
negated zero = pos 0
negated (suc n) = negsuc n

-- `cents % 100`, which has the sign of the cents.
abbrev pub rem_hundred : ℤ → ℤ
rem_hundred (pos n) = pos (n % 100)
rem_hundred (negsuc n) = negated (suc n % 100)

-- `padStart(2, '0')`
abbrev pub pad_start : Text → Text
pad_start [] = 48 ∷ 48 ∷ []
pad_start (c ∷ []) = 48 ∷ c ∷ []
pad_start (c ∷ d ∷ s) = c ∷ d ∷ s

abbrev pub cents_to_decimal : ℤ → Text
cents_to_decimal cents =
    decimal (floor_hundredth cents) ++ (46 ∷ pad_start (decimal (rem_hundred cents)))

-- `fields.join(',')`
abbrev pub join_fields : List Text → Text
join_fields [] = []
join_fields (f ∷ []) = f
join_fields (f ∷ g ∷ fs) = f ++ (44 ∷ join_fields (g ∷ fs))

-- `value ?? ''`
abbrev pub or_empty : Option String → Text
or_empty none = []
or_empty (some s) = codes s

abbrev pub state_text : Bool → Text
state_text true = codes "Activo"
state_text false = codes "Bloqueado"

module _ (iso_date : ℕ → Text) where
  abbrev pub promise_text : Option ℕ → Text
  promise_text none = []
  promise_text (some at) = iso_date at

  abbrev pub row_text : Customer → Text
  row_text c = join_fields (
      escape_csv (codes c.full_name)
      ∷ escape_csv (or_empty c.phone)
      ∷ escape_csv (or_empty c.dni)
      ∷ cents_to_decimal c.balance_cents
      ∷ cents_to_decimal c.credit_limit_cents
      ∷ state_text c.is_active
      ∷ promise_text c.next_payment_promise
      ∷ [])

  abbrev pub row_texts : List Customer → Text
  row_texts [] = []
  row_texts (c ∷ cs) = row_text c ++ (10 ∷ row_texts cs)

  -- The customers of the tenant by their balance, without those that owe nothing.
  abbrev pub exported : ℕ → Db → List Customer
  exported tenant db =
      select_where owes (order_by up_to_balance (select_where (of_tenant tenant) db.customers))

  abbrev pub header : Text
  header = codes "Nombre,Teléfono,DNI,Deuda ($),Límite Crédito ($),Estado,Promesa de Pago"

  -- `createDebtorsStream`: all that the stream delivers, after the mark of UTF-8.
  unfoldable pub create_debtors_stream : ℕ → Db → Text
  create_debtors_stream tenant db = 65279 ∷ (header ++ (10 ∷ row_texts (exported tenant db)))
