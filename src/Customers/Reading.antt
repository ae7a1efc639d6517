-- ===== src/Customers/Reading.antt =====
-- `exportCsv` under the reader of CSV of Dashboard/Export/Reading.
use micro_erp_saas.Prelude.{
  ℕ, ◌≡◌, refl, sym, ap, ◌∙◌, Bool, true, false, Option, none, some, List, [], ◌∷◌, ◌++◌, ◌==◌, map,
  arith, All, any_where,
}
use micro_erp_saas.Prelude.Int.{ℤ}
use micro_erp_saas.Entities.{Customer}
use micro_erp_saas.Store.{Db}
use micro_erp_saas.Dashboard.Export.{Text, codes, double_quotes, or_empty, state_text, join_fields}
use micro_erp_saas.Dashboard.Export.Reading.{
  before, read, is_mark, Ends, read_before, read_quoted, Ends-comma, ++_assoc,
}
use micro_erp_saas.Customers.Export.{
  Format, between_quotes, yes_no, date_or_empty, export_header, export_fields, export_rows, listed,
  export_csv,
}

-- What is written is read as a value, whatever follows the field.
abbrev Reads : Text → Text → Type 0
Reads w v =
    (t : Text) (fs : List Text) (rs : List (List Text))
    → Ends t fs rs
    → read before (w ++ t) ≡ (v ∷ fs) ∷ rs

data Line : List Text → List Text → Type 0 where
  last : {w v : Text} → Reads w v → Line (w ∷ []) (v ∷ [])
  more :
      {w v g : Text} {gs vs : List Text} → Reads w v → Line (g ∷ gs) vs → Line (w ∷ g ∷ gs) (v ∷ vs)

read-join_fields :
    {ws vs : List Text} (t : Text) (rs : List (List Text))
    → Line ws vs
    → Ends t [] rs
    → read before (join_fields ws ++ t) ≡ vs ∷ rs
read-join_fields t rs (last r) e = r t [] rs e
read-join_fields t rs (more {w} {v} {g} {gs} {vs} r line) e =
    let rest = join_fields (g ∷ gs) in
    rw (++_assoc w (44 ∷ rest) t)
      (r (44 ∷ (rest ++ t)) vs rs (Ends-comma (rest ++ t) vs rs (read-join_fields t rs line e)))

-- A text without commas, quotation marks, line feeds and carriage returns.
abbrev pub IsPlain : Text → Type 0
IsPlain v = any_where is_mark v ≡ false

-- A text without quotation marks.
abbrev pub IsUnquoted : Text → Type 0
IsUnquoted v = any_where (λ c. c == 34) v ≡ false

plain-Reads : (v : Text) → IsPlain v → Reads v v
plain-Reads v h t fs rs e = read_before v t fs rs h e

double_unquoted : (v : Text) → IsUnquoted v → double_quotes v ≡ v
double_unquoted [] h = refl
double_unquoted (c ∷ v) h =
    let c34 : (c == 34) ≡ false = ground arith in
    rw c34 (ap (λ r. c ∷ r) (double_unquoted v (ground arith)))

quoted-Reads : (v : Text) → IsUnquoted v → Reads (between_quotes v) v
quoted-Reads v h t fs rs e =
    ap (λ s. read before (34 ∷ s)) (++_assoc v (34 ∷ []) t)
    ∙ ap (λ s. read before (34 ∷ (s ++ (34 ∷ t)))) (sym (double_unquoted v h))
    ∙ read_quoted v t fs rs e

plain-Line : (v : Text) (vs : List Text) → All IsPlain (v ∷ vs) → Line (v ∷ vs) (v ∷ vs)
plain-Line v [] h = last (plain-Reads v h.0)
plain-Line v (g ∷ vs) h = more (plain-Reads v h.0) (plain-Line g vs h.1)

header-IsPlain : All IsPlain export_header
header-IsPlain =
    (refl, (refl, (refl, (refl, (refl, (refl, (refl, (refl, (refl, (refl, (refl, tt)))))))))))

-- The texts of a customer that the export can carry.
pub record IsCarried (c : Customer) : Type 0 where
  pub name : IsUnquoted (codes c.full_name)
  pub phone : IsPlain (or_empty c.phone)
  pub dni : IsPlain (or_empty c.dni)
  pub email : IsPlain (or_empty c.email)
  pub address : IsUnquoted (or_empty c.address)

pub record IsFormat (format : Format) : Type 0 where
  pub plain_amounts : (z : ℤ) → IsPlain (format.fixed z)
  pub plain_dates : (at : ℕ) → IsPlain (format.local_date at)

module _ (format : Format) (lawful : IsFormat format) where
  abbrev pub values : Customer → List Text
  values c =
      codes c.full_name
      ∷ or_empty c.phone
      ∷ or_empty c.dni
      ∷ or_empty c.email
      ∷ or_empty c.address
      ∷ format.fixed c.balance_cents
      ∷ format.fixed c.credit_limit_cents
      ∷ state_text c.is_active
      ∷ yes_no c.is_overdue
      ∷ date_or_empty format c.next_payment_promise
      ∷ format.local_date c.created_at
      ∷ []

  date-IsPlain : (d : Option ℕ) → IsPlain (date_or_empty format d)
  date-IsPlain none = refl
  date-IsPlain (some at) = lawful.plain_dates at

  state-IsPlain : (b : Bool) → IsPlain (state_text b)
  state-IsPlain true = refl
  state-IsPlain false = refl

  yes_no-IsPlain : (b : Bool) → IsPlain (yes_no b)
  yes_no-IsPlain true = refl
  yes_no-IsPlain false = refl

  fields-Line : (c : Customer) → IsCarried c → Line (export_fields format c) (values c)
  fields-Line c h = more (quoted-Reads (codes c.full_name) h.name) (
      more (plain-Reads (or_empty c.phone) h.phone) (
        more (plain-Reads (or_empty c.dni) h.dni) (
          more (plain-Reads (or_empty c.email) h.email) (
            more (quoted-Reads (or_empty c.address) h.address) (
              more
                (plain-Reads (format.fixed c.balance_cents) (lawful.plain_amounts c.balance_cents))
                (more
                  (plain-Reads (format.fixed c.credit_limit_cents)
                    (lawful.plain_amounts c.credit_limit_cents))
                  (more (plain-Reads (state_text c.is_active) (state-IsPlain c.is_active)) (
                    more (plain-Reads (yes_no c.is_overdue) (yes_no-IsPlain c.is_overdue)) (
                      more
                        (plain-Reads (date_or_empty format c.next_payment_promise)
                          (date-IsPlain c.next_payment_promise))
                        (last (
                          plain-Reads (format.local_date c.created_at)
                            (lawful.plain_dates c.created_at))))))))))))

  rows-Ends :
      (cs : List Customer) → All IsCarried cs → Ends (export_rows format cs) [] (map values cs)
  rows-Ends [] h = record { at_start = refl; at_plain = refl; at_marked = refl }
  rows-Ends (c ∷ cs) h =
      let line =
        read-join_fields (export_rows format cs) (map values cs) (fields-Line c h.0)
          (rows-Ends cs h.1) in
      record {
        at_start = ap (λ r. ([] ∷ []) ∷ r) line;
        at_plain = ap (λ r. ([] ∷ []) ∷ r) line;
        at_marked = ap (λ r. ([] ∷ []) ∷ r) line;
      }

  -- If the names and addresses have no quotation mark and the other texts of the customers no comma,
  -- quotation mark, line feed or carriage return, nor the texts of amounts and dates, the reader of CSV
  -- reads back from `exportCsv` the titles and the columns of every customer of the tenant.
  pub read-export_csv :
      (tenant : ℕ) (db : Db)
      → All IsCarried (listed format tenant db)
      → read before (export_csv format tenant db)
        ≡ export_header ∷ map values (listed format tenant db)
  unfolding export_csv
  read-export_csv tenant db h =
      let titles = plain-Line _ _ header-IsPlain in
      read-join_fields (export_rows format (listed format tenant db))
        (map values (listed format tenant db)) titles (rows-Ends (listed format tenant db) h)
