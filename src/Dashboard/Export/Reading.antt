-- ===== src/Dashboard/Export/Reading.antt =====
-- A reader of CSV, and what it reads from the export. Fields and quotation marks are those of RFC 4180; a
-- record ends at a line feed or a carriage return outside of the marks.
use micro_erp_saas.Prelude.{
  ℕ, zero, suc, ◌+◌, ◌/◌, ◌%◌, ◌≡◌, refl, ap, ◌∙◌, Bool, true, false, inl, inr, Option, none, some,
  List, [], ◌∷◌, ◌++◌, ◌==◌, ltb, if◌then◌else◌, map, arith, Bool-cases, any_where, ◌||◌, ◌&&◌, not,
  All, any_where-narrow,
}
use micro_erp_saas.Prelude.Int.{ℤ, pos, negsuc}
use micro_erp_saas.Entities.{Customer}
use micro_erp_saas.Store.{Db}
use micro_erp_saas.Dashboard.Export.{
  Text, codes, is_special, double_quotes, escape_csv, decimal_with, decimal, floor_hundredth,
  rem_hundred, pad_start, cents_to_decimal, join_fields, or_empty, state_text, promise_text,
  row_text, row_texts, exported, create_debtors_stream,
}

pub data Kind : Type 0 where
  comma quote feed plain_char : Kind

abbrev pub kind_of : ℕ → Kind
kind_of c =
    if c == 44
    then comma
    else (if c == 34 then quote else (if c == 10 || c == 13 then feed else plain_char))

-- Where the reader stands: before a field, in a plain one, in a quoted one, after a mark in it.
pub data Mode : Type 0 where
  before plain quoted marked : Mode

abbrev pub next_mode : Mode → Kind → Mode
next_mode quoted quote = marked
next_mode quoted k = quoted
next_mode m comma = before
next_mode m feed = before
next_mode before quote = quoted
next_mode marked quote = quoted
next_mode m k = plain

-- A text that is read back: with a carriage return it has a character that makes the export quote it.
abbrev pub is_bare_return : Text → Bool
is_bare_return v = any_where (λ c. c == 13) v && not (any_where is_special v)

-- What a plain field cannot have.
abbrev pub is_mark : ℕ → Bool
is_mark c = is_special c || c == 13

abbrev pub add_char : ℕ → List (List Text) → List (List Text)
add_char c ((f ∷ fs) ∷ rs) = ((c ∷ f) ∷ fs) ∷ rs
add_char c rs = rs

abbrev pub new_field : List (List Text) → List (List Text)
new_field (fs ∷ rs) = ([] ∷ fs) ∷ rs
new_field [] = []

abbrev pub new_record : List (List Text) → List (List Text)
new_record rs = ([] ∷ []) ∷ rs

-- What a character adds to what is read after it.
abbrev pub act : Mode → ℕ → Kind → List (List Text) → List (List Text)
act quoted c quote rs = rs
act quoted c k rs = add_char c rs
act m c comma rs = new_field rs
act m c feed rs = new_record rs
act before c quote rs = rs
act m c k rs = add_char c rs

-- The records of a text. One that ends with a line feed has an empty record at the end.
abbrev pub read : Mode → Text → List (List Text)
read m [] = ([] ∷ []) ∷ []
read m (c ∷ s) = act m c (kind_of c) (read (next_mode m (kind_of c)) s)

-- After a field the text goes on with a comma or a line feed.
pub record Ends (t : Text) (fs : List Text) (rs : List (List Text)) : Type 0 where
  pub at_start : read before t ≡ ([] ∷ fs) ∷ rs
  pub at_plain : read plain t ≡ ([] ∷ fs) ∷ rs
  pub at_marked : read marked t ≡ ([] ∷ fs) ∷ rs

read_plain :
    (v t : Text) (fs : List Text) (rs : List (List Text))
    → any_where is_mark v ≡ false
    → Ends t fs rs
    → read plain (v ++ t) ≡ (v ∷ fs) ∷ rs
read_plain [] t fs rs h e = e.at_plain
read_plain (c ∷ v) t fs rs h e =
    let k : kind_of c ≡ plain_char = ground arith in
    rw k (ap (add_char c) (read_plain v t fs rs (ground arith) e))

pub read_before :
    (v t : Text) (fs : List Text) (rs : List (List Text))
    → any_where is_mark v ≡ false
    → Ends t fs rs
    → read before (v ++ t) ≡ (v ∷ fs) ∷ rs
read_before [] t fs rs h e = e.at_start
read_before (c ∷ v) t fs rs h e =
    let k : kind_of c ≡ plain_char = ground arith in
    rw k (ap (add_char c) (read_plain v t fs rs (ground arith) e))

-- In a quoted field every character but the mark is itself.
quoted_char :
    (c : ℕ) (s : Text) → (c == 34) ≡ false → read quoted (c ∷ s) ≡ add_char c (read quoted s)
quoted_char c s h = elim (Bool-cases (c == 44)) [
  | inl a ↦ let k : kind_of c ≡ comma = ground arith in rw k refl
  | inr a ↦ elim (Bool-cases (c == 10 || c == 13)) [
    | inl b ↦ let k : kind_of c ≡ feed = ground arith in rw k refl
    | inr b ↦ let k : kind_of c ≡ plain_char = ground arith in rw k refl
  ]
]

pub read_quoted :
    (v t : Text) (fs : List Text) (rs : List (List Text))
    → Ends t fs rs
    → read quoted (double_quotes v ++ (34 ∷ t)) ≡ (v ∷ fs) ∷ rs
read_quoted [] t fs rs e = e.at_marked
read_quoted (c ∷ v) t fs rs e = elim (Bool-cases (c == 34)) [
  | inl mark ↦
      let same : c ≡ 34 = ground arith in rw same (ap (add_char 34) (read_quoted v t fs rs e))
  | inr other ↦ rw other (
      quoted_char c (double_quotes v ++ (34 ∷ t)) other ∙ ap (add_char c) (read_quoted v t fs rs e))
]

pub ++_assoc : (a b c : Text) → (a ++ b) ++ c ≡ a ++ (b ++ c)
++_assoc [] b c = refl
++_assoc (x ∷ a) b c = ap (λ r. x ∷ r) (++_assoc a b c)

no_mark :
    (v : Text)
    → any_where is_special v ≡ false
    → any_where (λ c. c == 13) v ≡ false
    → any_where is_mark v ≡ false
no_mark [] h k = refl
no_mark (c ∷ v) h k = ground (arith, no_mark v)

-- An escaped field is read as it was.
read-escape_csv :
    (v t : Text) (fs : List Text) (rs : List (List Text))
    → is_bare_return v ≡ false
    → Ends t fs rs
    → read before (escape_csv v ++ t) ≡ (v ∷ fs) ∷ rs
unfolding escape_csv
read-escape_csv v t fs rs r e = elim (Bool-cases (any_where is_special v)) [
  | inl special ↦ rw (special, ++_assoc (double_quotes v) (34 ∷ []) t) (read_quoted v t fs rs e)
  | inr plain_text ↦ rw plain_text (read_before v t fs rs (no_mark v plain_text (ground arith)) e)
]

pub Ends-feed : (s : Text) → Ends (10 ∷ s) [] (read before s)
Ends-feed s = record { at_start = refl; at_plain = refl; at_marked = refl }

pub Ends-comma :
    (s : Text) (fs : List Text) (rs : List (List Text))
    → read before s ≡ fs ∷ rs
    → Ends (44 ∷ s) fs rs
Ends-comma s fs rs e = record { at_start = rw e refl; at_plain = rw e refl; at_marked = rw e refl }

-- A line of escaped fields is read as the fields.
read_line :
    (f : Text) (fs : List Text) (s : Text)
    → All (λ v. is_bare_return v ≡ false) (f ∷ fs)
    → read before (join_fields (map escape_csv (f ∷ fs)) ++ (10 ∷ s)) ≡ (f ∷ fs) ∷ read before s
read_line f [] s r = read-escape_csv f (10 ∷ s) [] (read before s) r.0 (Ends-feed s)
read_line f (g ∷ fs) s r =
    let rest = join_fields (map escape_csv (g ∷ fs)) in
    rw (++_assoc (escape_csv f) (44 ∷ rest) (10 ∷ s)) (
      read-escape_csv f (44 ∷ (rest ++ (10 ∷ s))) (g ∷ fs) (read before s) r.0
        (Ends-comma (rest ++ (10 ∷ s)) (g ∷ fs) (read before s) (read_line g fs s r.1)))

-- A text without marks needs no escape.
escape_plain : (v : Text) → any_where is_mark v ≡ false → escape_csv v ≡ v
unfolding escape_csv
escape_plain v h =
    let p = any_where-narrow is_special is_mark v (λ c e. ground arith) h in rw p refl

readable_plain : (v : Text) → any_where is_mark v ≡ false → is_bare_return v ≡ false
readable_plain v h =
    let r = any_where-narrow (λ c. c == 13) is_mark v (λ c e. ground arith) h in rw r refl

any_mark-++ :
    (a b : Text)
    → any_where is_mark a ≡ false
    → any_where is_mark b ≡ false
    → any_where is_mark (a ++ b) ≡ false
any_mark-++ [] b h k = k
any_mark-++ (c ∷ a) b h k = ground (arith, any_mark-++ a b)

digit_plain : (n : ℕ) → is_mark (48 + n % 10) ≡ false
digit_plain n = ground arith

decimal_with-plain : (fuel n : ℕ) → any_where is_mark (decimal_with fuel n) ≡ false
decimal_with-plain zero n = ground (arith, digit_plain n)
decimal_with-plain (suc fuel) n = elim (Bool-cases (ltb n 10)) [
  | inl small ↦ rw small (ground (arith, digit_plain n))
  | inr big ↦ rw big (
      any_mark-++ (decimal_with fuel (n / 10)) ((48 + n % 10) ∷ [])
        (decimal_with-plain fuel (n / 10)) (ground (arith, digit_plain n)))
]

decimal-plain : (z : ℤ) → any_where is_mark (decimal z) ≡ false
decimal-plain (pos n) = decimal_with-plain n n
decimal-plain (negsuc n) = decimal_with-plain (suc n) (suc n)

pad-plain : (t : Text) → any_where is_mark t ≡ false → any_where is_mark (pad_start t) ≡ false
pad-plain [] h = refl
pad-plain (c ∷ []) h = h
pad-plain (c ∷ d ∷ s) h = h

cents-plain : (z : ℤ) → any_where is_mark (cents_to_decimal z) ≡ false
cents-plain z =
    any_mark-++ (decimal (floor_hundredth z)) (46 ∷ pad_start (decimal (rem_hundred z)))
      (decimal-plain (floor_hundredth z))
      (pad-plain (decimal (rem_hundred z)) (decimal-plain (rem_hundred z)))

-- The titles of the columns, the first after the mark of UTF-8.
abbrev pub titles : List Text
titles =
    (65279 ∷ codes "Nombre")
    ∷ codes "Teléfono"
    ∷ codes "DNI"
    ∷ codes "Deuda ($)"
    ∷ codes "Límite Crédito ($)"
    ∷ codes "Estado"
    ∷ codes "Promesa de Pago"
    ∷ []

-- The texts of a customer that the export can carry.
pub record IsCarried (c : Customer) : Type 0 where
  pub name : is_bare_return (codes c.full_name) ≡ false
  pub phone : is_bare_return (or_empty c.phone) ≡ false
  pub dni : is_bare_return (or_empty c.dni) ≡ false

-- The columns of a customer.
module _ (iso_date : ℕ → Text) where
  abbrev pub columns : Customer → List Text
  columns c =
      codes c.full_name
      ∷ or_empty c.phone
      ∷ or_empty c.dni
      ∷ cents_to_decimal c.balance_cents
      ∷ cents_to_decimal c.credit_limit_cents
      ∷ state_text c.is_active
      ∷ promise_text iso_date c.next_payment_promise
      ∷ []

  module _ (dated : (at : ℕ) → any_where is_mark (iso_date at) ≡ false) where
    promise-plain : (p : Option ℕ) → any_where is_mark (promise_text iso_date p) ≡ false
    promise-plain none = refl
    promise-plain (some at) = dated at

    state-plain : (on : Bool) → any_where is_mark (state_text on) ≡ false
    state-plain true = refl
    state-plain false = refl

    row_text-columns :
        (c : Customer) → row_text iso_date c ≡ join_fields (map escape_csv (columns c))
    row_text-columns c =
        rw
          (
            escape_plain (cents_to_decimal c.balance_cents) (cents-plain c.balance_cents),
            escape_plain (cents_to_decimal c.credit_limit_cents) (cents-plain c.credit_limit_cents),
            escape_plain (state_text c.is_active) (state-plain c.is_active),
            escape_plain (promise_text iso_date c.next_payment_promise)
                (promise-plain c.next_payment_promise),
          )
          refl

    columns-readable :
        (c : Customer) → IsCarried c → All (λ v. is_bare_return v ≡ false) (columns c)
    columns-readable c r =
        let balance =
          readable_plain (cents_to_decimal c.balance_cents) (cents-plain c.balance_cents) in
        let limit =
          readable_plain (cents_to_decimal c.credit_limit_cents)
            (cents-plain c.credit_limit_cents) in
        let state = readable_plain (state_text c.is_active) (state-plain c.is_active) in
        let promise =
          readable_plain (promise_text iso_date c.next_payment_promise)
            (promise-plain c.next_payment_promise) in
        (r.name, (r.phone, (r.dni, (balance, (limit, (state, (promise, tt)))))))

    read_rows :
        (cs : List Customer)
        → All IsCarried cs
        → read before (row_texts iso_date cs) ≡ map columns cs ++ (([] ∷ []) ∷ [])
    read_rows [] r = refl
    read_rows (c ∷ cs) r =
        let line =
          read_line (codes c.full_name)
            (or_empty c.phone
              ∷ or_empty c.dni
              ∷ cents_to_decimal c.balance_cents
              ∷ cents_to_decimal c.credit_limit_cents
              ∷ state_text c.is_active
              ∷ promise_text iso_date c.next_payment_promise
              ∷ [])
            (row_texts iso_date cs) (columns-readable c r.0) in
        rw (row_text-columns c) (line ∙ ap (λ t. columns c ∷ t) (read_rows cs r.1))

    -- The records of the export: the titles, the columns of every row, and an empty last line.
    pub read-create_debtors_rows :
        (tenant : ℕ) (db : Db)
        → All IsCarried (exported iso_date tenant db)
        → read before (create_debtors_stream iso_date tenant db)
          ≡ titles ∷ (map columns (exported iso_date tenant db) ++ (([] ∷ []) ∷ []))
    unfolding create_debtors_stream
    read-create_debtors_rows tenant db carried =
        ap (λ r. titles ∷ r) (read_rows (exported iso_date tenant db) carried)
