-- ===== src/Transactions/History.antt =====
-- `findByCustomer`: the transactions of a customer, page by page.
use mathlib.Core.List.{Perm}
use micro_erp_saas.Prelude.{
  ℕ, zero, suc, ◌+◌, ◌*◌, ◌≤◌, ◌≡◌, sym, ap, subst, ◌∙◌, Bool, leb, List, [], ◌++◌, arith, length,
  select_where, order_by, order_by-Perm, take, skip, take-skip, skip-skip, skip-length,
  length-order_by,
}
use micro_erp_saas.Entities.{Transaction}
use micro_erp_saas.Store.{Db}
use micro_erp_saas.Ledger.Account.{is_owned}

-- ORDER BY created_at DESC
abbrev pub up_to_date : Transaction → Transaction → Bool
up_to_date a b = leb a.created_at b.created_at

pub record TransactionPage : Type 0 where
  pub data_rows : List Transaction
  pub total : ℕ
  pub limit : ℕ
  pub offset : ℕ

unfoldable pub find_by_customer : ℕ → ℕ → ℕ → ℕ → Db → TransactionPage
find_by_customer tenant customer limit offset db =
    let rows = select_where (is_owned tenant customer) db.transactions in
    record {
      data_rows = take limit (skip offset (order_by up_to_date rows));
      total = length rows;
      limit = limit;
      offset = offset;
    }

-- The rows of so many pages, from an offset on.
abbrev pub pages : ℕ → ℕ → ℕ → ℕ → ℕ → Db → List Transaction
pages tenant customer limit offset zero db = []
pages tenant customer limit offset (suc n) db =
    (find_by_customer tenant customer limit offset db).data_rows
    ++ pages tenant customer limit (offset + limit) n db

module _ (tenant customer limit : ℕ) (db : Db) where
  abbrev ranking : List Transaction
  ranking = order_by up_to_date (select_where (is_owned tenant customer) db.transactions)

  pages-skip :
      (n offset : ℕ)
      → length ranking ≤ offset + n * limit
      → pages tenant customer limit offset n db ≡ skip offset ranking
  unfolding find_by_customer
  pages-skip zero offset h = sym (skip-length offset ranking (omega (arith, h)))
  pages-skip (suc n) offset h =
      ap (λ r. take limit (skip offset ranking) ++ r)
        (pages-skip n (offset + limit) (omega (arith, h)) ∙ sym (skip-skip limit offset ranking))
      ∙ take-skip limit (skip offset ranking)

  -- Read from the start, pages of one limit hold every transaction of the customer exactly once, if
  -- there are enough of them for the total that each page states.
  pub pages-Perm :
      (n : ℕ)
      → (find_by_customer tenant customer limit 0 db).total ≤ n * limit
      → Perm
          (select_where (is_owned tenant customer) db.transactions)
          (pages tenant customer limit 0 n db)
  unfolding find_by_customer
  pages-Perm n h =
      let rows = select_where (is_owned tenant customer) db.transactions in
      let enough : length ranking ≤ 0 + n * limit =
        omega (arith, h, length-order_by up_to_date rows) in
      subst (λ ts. Perm rows ts) (sym (pages-skip n 0 enough)) (order_by-Perm up_to_date rows)
