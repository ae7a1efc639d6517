-- ===== src/Notifications/Summary.antt =====
-- What a link shows, and to whom it belongs.
use micro_erp_saas.Prelude.{
  ℕ, ◌+◌, ◌/◌, ◌≤◌, ◌<◌, ◌≡◌, refl, true, inl, inr, some, List, ◌==◌, arith, All, Option-cases,
  find_where, select_where, select_where-test, order_by, order_by-All, take-All, length,
  length-take,
}
use micro_erp_saas.Entities.{Customer, Tenant, Transaction, TransactionType, debt, payment}
use micro_erp_saas.Store.{Db, ok, is_customer}
use micro_erp_saas.Tenants.{find_setting}
use micro_erp_saas.Transactions.History.{up_to_date}
use micro_erp_saas.Notifications.{
  TokenService, IsTokenService, SummaryTokenPayload, PublicDebtSummary, generate_summary_link,
  summary_payload, get_public_summary, is_summary, is_entry, recent, summary_seconds, text_of,
}

-- Every entry is of the customer, of the type and not reversed, and there are at most so many.
pub record AreEntries (n tenant customer : ℕ) (type : TransactionType) (ts : List Transaction)
    : Type 0 where
  pub own : All (λ t. is_entry tenant customer type t ≡ true) ts
  pub at_most : length ts ≤ n

recent-AreEntries :
    (n tenant customer : ℕ) (type : TransactionType) (ts : List Transaction)
    → AreEntries n tenant customer type (recent n tenant customer type ts)
recent-AreEntries n tenant customer type ts =
    let rows = select_where (is_entry tenant customer type) ts in
    let P : Transaction → Type 0 = λ t. is_entry tenant customer type t ≡ true in
    record {
      own =
          take-All P n (order_by up_to_date rows)
            (order_by-All up_to_date P rows (select_where-test (is_entry tenant customer type) ts));
      at_most = length-take n (order_by up_to_date rows);
    }

-- A summary shows one customer of one tenant.
pub record IsSummaryOf (tenant customer : ℕ) (db : Db) (s : PublicDebtSummary) : Type 0 where
  pub row : Customer
  pub found : find_where (is_customer tenant customer) db.customers ≡ some row
  pub same_name : s.customer_name ≡ row.full_name
  pub same_balance : s.balance_cents ≡ row.balance_cents
  pub debts : AreEntries 5 tenant customer debt s.recent_debts
  pub payments : AreEntries 2 tenant customer payment s.recent_payments

-- A public summary is shown only for a token of the type summary that verifies. It shows the name
-- and the balance of the token's customer in the token's tenant, and at most five debts and two
-- payments, all of that customer and none reversed.
pub get_public_summary-IsSummaryOf :
    (k : TokenService) (now : ℕ) (token : k.Token) (db db' : Db) (s : PublicDebtSummary)
    → get_public_summary k now token db ≡ ok (s, db')
    → (p : SummaryTokenPayload) × (k.verify token now ≡ some p)
      × (is_summary p.type ≡ true)
      × IsSummaryOf p.tenant_id p.customer_id db s
unfolding get_public_summary
get_public_summary-IsSummaryOf k now token db db' s ran = elim (Option-cases (k.verify token now)) [
  | inl forged ↦ absurd (ground arith)
  | inr (p, verified) ↦
      elim (Option-cases (find_where (is_customer p.tenant_id p.customer_id) db.customers)) [
        | inl absent ↦
            absurd (elim (Option-cases (find_where (λ t. t.id == p.tenant_id) db.tenants)) [
              | inl gone ↦ ground arith
              | inr (t, owner) ↦ ground arith
            ])
        | inr (c, found) ↦ elim (Option-cases (find_where (λ t. t.id == p.tenant_id) db.tenants)) [
          | inl gone ↦ absurd (ground arith)
          | inr (t, owner) ↦
              let debts : s.recent_debts ≡ recent 5 p.tenant_id p.customer_id debt db.transactions =
                ground arith in
              let payments : s.recent_payments
                  ≡ recent 2 p.tenant_id p.customer_id payment db.transactions =
                ground arith in
              (
                p,
                verified,
                ground arith,
                record {
                  row = c;
                  found = found;
                  same_name = ground arith;
                  same_balance = ground arith;
                  debts =
                      rw debts (recent-AreEntries 5 p.tenant_id p.customer_id debt db.transactions);
                  payments =
                      rw payments
                        (recent-AreEntries 2 p.tenant_id p.customer_id payment db.transactions);
                },
              )
        ]
      ]
]

-- A link that was generated shows its customer for 72 hours.
pub get_public_summary-generate_summary_link :
    (k : TokenService) (lawful : IsTokenService k) (now later tenant customer : ℕ) (db db1 db2 : Db)
    (token : k.Token) (t : Tenant) (c : Customer)
    → generate_summary_link k now tenant customer db ≡ ok (token, db1)
    → now ≤ later
    → later / 1000 < now / 1000 + summary_seconds
    → find_where (λ r. r.id == tenant) db2.tenants ≡ some t
    → find_where (is_customer tenant customer) db2.customers ≡ some c
    → (s : PublicDebtSummary) × (get_public_summary k later token db2 ≡ ok (s, db2))
      × (s.business_name ≡ t.tenant_name)
      × (s.customer_name ≡ c.full_name)
      × (s.balance_cents ≡ c.balance_cents)
unfolding generate_summary_link get_public_summary
get_public_summary-generate_summary_link k lawful now later tenant customer db db1 db2 token t c
      made after before owner found =
    elim (Option-cases (find_where (is_customer tenant customer) db.customers)) [
      | inl absent ↦ absurd (ground arith)
      | inr (row, known) ↦
          let signed : token ≡ k.sign (summary_payload tenant customer) now = ground arith in
          let verified : k.verify token later ≡ some (summary_payload tenant customer) =
            rw signed
              (lawful.verify-sign (summary_payload tenant customer) now later after before) in
          (
            record {
              business_name = t.tenant_name;
              customer_name = c.full_name;
              balance_cents = c.balance_cents;
              recent_debts = recent 5 tenant customer debt db2.transactions;
              recent_payments = recent 2 tenant customer payment db2.transactions;
              payment_alias = text_of (find_setting "payment_alias" t.settings);
            },
            ground arith,
            refl,
            refl,
            refl,
          )
    ]
