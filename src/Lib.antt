-- ===== src/Lib.antt =====
-- Verification of the backend of a multi-tenant micro ERP: shops that sell on credit ("fiado"), collect
-- payments and count their till. The backend is a NestJS service over PostgreSQL (backend/src).
--
-- The program and its parts. Guards check the token, the role and the subscription of a request
-- (backend/src/common/guards). Controllers check the bodies of requests (the DTOs) and call services. A
-- service runs each method in one database transaction: it sets a lock timeout, looks for the
-- idempotency key, locks rows, checks its guards, writes rows and commits; an exception rolls all of it
-- back. The services share the tables: transactions change the balance of customers, closing a turn of
-- the till marks transactions, and a merge of two customers moves transactions and balances. Two jobs
-- run by the clock: one marks and blocks overdue customers, one suspends tenants that did not pay. A
-- webhook of the payment provider extends a subscription, and a link shows a customer the own debt.
--
-- Files.
-- - Prelude: shared names, Boolean tests, queries over lists of rows (Prelude/Rows), and integers over
--   the native natural numbers with the rules `int_laws` (Prelude/Int).
-- - Entities: the entities of backend/src/modules/*/entities and backend/src/common/enums.
-- - Store: the tables as one record of lists of rows (`Db`), the exceptions (`Error`), and `Tx`, the
--   statements inside a database transaction; `run_tx` is try, commit, catch, rollback. `Request` holds
--   what a request draws from outside: the clock, fresh UUIDs, and whether its locks are granted
--   before the timeout. Store/Commit has the rules by which a property passes through `run_tx`.
-- - Number: the doubles of JavaScript as a parameter, with the laws of IEEE 754 that the proration
--   of a mixed payment relies on (`IsIeee`).
-- - Ledger: the abstract view of the books. `ledger` sums the effects of a customer's transactions;
--   `IsSound` says that every balance is that sum and not negative and that the keys of both tables are
--   distinct. Ledger/Posting, Ledger/Marking and Ledger/Remark are the three ways in which the
--   services change the tables: rows are appended with a new balance, one row is replaced, and a
--   column that does not count is set on many rows. Ledger/Table treats the customers' table, and
--   Ledger/Entries the rows that idempotency keys name.
-- - Transactions: backend/src/modules/transactions/transactions.service.ts. Charges has registerDebt,
--   registerPayment and forgiveDebt, Mixed registerMixedPayment, Reversal reverseTransaction, Inflation
--   applyInflationAdjustment, Dto the request bodies, Entry the shared row and the idempotency check,
--   History findByCustomer. A method `register_debt` is `run_tx` of the check and of `new_debt`, the
--   part behind the check.
-- - CashRegister: backend/src/modules/cash-register/cash-register.service.ts, with openTurn, closeTurn
--   and getActiveSummary.
-- - Customers: backend/src/modules/customers/customers.service.ts. Profile has create, updateCustomer,
--   updateCreditLimit, toggleBlock and updatePromise, Merge has mergeCustomers, and Export exportCsv
--   with Customers/Reading for a reader of it.
-- - Accounts: users and sessions. Users has backend/src/modules/users/users.service.ts, Auth
--   backend/src/modules/auth/auth.service.ts, Strategy the check of a token in every request
--   (auth/strategies/jwt.strategy.ts), Guards the guards, and Crypto bcrypt and the JWT service as a
--   parameter with the laws that they document (`IsCrypto`). Lifecycle has the requests on users as
--   steps, Keys and Revocation what they keep, and Sessions, Login and Admission the theorems.
-- - Subscriptions: backend/src/modules/cron/saas-cron.service.ts (processSaasExpirations) and
--   backend/src/modules/billing/billing.service.ts (processPayment); Webhook has verifySignature and the
--   handler of billing.controller.ts, over a hash that is a parameter (`Hmac`).
-- - Overdue: backend/src/modules/cron/overdue-cron.service.ts, the job `process_overdue_customers` with
--   its two blocks; Overdue/Marking, Overdue/Blocked, Overdue/Blocking and Overdue/Twice what it does.
-- - Tenants: backend/src/modules/tenants/tenants.service.ts, getSettings and updateSettings.
-- - Audit: backend/src/modules/audit, AuditService.log and the subscriber of customers' updates,
--   with Audit/Atomic for the batch that it inserts.
-- - Dashboard: backend/src/modules/dashboard, getMetrics, and in Dashboard/Export the CSV of the
--   debtors; Dashboard/Export/Reading is a reader of CSV to compare with, Dashboard/Export/Amounts a
--   reader of amounts, and Dashboard/Export/Restored what both find in the export.
-- - Notifications: backend/src/modules/notifications/notifications.service.ts, the public summary.
-- - System: the requests on customers, transactions and the till as a step relation on `Db`, and the
--   databases they lead to; System/Isolation and System/Tenants compare the rows of other tenants
--   before and after a request, System/Tills follows the turns of the till, and System/Keeping
--   and System/Replay treat requests that are sent again.
-- - Tests: a small shop, an arithmetic of fractions that has the laws of `IsIeee`, transparent tokens
--   that have those of `IsCrypto`, and runs.
--
-- Modelling choices. A UUID is a natural number; the order of numbers stands for the order of the texts,
-- which only the lock order of a merge uses. A timestamp is a number of milliseconds. Amounts are
-- integers, as in the code, and a write outside the range of an `int` column fails with `query_failed`.
-- The store does what PostgreSQL and TypeORM document for the calls that the services make: a
-- `findOne` returns the first row that matches, `save` inserts a new row under the table's unique
-- indexes and foreign keys or updates the row with the same identifier, and FOR UPDATE waits or times
-- out. No row that a foreign key names is ever deleted. A request
-- runs on its own: rows that it has locked do not change under it. The one read that a method relies
-- on without a lock, of the original in reverseTransaction, is a definition of its own
-- (`find_reversible`), so that overlapping reversals can be written as sequences of steps. The methods
-- of `Customers` that save a row without a transaction are modelled as if they ran alone. Logging is
-- left out. All loops are recursion on lists, so every definition terminates; only the digits of a number
-- in the CSV are written with fuel, the number itself, which has more units than digits.
-- The clock of the service is in UTC, so midnight and days are multiples of 86400000 milliseconds, and
-- differences that would lie before 1970 stop there, where no row is. A version of a user is a column
-- of type `int`. What a method starts without waiting for it (the logs and the blocks of the job for
-- overdue customers) runs in the order in which it is started. The cache of the keys of password
-- resets is an argument of `execute_password_reset`, and the mail queue the result of
-- `request_password_reset`. The insert of a log in a password reset uses a connection of its own and
-- waits for the row of the user, which the reset keeps locked until the insert has ended; in the model
-- it ends by an error. A token expires by whole seconds, as in jsonwebtoken. A cast of a text to an integer in SQL, and the text of a date, are parameters. The rows of equal balance or
-- time come in the order of the table. In the CSV a text is the list of its codes.
--
-- Not modelled: the listings findAllByTenant, getTransactions and the like, which only read;
-- verifySignature of the webhook, which compares hashes of Node's crypto; the delivery of mails; the
-- controllers, modules, decorators and the exception filter, which wire the framework; the migrations;
-- and the frontend, which is user interface.
pub mod Prelude
pub mod Entities
pub mod Store
pub mod Number
pub mod Ledger
pub mod Transactions
pub mod CashRegister
pub mod Customers
pub mod Accounts
pub mod Subscriptions
pub mod Audit
pub mod Tenants
pub mod Dashboard
pub mod Notifications
pub mod Overdue
pub mod System
pub mod Tests
