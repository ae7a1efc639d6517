-- ===== src/Transactions.antt =====
-- backend/src/modules/transactions: the financial operations of transactions.service.ts, each with
-- what follows from it. `Dto` holds the request bodies, `Entry` the helpers of the service, and the
-- other children one or two methods each; `Ledger` is the abstract view of a customer's account.
pub mod Dto
pub mod Entry
pub mod Charges
pub mod Sound
pub mod Mixed
pub mod Reversal
pub mod Inflation
pub mod Replay
pub mod Outcome
pub mod History
