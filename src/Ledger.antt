-- ===== src/Ledger.antt =====
-- The abstract view of a customer's account: what the append-only list of transactions says that the
-- customer owes. The services keep a running total, `balance_cents`; it has to agree with this sum.
pub mod Posting
pub mod Account
pub mod Table
pub mod Marking
pub mod Remark
pub mod Entries
pub mod Isolation
