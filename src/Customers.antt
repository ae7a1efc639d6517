-- ===== src/Customers.antt =====
-- backend/src/modules/customers/customers.service.ts: the customers of a tenant. Only the credit limit
-- and the merge run in a transaction of their own; the other methods make one write, after every
-- check, so that an error leaves nothing behind there either.
pub mod Merge
pub mod Moved
pub mod Books
pub mod Profile
pub mod Export
pub mod Reading
