-- ===== src/Store.antt =====
-- The database as the services see it: tables of rows, a transaction that commits or rolls back, and
-- the queries that several services make. PostgreSQL and TypeORM are not modelled beyond what the
-- entities declare of the tables: primary keys, the unique indexes, the foreign keys, and 4-byte integer
-- columns. A statement that breaks one of these fails, and the failure is the error `query_failed`.
mod State
pub mod Commit
pub use State.*
