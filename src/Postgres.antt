-- ===== src/Postgres.antt =====
-- The ledger over Postgres, services/bank/internal/ledger/postgres.go: the SQL statements, the
-- methods as transactions of them, and what is shown of these.
pub mod Statements
pub mod Calls
pub mod Steady
pub mod Triples
pub mod Rows
pub mod Conserve
pub mod Atomic
pub mod Mirror
mod Tests
