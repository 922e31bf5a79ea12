-- ===== src/Postgres/Mirror.antt =====
-- The transactions of services/bank/internal/ledger/postgres.go beside the methods of memory.go.
pub mod Whole
pub mod Rows
pub mod Bodies
pub mod Batches
pub mod Answered
pub mod Calls
pub mod Credits
pub mod Implements
pub mod Once
pub mod Histories
pub mod Solvent
pub mod Handlers
pub mod Reposted
mod Tests
