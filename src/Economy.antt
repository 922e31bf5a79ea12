-- ===== src/Economy.antt =====
-- The gateway's economy, services/world-gateway/internal/economy: what it asks of others, one
-- building's driver, the fleet's cycle, and the money that it moves.
pub mod Outside
pub mod Driver
pub mod Registration
pub mod Payroll
pub mod Fleet
mod Tests
