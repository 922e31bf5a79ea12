-- ===== src/Farm.antt =====
-- The farm, services/workplaces/farm: the rules of a shift, the stores that keep them, one
-- building's service, and the host of several buildings.
pub mod Specs
pub mod Shifts
pub mod Store
pub mod Dapr
pub mod Redis
pub mod Service
pub mod Host
pub mod Actors
pub mod Startup
mod Tests
