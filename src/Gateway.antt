-- ===== src/Gateway.antt =====
-- The gateway's own services, services/world-gateway: the calls of the browser, the configuration,
-- and the structures on the map.
pub mod Structures
pub mod World
pub mod Config
pub mod Cors
mod Tests
