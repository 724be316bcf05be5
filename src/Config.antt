-- ===== src/Config.antt =====
-- The configuration (config/).
pub mod Prices
pub mod Routing
mod Tests
